-- ===== src/Planning/Facts.antt =====
-- `_index_facts`: the observations by resource, where duplicates count as none.
use kitdev_sandboxes.Base.{String, not, List, [], ◌∷◌, if◌then◌else◌}
use kitdev_sandboxes.Base.Errors.{ok, ◌>>=◌}
use kitdev_sandboxes.Base.Strings.{str_mem}
use kitdev_sandboxes.Base.Dict.{Dict, contains, insert, erase}
use kitdev_sandboxes.Planning.Types.{IssueCode, ResourceFact, PlanIssue}
use kitdev_sandboxes.Planning.Checked.{Checked}
use kitdev_sandboxes.Planning.Lifecycle.{issue}

abbrev pub Index : Type 0
Index = Dict ResourceFact × List String

-- One round of the loop over the facts: the first fact of each resource, and the resources seen
-- again (a Python set, here a list).
unfoldable pub index_fact : List String → ResourceFact → Index → Index
index_fact desired_ids fact (indexed, duplicates) =
    if not (str_mem fact.resource_id desired_ids)
    then (indexed, duplicates)
    else if contains fact.resource_id indexed
    then (indexed, fact.resource_id ∷ duplicates)
    else (insert fact.resource_id fact indexed, duplicates)

unfoldable pub index_loop : List String → List ResourceFact → Index → Index
index_loop desired_ids [] ix = ix
index_loop desired_ids (fact ∷ facts) ix =
    index_loop desired_ids facts (index_fact desired_ids fact ix)

-- The loop that drops the duplicates.
unfoldable pub drop_all : List String → Dict ResourceFact → Dict ResourceFact
drop_all [] d = d
drop_all (k ∷ ks) d = drop_all ks (erase k d)

unfoldable pub duplicate_issues : List String → Checked (List PlanIssue)
duplicate_issues [] = ok []
duplicate_issues (k ∷ ks) = do
  i ←
      issue "facts.duplicate.desired_resources" IssueCode.invalid_fact "planning.resources"
        "The normalized fact set contains duplicate desired-resource observations."
        "Collect exactly one authoritative observation for each resource ID."
  ok (i ∷ [])

unfoldable pub index_facts :
    List ResourceFact → List String → Checked (Dict ResourceFact × List PlanIssue)
index_facts facts desired_ids = do
  let ix = index_loop desired_ids facts ([], [])
  issues ← duplicate_issues ix.1
  ok (drop_all ix.1 ix.0, issues)
