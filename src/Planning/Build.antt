-- ===== src/Planning/Build.antt =====
-- `build_change_plan`.
use kitdev_sandboxes.Base.{
  Bool, Option, none, some, List, [], ◌∷◌, ◌++◌, map, any, if◌then◌else◌, String,
}
use kitdev_sandboxes.Base.Errors.{ok, ◌>>=◌}
use kitdev_sandboxes.Base.Strings.{str_leb}
use kitdev_sandboxes.Base.Sort.{sort_by}
use kitdev_sandboxes.Base.Dict.{Dict, lookup}
use kitdev_sandboxes.Config.{Configuration}
use kitdev_sandboxes.Planning.Types.{
  PlanningFacts, ResourceFact, PlannedAction, PlanIssue, issue_blocking, ChangePlan,
  DesiredDirectory,
}
use kitdev_sandboxes.Planning.Checked.{Checked, change_plan}
use kitdev_sandboxes.Planning.Paths.{desired_directories}
use kitdev_sandboxes.Planning.Lifecycle.{lifecycle_issues}
use kitdev_sandboxes.Planning.Facts.{index_facts}
use kitdev_sandboxes.Planning.Directory.{directory_result}

-- `if x is not None: xs.append(x)`, in front of what follows.
abbrev pub optional : {A : Type 0} → Option A → List A → List A
optional none xs = xs
optional (some x) xs = x ∷ xs

-- The loop over the desired directories: the candidate actions and the issues, in order.
unfoldable pub directory_loop :
    Dict ResourceFact → List DesiredDirectory → Checked (List PlannedAction × List PlanIssue)
directory_loop indexed [] = ok ([], [])
directory_loop indexed (d ∷ ds) = do
  r ← directory_result d (lookup d.resource_id indexed)
  rest ← directory_loop indexed ds
  ok (optional r.0 rest.0, optional r.1 rest.1)

abbrev pub by_issue_id : PlanIssue → PlanIssue → Bool
by_issue_id a b = str_leb a.issue_id b.issue_id

abbrev pub by_action_id : PlannedAction → PlannedAction → Bool
by_action_id a b = str_leb a.action_id b.action_id

abbrev pub resource_ids : List DesiredDirectory → List String
resource_ids = map (λ d. d.resource_id)

-- The plan at the end of the function: a blocking issue suppresses every candidate action.
abbrev pub assembled : Configuration → List PlannedAction → List PlanIssue → ChangePlan
assembled config candidates issues =
    let sorted_issues = sort_by by_issue_id issues in
    record {
      lifecycle_mode = config.deployment.lifecycle_mode;
      actions = if any issue_blocking sorted_issues then [] else sort_by by_action_id candidates;
      issues = sorted_issues;
      schema_version = 1;
    }

-- The function behind its first step, which finds the desired directories.
unfoldable pub build_from :
    Configuration → PlanningFacts → List DesiredDirectory → Checked ChangePlan
build_from config facts ds = do
  lifecycle ← lifecycle_issues config facts
  ix ← index_facts facts.resources (resource_ids ds)
  found ← directory_loop ix.0 ds
  change_plan (assembled config found.0 (lifecycle ++ (ix.1 ++ found.1)))

unfoldable pub build_change_plan : Configuration → PlanningFacts → Checked ChangePlan
build_change_plan config facts = do ds ← desired_directories config; build_from config facts ds
