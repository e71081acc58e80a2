-- ===== src/Planning/Tests.antt =====
-- The planner run on a small host, and its theorems at that host.
use kitdev_sandboxes.Base.{
  ◌≡◌, refl, map, none, String, true, false, some, List, [], ◌∷◌, any, All, str_eq, length, ◌≢◌,
  ◌≤◌,
}
use kitdev_sandboxes.Base.Errors.{Result, ok, err, Exception}
use kitdev_sandboxes.Base.Strings.{str_leb, str_mem, codes}
use kitdev_sandboxes.Base.Sort.{sort_by, IsSorted}
use kitdev_sandboxes.Base.Dict.{Dict, lookup, contains, insert, erase}
use kitdev_sandboxes.Checks.Patterns.{
  is_control, utf8_size, contains_secret, contains_pem, is_stable_id, codes_eq,
}
use kitdev_sandboxes.Checks.Unquote.{unquote}
use kitdev_sandboxes.Config.{LifecycleMode}
use kitdev_sandboxes.Config.Sample.{config}
use kitdev_sandboxes.Planning.Types.{
  ObservedState, Ownership, Confidence, ResourceFact, PlanningFacts, ChangePlan, PlanIssue,
  DesiredDirectory, plan_blocking,
}
use kitdev_sandboxes.Planning.Checked.{
  require_text, decoded_twice, require_schema_version, rollback, planned_action, plan_issue,
  change_plan, require_text_safe,
}
use kitdev_sandboxes.Planning.Paths.{
  posix_text, relative_parts, is_owned_part, require_owned_directory_path, desired_directories,
  directories,
}
use kitdev_sandboxes.Planning.Lifecycle.{lifecycle_issues}
use kitdev_sandboxes.Planning.Facts.{
  index_fact, index_loop, drop_all, duplicate_issues, index_facts,
}
use kitdev_sandboxes.Planning.Directory.{create_action, low_confidence, by_state, directory_result}
use kitdev_sandboxes.Planning.Build.{
  directory_loop, build_from, build_change_plan, by_issue_id, by_action_id,
}
use kitdev_sandboxes.Planning.Loop.{IsCalled, IsCovered}
use kitdev_sandboxes.Planning.Safety.{
  build_actions-IsCalled, build_blocking, build-IsSorted, build_unblocked-IsCovered,
}
use kitdev_sandboxes.Planning.Built.{observed}
use kitdev_sandboxes.Planning.Outcome.{Judged, directory_result-Judged}
use kitdev_sandboxes.Planning.Observed.{observations, sole, lookup-index_facts}

abbrev present : String → String → ResourceFact
present id target = record {
  resource_id = id;
  target = target;
  state = ObservedState.present;
  ownership = Ownership.project;
  confidence = Confidence.high;
}

abbrev absent : String → String → ResourceFact
absent id target = record {
  resource_id = id;
  target = target;
  state = ObservedState.absent;
  ownership = Ownership.unowned;
  confidence = Confidence.high;
}

abbrev facts_with : List ResourceFact → PlanningFacts
facts_with more = record {
  os_id = some "ubuntu";
  os_version_id = some "25.04";
  resources =
      absent "directory.state" "/var/lib/kitdev-sandboxes/a.b"
      ∷ present "directory.config" "/etc/kitdev-sandboxes"
      ∷ present "directory.install" "/opt/kitdev-sandboxes"
      ∷ absent "directory.logs" "/var/log/kitdev-sandboxes"
      ∷ present "directory.runtime" "/run/kitdev-sandboxes"
      ∷ more;
  schema_version = 1;
}

built : PlanningFacts → Result Exception ChangePlan
unfolding build_change_plan build_from directory_loop directory_result by_state low_confidence
    create_action index_facts duplicate_issues drop_all index_loop index_fact lifecycle_issues
    desired_directories require_owned_directory_path is_owned_part relative_parts posix_text
    change_plan plan_issue planned_action rollback require_schema_version decoded_twice require_text
    lookup contains insert erase sort_by str_leb str_mem str_eq codes_eq unquote is_stable_id
    contains_pem contains_secret utf8_size
built facts = build_change_plan config facts

-- The plan, or an empty one.
plan_of : PlanningFacts → ChangePlan
unfolding built
plan_of facts = elim (built facts) [
  | ok p ↦ p
  | err _ ↦ record {
    lifecycle_mode = LifecycleMode.production;
    actions = [];
    issues = [];
    schema_version = 0;
  }
]

-- Two directories are absent; the release is near its end.
host : PlanningFacts
host = facts_with []

-- One directory has been observed twice.
twice_seen : PlanningFacts
twice_seen = facts_with (present "directory.logs" "/var/log/kitdev-sandboxes" ∷ [])

host_plan : build_change_plan config host ≡ ok (plan_of host)
unfolding built plan_of host
host_plan = refl

twice_seen_plan : build_change_plan config twice_seen ≡ ok (plan_of twice_seen)
unfolding built plan_of twice_seen
twice_seen_plan = refl

two_actions : (length (plan_of host).actions ≡ 2) × (length (plan_of host).issues ≡ 1)
unfolding plan_of host
two_actions = (refl, refl)

unblocked : plan_blocking (plan_of host) ≡ false
unfolding plan_of host
unblocked = refl

blocked : plan_blocking (plan_of twice_seen) ≡ true
unfolding plan_of twice_seen
blocked = refl

build_actions-IsCalled_example :
    All (IsCalled (observed host) (directories config)) (plan_of host).actions
build_actions-IsCalled_example = build_actions-IsCalled config host host_plan

build_unblocked-IsCovered_example :
    All (IsCovered (observed host) (plan_of host).actions) (directories config)
build_unblocked-IsCovered_example = build_unblocked-IsCovered config host host_plan unblocked

build_blocking_example : (plan_of twice_seen).actions ≡ []
build_blocking_example = build_blocking config twice_seen twice_seen_plan blocked

build-IsSorted_example :
    IsSorted by_issue_id (plan_of host).issues × IsSorted by_action_id (plan_of host).actions
build-IsSorted_example = build-IsSorted config host host_plan

require_text_safe_example :
    (any is_control (codes "/a%2fb") ≡ false)
    × (any is_control (decoded_twice (codes "/a%2fb")) ≡ false)
    × (codes "/a%2fb" ≢ [])
    × (utf8_size (codes "/a%2fb") ≤ 4096)
    × (contains_secret (decoded_twice (codes "/a%2fb")) ≡ false)
unfolding built
require_text_safe_example = require_text_safe "target" "/a%2fb" 4096 false refl

abbrev logs : DesiredDirectory
logs = record {
  resource_id = "directory.logs";
  path = "/var/log/kitdev-sandboxes";
  purpose = "logs";
}

judged_logs :
    directory_result logs (some (present "directory.logs" "/var/log/kitdev-sandboxes"))
    ≡ ok (none, none)
unfolding directory_result by_state str_eq
judged_logs = refl

directory_result-Judged_example :
    Judged logs (some (present "directory.logs" "/var/log/kitdev-sandboxes")) (none, none)
directory_result-Judged_example =
    directory_result-Judged logs (some (present "directory.logs" "/var/log/kitdev-sandboxes"))
      judged_logs

abbrev two_facts : List ResourceFact
two_facts =
    present "directory.logs" "/var/log/kitdev-sandboxes"
    ∷ present "directory.config" "/etc/kitdev-sandboxes"
    ∷ []

abbrev two_indexed : Dict ResourceFact × List PlanIssue
two_indexed = (map (λ f. (f.resource_id, f)) two_facts, [])

index_two : index_facts two_facts ("directory.config" ∷ "directory.logs" ∷ []) ≡ ok two_indexed
unfolding index_facts duplicate_issues drop_all index_loop index_fact lookup contains insert erase
    sort_by str_leb str_mem str_eq
index_two = refl

wanted_logs : str_mem "directory.logs" ("directory.config" ∷ "directory.logs" ∷ []) ≡ true
unfolding str_mem str_eq
wanted_logs = refl

lookup-index_facts_example :
    lookup "directory.logs" two_indexed.0 ≡ sole (observations "directory.logs" two_facts)
lookup-index_facts_example =
    lookup-index_facts two_facts ("directory.config" ∷ "directory.logs" ∷ []) "directory.logs"
      wanted_logs index_two
