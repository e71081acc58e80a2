-- ===== src/Planning/Checked.antt =====
-- The checks that the planner's constructors make of their fields (`__post_init__`). A field's
-- Python type is its type here, so only the checks of values remain.
use kitdev_sandboxes.Base.{
  ℕ, ◌≡◌, ◌≢◌, ◌≤◌, String, ◌<>◌, Bool, true, false, not, ◌&&◌, ◌||◌, Option, none, some, List, [],
  ltb, ◌==◌, if◌then◌else◌, any, length, arith,
}
use kitdev_sandboxes.Base.Errors.{Result, ok, Exception, value_error, ◌>>◌, raise_if}
use kitdev_sandboxes.Base.Strings.{codes}
use kitdev_sandboxes.Checks.Unquote.{unquote}
use kitdev_sandboxes.Checks.Patterns.{
  codes_eq, utf8_size, is_control, contains_secret, contains_pem, is_stable_id,
}
use kitdev_sandboxes.Checks.Kept.{unquote-control}
use kitdev_sandboxes.Planning.Types.{
  ResourceFact, PlanningFacts, Rollback, PlannedAction, PlanIssue, ChangePlan,
}

abbrev pub Checked : Type 0 → Type 0
Checked = Result Exception

-- The loop that decodes a text at most twice, and stops at a fixed point.
unfoldable pub decoded_twice : List ℕ → List ℕ
unfolding codes_eq unquote
decoded_twice cs =
    let once = unquote cs in
    if codes_eq once cs
    then cs
    else let twice = unquote once in if codes_eq twice once then once else twice

unfoldable pub require_text : String → String → ℕ → Bool → Checked (Unit {0})
require_text name value maximum_bytes stable_id = do
  let cs = codes value
  raise_if (length cs == 0) (value_error (name <> " must not be empty"))
  raise_if (ltb maximum_bytes (utf8_size cs))
      (value_error (name <> " exceeds its UTF-8 byte limit"))
  let decoded = decoded_twice cs
  raise_if (any is_control decoded) (value_error (name <> " contains terminal control characters"))
  raise_if (contains_secret decoded || contains_pem decoded)
      (value_error (name <> " contains secret-shaped content"))
  raise_if (stable_id && not (is_stable_id cs))
      (value_error (name <> " must be a stable lowercase identifier"))

unfoldable pub require_schema_version : String → ℕ → Checked (Unit {0})
require_schema_version name value = raise_if (not (value == 1)) (value_error (name <> " must be 1"))

abbrev pub max_id_bytes : ℕ
max_id_bytes = 128

abbrev pub max_target_bytes : ℕ
max_target_bytes = 4096

abbrev pub max_text_bytes : ℕ
max_text_bytes = 2048

abbrev pub max_resource_facts : ℕ
max_resource_facts = 1024

abbrev pub max_plan_entries : ℕ
max_plan_entries = 256

unfoldable pub resource_fact : ResourceFact → Checked ResourceFact
resource_fact f = do
  require_text "resource_id" f.resource_id max_id_bytes true
  require_text "target" f.target max_target_bytes false
  ok f

abbrev optional_text : String → Option String → ℕ → Checked (Unit {0})
optional_text name none n = ok tt
optional_text name (some value) n = require_text name value n false

unfoldable pub planning_facts : PlanningFacts → Checked PlanningFacts
planning_facts f = do
  require_schema_version "planning facts schema_version" f.schema_version
  optional_text "os_id" f.os_id 64
  optional_text "os_version_id" f.os_version_id 64
  raise_if (ltb max_resource_facts (length f.resources))
      (value_error "resources exceeds the global planning fact limit")
  ok f

unfoldable pub rollback : Rollback → Checked Rollback
rollback r = do require_text "description" r.description max_text_bytes false; ok r

unfoldable pub planned_action : PlannedAction → Checked PlannedAction
planned_action a = do
  require_text "action_id" a.action_id max_id_bytes true
  require_text "target" a.target max_target_bytes false
  require_text "current_state" a.current_state max_text_bytes false
  require_text "desired_state" a.desired_state max_text_bytes false
  require_text "reason" a.reason max_text_bytes false
  ok a

unfoldable pub plan_issue : PlanIssue → Checked PlanIssue
plan_issue i = do
  require_text "issue_id" i.issue_id max_id_bytes true
  require_text "fact_id" i.fact_id max_id_bytes true
  require_text "explanation" i.explanation max_text_bytes false
  require_text "remediation" i.remediation max_text_bytes false
  ok i

unfoldable pub change_plan : ChangePlan → Checked ChangePlan
change_plan p = do
  require_schema_version "change plan schema_version" p.schema_version
  raise_if (ltb max_plan_entries (length p.actions))
      (value_error "actions exceeds the global plan output limit")
  raise_if (ltb max_plan_entries (length p.issues))
      (value_error "issues exceeds the global plan output limit")
  ok p

decoded_twice-control :
    (cs : List ℕ) → any is_control cs ≡ true → any is_control (decoded_twice cs) ≡ true
unfolding decoded_twice
decoded_twice-control cs e = ground (arith, unquote-control cs e, unquote-control (unquote cs))

-- An accepted text holds no control character, neither as it is written nor as it is decoded, is
-- not empty, fits its limit, and its decoded form assigns no secret.
pub require_text_safe :
    (name value : String) (maximum_bytes : ℕ) (stable_id : Bool)
    → require_text name value maximum_bytes stable_id ≡ ok tt
    → (any is_control (codes value) ≡ false)
      × (any is_control (decoded_twice (codes value)) ≡ false)
      × (codes value ≢ [])
      × (utf8_size (codes value) ≤ maximum_bytes)
      × (contains_secret (decoded_twice (codes value)) ≡ false)
unfolding require_text
require_text_safe name value n s h = ground (arith, decoded_twice-control (codes value))
