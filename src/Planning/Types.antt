-- ===== src/Planning/Types.antt =====
-- The values of the planner: enumerations, observations, actions, issues and plans.
use kitdev_sandboxes.Base.{ℕ, String, Bool, true, false, Option, List, any}
use kitdev_sandboxes.Config.{LifecycleMode}

pub data ActionCategory : Type 0 where
  «package» account directory managed_file shared_file_merge kernel_module : ActionCategory
  sysctl network_firewall service compose artifact template validation : ActionCategory

pub data ObservedState : Type 0 where
  absent present unknown unsupported : ObservedState

-- `ObservedState.value`
abbrev pub state_value : ObservedState → String
state_value ObservedState.absent = "absent"
state_value ObservedState.present = "present"
state_value ObservedState.unknown = "unknown"
state_value ObservedState.unsupported = "unsupported"

pub data Ownership : Type 0 where
  project foreign shared unowned unknown : Ownership

pub data Confidence : Type 0 where
  unknown low medium high : Confidence

pub data Privilege : Type 0 where
  unprivileged root : Privilege

pub data RestartImpact : Type 0 where
  none service compose host : RestartImpact

pub data RollbackStrategy : Type 0 where
  remove_created restore_backup revert_value disable manual not_applicable : RollbackStrategy

pub data IssueCode : Type 0 where
  conflict invalid_fact lifecycle unknown unsupported : IssueCode

pub data IssueSeverity : Type 0 where
  warning blocking : IssueSeverity

pub record ResourceFact : Type 0 where
  pub resource_id : String
  pub target : String
  pub state : ObservedState
  pub ownership : Ownership
  pub confidence : Confidence

pub record PlanningFacts : Type 0 where
  pub os_id : Option String
  pub os_version_id : Option String
  pub resources : List ResourceFact
  pub schema_version : ℕ

pub record Rollback : Type 0 where
  pub strategy : RollbackStrategy
  pub description : String

pub record PlannedAction : Type 0 where
  pub action_id : String
  pub category : ActionCategory
  pub target : String
  pub current_state : String
  pub desired_state : String
  pub reason : String
  pub privilege : Privilege
  pub restart_impact : RestartImpact
  pub reboot_required : Bool
  pub rollback : Rollback
  pub confidence : Confidence
  pub ownership : Ownership

pub record PlanIssue : Type 0 where
  pub issue_id : String
  pub code : IssueCode
  pub severity : IssueSeverity
  pub fact_id : String
  pub explanation : String
  pub remediation : String

abbrev pub is_blocking : IssueSeverity → Bool
is_blocking IssueSeverity.warning = false
is_blocking IssueSeverity.blocking = true

-- `PlanIssue.blocking`
abbrev pub issue_blocking : PlanIssue → Bool
issue_blocking i = is_blocking i.severity

pub record ChangePlan : Type 0 where
  pub lifecycle_mode : LifecycleMode
  pub actions : List PlannedAction
  pub issues : List PlanIssue
  pub schema_version : ℕ

-- `ChangePlan.blocking`
abbrev pub plan_blocking : ChangePlan → Bool
plan_blocking p = any issue_blocking p.issues

pub record DesiredDirectory : Type 0 where
  pub resource_id : String
  pub path : String
  pub purpose : String
