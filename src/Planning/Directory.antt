-- ===== src/Planning/Directory.antt =====
-- `_directory_result`: what one observation means for one configured directory.
use kitdev_sandboxes.Base.{◌<>◌, str_eq, Bool, true, false, not, Option, none, some, if◌then◌else◌}
use kitdev_sandboxes.Base.Errors.{ok, ◌>>=◌}
use kitdev_sandboxes.Planning.Types.{
  ActionCategory, ObservedState, state_value, Ownership, Confidence, Privilege, RestartImpact,
  RollbackStrategy, IssueCode, ResourceFact, PlannedAction, PlanIssue, DesiredDirectory,
}
use kitdev_sandboxes.Planning.Checked.{Checked, rollback, planned_action}
use kitdev_sandboxes.Planning.Lifecycle.{issue}

abbrev pub DirectoryResult : Type 0
DirectoryResult = Option PlannedAction × Option PlanIssue

abbrev pub refuse : Checked PlanIssue → Checked DirectoryResult
refuse m = do i ← m; ok (none, some i)

unfoldable pub create_action : DesiredDirectory → Checked DirectoryResult
create_action d = do
  r ← rollback (record {
    strategy = RollbackStrategy.remove_created;
    description = "Remove only when exact manifest ownership is proven and the directory is empty.";
  })
  a ← planned_action (record {
    action_id = d.resource_id <> ".create";
    category = ActionCategory.directory;
    target = d.path;
    current_state = state_value ObservedState.absent;
    desired_state = state_value ObservedState.present;
    reason = "Create the dedicated directory for " <> d.purpose <> ".";
    privilege = Privilege.root;
    restart_impact = RestartImpact.none;
    reboot_required = false;
    rollback = r;
    confidence = Confidence.high;
    ownership = Ownership.project;
  })
  ok (some a, none)

abbrev pub is_high : Confidence → Bool
is_high Confidence.high = true
is_high _ = false

abbrev pub is_project : Ownership → Bool
is_project Ownership.project = true
is_project _ = false

abbrev pub is_unowned : Ownership → Bool
is_unowned Ownership.unowned = true
is_unowned _ = false

unfoldable pub low_confidence : DesiredDirectory → Checked DirectoryResult
low_confidence d = refuse (
    issue ("facts.confidence." <> d.resource_id) IssueCode.unknown d.resource_id
      "Directory ownership or existence was not established with high confidence."
      "Resolve symlinks, mount boundaries, and ownership markers before planning changes.")

-- The tests on a fact with the right target, by its state.
unfoldable pub by_state : DesiredDirectory → ResourceFact → ObservedState → Checked DirectoryResult
by_state d f ObservedState.unknown = refuse (
    issue ("facts.unknown." <> d.resource_id) IssueCode.unknown d.resource_id
      "The configured directory state is unknown, so creating or adopting it is unsafe."
      "Resolve the read-only collection failure and repeat the dry-run.")
by_state d f ObservedState.unsupported = refuse (
    issue ("facts.unsupported." <> d.resource_id) IssueCode.unsupported d.resource_id
      "The configured path cannot be managed as a project directory."
      "Choose a supported project-owned path or remove the conflicting filesystem object.")
by_state d f ObservedState.present =
    if not (is_high f.confidence)
    then low_confidence d
    else if is_project f.ownership
    then ok (none, none)
    else refuse (
        issue ("ownership.conflict." <> d.resource_id) IssueCode.conflict d.resource_id
          "The configured path already exists without exact project ownership."
          "Select a different project path or explicitly resolve the foreign resource.")
by_state d f ObservedState.absent =
    if not (is_high f.confidence)
    then low_confidence d
    else if not (is_unowned f.ownership)
    then refuse (
        issue ("facts.inconsistent." <> d.resource_id) IssueCode.invalid_fact d.resource_id
          "An absent directory has a contradictory ownership classification."
          "Correct the normalized observation before calculating a plan.")
    else create_action d

unfoldable pub directory_result : DesiredDirectory → Option ResourceFact → Checked DirectoryResult
directory_result d none = refuse (
    issue ("facts.missing." <> d.resource_id) IssueCode.unknown d.resource_id
      "No normalized observation exists for the configured project directory."
      "Collect the exact path type, existence, ownership, and confidence.")
directory_result d (some f) =
    if not (str_eq f.target d.path)
    then refuse (
        issue ("facts.target_mismatch." <> d.resource_id) IssueCode.invalid_fact d.resource_id
          "The normalized observation does not describe the configured resource target."
          "Collect a new observation for the exact configured path.")
    else by_state d f f.state
