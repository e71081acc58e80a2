-- ===== src/Planning/Lifecycle.antt =====
-- `_issue` and `_lifecycle_issues`: which releases can receive a plan.
use kitdev_sandboxes.Base.{
  String, str_eq, Bool, not, ◌&&◌, ◌||◌, Option, some, List, [], ◌∷◌, if◌then◌else◌,
}
use kitdev_sandboxes.Base.Errors.{ok, ◌>>=◌}
use kitdev_sandboxes.Config.{Configuration, is_production}
use kitdev_sandboxes.Planning.Types.{IssueCode, IssueSeverity, PlanningFacts, PlanIssue}
use kitdev_sandboxes.Planning.Checked.{Checked, plan_issue}

abbrev pub severe_issue :
    IssueSeverity → String → IssueCode → String → String → String → Checked PlanIssue
severe_issue severity issue_id code fact_id explanation remediation = plan_issue (record {
  issue_id = issue_id;
  code = code;
  severity = severity;
  fact_id = fact_id;
  explanation = explanation;
  remediation = remediation;
})

-- `_issue` at its default severity.
abbrev pub issue : String → IssueCode → String → String → String → Checked PlanIssue
issue = severe_issue IssueSeverity.blocking

abbrev pub only : Checked PlanIssue → Checked (List PlanIssue)
only m = do i ← m; ok (i ∷ [])

unfoldable pub release_issues : Bool → String → String → Checked (List PlanIssue)
release_issues production os_id release =
    if not (str_eq os_id "ubuntu") || not (str_eq release "25.04" || str_eq release "26.04")
    then only (
        issue "platform.release.unsupported" IssueCode.unsupported "platform.release"
          "The operating-system release is outside the supported host matrix."
          "Use Ubuntu 26.04, or Ubuntu 25.04 only for development or migration.")
    else if str_eq release "25.04" && production
    then only (
        issue "platform.release.ubuntu_25_04.production" IssueCode.lifecycle "platform.release"
          "Ubuntu 25.04 is end-of-life and cannot receive a production change plan."
          "Use Ubuntu 26.04 for production or explicitly select development/migration.")
    else if str_eq release "25.04"
    then only (
        severe_issue IssueSeverity.warning "platform.release.ubuntu_25_04.eol" IssueCode.lifecycle
          "platform.release"
          "Ubuntu 25.04 is end-of-life and is eligible only for development or migration."
          "Migrate the deployment to Ubuntu 26.04 before production use.")
    else ok []

unfoldable pub unknown_release : Checked (List PlanIssue)
unknown_release = only (
    issue "platform.release.unknown" IssueCode.unknown "platform.release"
      "The operating-system release is unknown, so no host changes can be planned."
      "Collect a normalized Ubuntu release fact and repeat the dry-run.")

unfoldable pub lifecycle_of : Bool → Option String → Option String → Checked (List PlanIssue)
unfolding release_issues unknown_release
lifecycle_of production (some os_id) (some release) = release_issues production os_id release
lifecycle_of production _ _ = unknown_release

unfoldable pub lifecycle_issues : Configuration → PlanningFacts → Checked (List PlanIssue)
unfolding lifecycle_of
lifecycle_issues config facts =
    lifecycle_of (is_production config.deployment.lifecycle_mode) facts.os_id facts.os_version_id
