-- ===== src/Preflight/Tests.antt =====
-- Reports on a prepared host, and the theorem on releases at that host.
use kitdev_sandboxes.Base.{◌≡◌, refl, str_eq, true, false, none, some, List, [], any}
use kitdev_sandboxes.Base.Errors.{ok, err}
use kitdev_sandboxes.Config.{LifecycleMode}
use kitdev_sandboxes.Config.Sample.{config}
use kitdev_sandboxes.Planning.Types.{PlanningFacts}
use kitdev_sandboxes.Planning.Checked.{plan_issue, require_text, decoded_twice}
use kitdev_sandboxes.Checks.Patterns.{
  utf8_size, contains_secret, contains_pem, is_stable_id, codes_eq,
}
use kitdev_sandboxes.Checks.Unquote.{unquote}
use kitdev_sandboxes.Base.{All}
use kitdev_sandboxes.Planning.Types.{issue_blocking, PlanIssue}
use kitdev_sandboxes.Planning.Lifecycle.{lifecycle_issues, lifecycle_of, release_issues}
use kitdev_sandboxes.Preflight.Checks.{HostFacts, exit_code, is_bad, full_check}
use kitdev_sandboxes.Preflight.Evaluate.{
  release_check, architecture_check, systemd_check, cgroups_check, cpu_check, kvm_check,
  nested_check, evaluate_host, build_doctor_report,
}
use kitdev_sandboxes.Preflight.Laws.{
  IsConsistent, evaluate_host-IsConsistent, exit_code_lem, release_check-lifecycle_issues,
}

abbrev host : HostFacts
host = record {
  os_id = some "ubuntu";
  os_name = some "Ubuntu";
  os_version_id = some "25.04";
  architecture = some "x86_64";
  pid1_comm = some "systemd";
  cgroup_v2 = some true;
  cpu_virtualization = some "vmx";
  kvm_device_exists = true;
  kvm_device_is_character = true;
  kvm_device_accessible = true;
  nested_guest_support = none;
}

-- Nothing failed, but the scope is not covered yet.
exit_code_example : exit_code (build_doctor_report host LifecycleMode.development true "now") ≡ 5
unfolding evaluate_host release_check architecture_check systemd_check cgroups_check cpu_check
    kvm_check nested_check full_check str_eq
exit_code_example = exit_code_lem host LifecycleMode.development true "now"

-- The same host in production mode.
exit_code-production : exit_code (build_doctor_report host LifecycleMode.production true "now") ≡ 3
unfolding exit_code build_doctor_report evaluate_host release_check architecture_check systemd_check
    cgroups_check cpu_check kvm_check nested_check full_check str_eq
exit_code-production = refl

evaluate_host-IsConsistent_example : All IsConsistent (evaluate_host host LifecycleMode.production)
evaluate_host-IsConsistent_example = evaluate_host-IsConsistent host LifecycleMode.production

-- An old release.
facts : PlanningFacts
facts = record {
  os_id = some "ubuntu";
  os_version_id = some "24.04";
  resources = [];
  schema_version = 1;
}

issues : List PlanIssue
unfolding lifecycle_issues plan_issue require_text decoded_twice utf8_size contains_secret
    contains_pem is_stable_id codes_eq unquote lifecycle_of release_issues str_eq facts
issues = elim (lifecycle_issues config facts) [ ok is ↦ is | err _ ↦ [] ]

issues_eq : lifecycle_issues config facts ≡ ok issues
unfolding issues
issues_eq = refl

release_check-lifecycle_issues_example :
    any issue_blocking issues
    ≡ is_bad (release_check (some "ubuntu") (some "24.04") false "none").status
unfolding facts
release_check-lifecycle_issues_example =
    release_check-lifecycle_issues config facts "none" issues_eq
