-- ===== src/Preflight/Evaluate.antt =====
-- `evaluate_host`: the checks of the first slice, from the facts and the lifecycle mode.
use kitdev_sandboxes.Base.{
  String, ◌<>◌, str_eq, Bool, true, false, not, ◌&&◌, ◌||◌, Option, none, some, List, [], ◌∷◌,
  if◌then◌else◌,
}
use kitdev_sandboxes.Config.{LifecycleMode, is_production}
use kitdev_sandboxes.Preflight.Checks.{
  CheckStatus, HostFacts, CheckResult, DoctorReport, full_check, safe_text, upper_text,
}

-- `_check` with neither remediation nor evidence.
abbrev pub plain : String → CheckStatus → String → CheckResult
plain id status text = full_check id status text none false none none

unfoldable pub release_check : Option String → Option String → Bool → String → CheckResult
release_check (some os_id) (some release) production evidence =
    if not (str_eq os_id "ubuntu") || not (str_eq release "25.04" || str_eq release "26.04")
    then full_check "platform.release_lifecycle" CheckStatus.fail
        "Only Ubuntu 26.04, or Ubuntu 25.04 in development/migration mode, is supported."
        (some "Use a supported Ubuntu release and lifecycle mode.") false none (some evidence)
    else if str_eq release "25.04" && production
    then full_check "platform.release_lifecycle" CheckStatus.fail
        "Ubuntu 25.04 is end-of-life and cannot be used in production mode."
        (some "Install Ubuntu 26.04 or select development/migration mode.") false none
        (some evidence)
    else if str_eq release "25.04"
    then full_check "platform.release_lifecycle" CheckStatus.warn
        "Ubuntu 25.04 is end-of-life and is eligible only for development or migration."
        (some "Move production workloads to Ubuntu 26.04.") false none (some evidence)
    else full_check "platform.release_lifecycle" CheckStatus.pass
        "Ubuntu 26.04 is eligible for the selected lifecycle mode." none false none (some evidence)
release_check _ _ production evidence =
    full_check "platform.release_lifecycle" CheckStatus.unknown
      "The operating-system release could not be identified."
      (some "Provide a readable /etc/os-release on the target host.") false none (some evidence)

unfoldable pub architecture_check : Option String → CheckResult
architecture_check none =
    plain "platform.architecture" CheckStatus.unknown "Architecture is unknown."
architecture_check (some a) =
    if not (str_eq a "x86_64")
    then plain "platform.architecture" CheckStatus.fail
        ("Architecture " <> (safe_text (some a) <> " is unsupported; x86_64 is required."))
    else plain "platform.architecture" CheckStatus.pass "Architecture is x86_64."

unfoldable pub systemd_check : Option String → CheckResult
systemd_check none = plain "platform.systemd" CheckStatus.unknown "PID 1 could not be identified."
systemd_check (some comm) =
    if not (str_eq comm "systemd")
    then full_check "platform.systemd" CheckStatus.fail "PID 1 is not systemd." none false none
        (some comm)
    else plain "platform.systemd" CheckStatus.pass "PID 1 is systemd."

unfoldable pub cgroups_check : Option Bool → CheckResult
cgroups_check none = plain "platform.cgroups_v2" CheckStatus.unknown "Cgroup mode is unknown."
cgroups_check (some false) =
    plain "platform.cgroups_v2" CheckStatus.fail "Cgroups v2 is not active."
cgroups_check (some true) = plain "platform.cgroups_v2" CheckStatus.pass "Cgroups v2 is active."

unfoldable pub cpu_check : Option String → CheckResult
cpu_check none =
    plain "virtualization.cpu" CheckStatus.unknown "CPU virtualization flags are unknown."
cpu_check (some v) =
    if str_eq v "none"
    then plain "virtualization.cpu" CheckStatus.fail "Neither Intel VMX nor AMD SVM is exposed."
    else plain "virtualization.cpu" CheckStatus.pass
        ("CPU exposes " <> (upper_text (safe_text (some v)) <> " virtualization."))

unfoldable pub kvm_check : Bool → Bool → Bool → CheckResult
kvm_check false is_character accessible =
    full_check "virtualization.kvm_device" CheckStatus.fail
      "/dev/kvm is absent; doctor does not load KVM modules."
      (some "Enable KVM in firmware and prepare the host outside read-only doctor.") false none none
kvm_check true false accessible =
    full_check "virtualization.kvm_device" CheckStatus.fail
      "/dev/kvm exists but is not a character device."
      (some "Remove the conflicting path and expose the kernel KVM device.") false none none
kvm_check true true false =
    full_check "virtualization.kvm_device" CheckStatus.warn
      "/dev/kvm exists but is not accessible to the current identity."
      (some "Grant the future worker identity explicit KVM access during approved preparation.")
      true none none
kvm_check true true true =
    plain "virtualization.kvm_device" CheckStatus.pass "/dev/kvm is accessible."

unfoldable pub nested_check : Option Bool → CheckResult
nested_check (some true) =
    plain "virtualization.nested_guest_support" CheckStatus.pass
      "The KVM module allows nested guests; this does not identify the host as nested."
nested_check (some false) =
    plain "virtualization.nested_guest_support" CheckStatus.skipped
      "Nested-guest support is disabled and is not required for bare-metal operation."
nested_check none =
    plain "virtualization.nested_guest_support" CheckStatus.skipped
      "The KVM nested-guest parameter was absent or had an unrecognized value."

-- The checks that a later slice replaces.
abbrev pub scope_checks : List CheckResult
scope_checks =
    plain "scope.kernel_facilities" CheckStatus.unknown
      "NBD, huge pages, TUN/TAP, namespaces, and mount facilities are not yet collected."
    ∷ plain "scope.capacity" CheckStatus.unknown
        "Profile capacity and filesystem headroom checks are not yet implemented."
    ∷ plain "scope.services" CheckStatus.unknown
        "Host package, service, and partial-install checks are not yet implemented."
    ∷ plain "scope.network_conflicts" CheckStatus.unknown
        "Listener, route, subnet, DNS, and firewall conflict checks are not yet implemented."
    ∷ plain "scope.security_posture" CheckStatus.unknown
        "The required host security-posture checks are not yet implemented."
    ∷ plain "scope.firecracker_probe" CheckStatus.skipped
        "Booting a Firecracker microVM is intentionally excluded from read-only doctor."
    ∷ []

-- The evidence of the release check.
abbrev pub os_evidence : HostFacts → String
os_evidence facts =
    "ID=" <> (safe_text facts.os_id <> (" VERSION_ID=" <> safe_text facts.os_version_id))

unfoldable pub evaluate_host : HostFacts → LifecycleMode → List CheckResult
evaluate_host facts mode =
    release_check facts.os_id facts.os_version_id (is_production mode) (os_evidence facts)
    ∷ architecture_check facts.architecture
    ∷ systemd_check facts.pid1_comm
    ∷ cgroups_check facts.cgroup_v2
    ∷ cpu_check facts.cpu_virtualization
    ∷ kvm_check facts.kvm_device_exists facts.kvm_device_is_character facts.kvm_device_accessible
    ∷ nested_check facts.nested_guest_support
    ∷ scope_checks

-- `build_doctor_report`, its time given.
unfoldable pub build_doctor_report : HostFacts → LifecycleMode → Bool → String → DoctorReport
build_doctor_report facts mode dry_run timestamp = record {
  generated_at = timestamp;
  lifecycle_mode = mode;
  dry_run = dry_run;
  facts = facts;
  checks = evaluate_host facts mode;
}
