-- ===== src/Identity/Tests.antt =====
-- A plan of the identity phase on a prepared host, and instances of its theorems.
use kitdev_sandboxes.Base.{
  List, map, ℕ, ◌≡◌, refl, String, str_eq, true, false, Option, none, some, [], ◌∷◌, leb, ◌+◌, ◌-◌,
  arith, All, length, if◌then◌else◌,
}
use kitdev_sandboxes.Base.Dict.{lookup, insert, contains}
use kitdev_sandboxes.Base.Errors.{ok}
use kitdev_sandboxes.Base.Sort.{insert_by, sort_by}
use kitdev_sandboxes.Base.Strings.{str_mem, str_leb, codes_leb}
use kitdev_sandboxes.Checks.Patterns.{utf8_size}
use kitdev_sandboxes.Config.{Configuration, LifecycleMode}
use kitdev_sandboxes.Config.Sample.{config}
use kitdev_sandboxes.Preflight.Checks.{HostFacts}
use kitdev_sandboxes.Identity.Types.{
  IdentityAllocation, IdentityIssue, service_names, FactStatus, fact_ok, fact_absent,
  IdentityOrigin, local, no_origin, verified, AccountFact, GroupFact, IdentityFacts,
  IdentityPrerequisites, IdentityPlan,
}
use kitdev_sandboxes.Identity.Inputs.{
  bounded_text, account_valid, group_valid, path_valid, runtime_inputs_valid,
}
use kitdev_sandboxes.Identity.Reuse.{IsReserved, manifest_mapping-IsReserved}
use kitdev_sandboxes.Identity.Mapping.{
  entries_invalid, entry_invalid, ordered, allocate_from, allocate, find_allocation,
  manifest_mapping,
}
use kitdev_sandboxes.Identity.Services.{
  platform_issues, prerequisite_issues, index_named, service_matches, service_issues,
  operator_is_local, operator_has_sudo, operator_issues, kvm_is_local, place_issues,
}
use kitdev_sandboxes.Identity.Actions.{
  decimal_from, zip_allocations, service_actions, lxd_action, build_actions,
}
use kitdev_sandboxes.Identity.Build.{
  HashInput, union, first_free, allocations_of, services_loop, early_issues, finish,
  build_identity_plan,
}
use kitdev_sandboxes.Identity.Allocation.{free, take, allocate-first}
use kitdev_sandboxes.Identity.Laws.{
  IsVacant, build_identity_plan-blocking, build_identity_plan-IsVacant,
}

abbrev production : Configuration
production = record config {
  deployment = record (config.deployment) { lifecycle_mode = LifecycleMode.production };
  identity = record { operator = some "admin" };
}

abbrev host : HostFacts
host = record {
  os_id = some "ubuntu";
  os_name = some "Ubuntu";
  os_version_id = some "26.04";
  architecture = some "x86_64";
  pid1_comm = some "systemd";
  cgroup_v2 = some true;
  cpu_virtualization = some "vmx";
  kvm_device_exists = true;
  kvm_device_is_character = true;
  kvm_device_accessible = true;
  nested_guest_support = none;
}

abbrev no_account : String → AccountFact
no_account name = record {
  name = name;
  status = fact_absent;
  origin = no_origin;
  uid = none;
  gid = none;
  home = none;
  shell = none;
  supplementary_gids = [];
}

abbrev group : String → FactStatus → IdentityOrigin → Option ℕ → GroupFact
group name status origin gid = record {
  name = name;
  status = status;
  origin = origin;
  gid = gid;
  members = [];
}

abbrev facts : IdentityFacts
facts = record {
  accounts =
      no_account "kitdev-e2b"
      ∷ no_account "kitdev-proxy"
      ∷ no_account "kitdev-worker"
      ∷ record {
        name = "admin";
        status = fact_ok;
        origin = local;
        uid = some 1000;
        gid = some 1000;
        home = some "/home/admin";
        shell = some "/bin/bash";
        supplementary_gids = 27 ∷ 101 ∷ [];
      }
      ∷ [];
  groups =
      group "kitdev-e2b" fact_absent no_origin none
      ∷ group "kitdev-proxy" fact_absent no_origin none
      ∷ group "kitdev-worker" fact_absent no_origin none
      ∷ group "kvm" fact_ok local (some 993)
      ∷ group "sudo" fact_ok local (some 27)
      ∷ group "lxd" fact_ok local (some 101)
      ∷ [];
  occupied_uids = 1000 ∷ 61000 ∷ [];
  occupied_gids = 1000 ∷ [];
  allocation_range = record {
    status = fact_ok;
    uid_min = some 61000;
    uid_max = some 61999;
    gid_min = some 61000;
    gid_max = some 61999;
  };
  nologin = record { path = "/usr/sbin/nologin"; status = fact_ok; kind = some "regular" };
  nonexistent = record { path = "/nonexistent"; status = fact_absent; kind = none };
  lxd = record { non_use = verified; reason = "absent" };
}

abbrev prerequisites : IdentityPrerequisites
prerequisites = record {
  host_key = verified;
  recovery = verified;
  second_session = verified;
  sudo_policy = verified;
  operator_ssh_key = verified;
  bootstrap = verified;
  journal = verified;
}

abbrev no_hash : HashInput → String
no_hash h = "sha256:"

abbrev plan : IdentityPlan
plan = record {
  lifecycle_mode = LifecycleMode.production;
  blocking = false;
  allocations =
      record { name = "kitdev-e2b"; uid = 61001; gid = 61000 }
      ∷ record { name = "kitdev-proxy"; uid = 61002; gid = 61001 }
      ∷ record { name = "kitdev-worker"; uid = 61003; gid = 61002 }
      ∷ [];
  actions =
      record {
        action_id = "identity.group.kitdev-e2b";
        category = "account_group";
        target = "kitdev-e2b";
        desired_state = "system group gid=61000; manifest-mapping=kitdev-e2b:61001:61000";
        privilege = "root";
        rollback = "restore prior manifest state from write-ahead journal";
      }
      ∷ record {
        action_id = "identity.group.kitdev-proxy";
        category = "account_group";
        target = "kitdev-proxy";
        desired_state = "system group gid=61001; manifest-mapping=kitdev-proxy:61002:61001";
        privilege = "root";
        rollback = "restore prior manifest state from write-ahead journal";
      }
      ∷ record {
        action_id = "identity.group.kitdev-worker";
        category = "account_group";
        target = "kitdev-worker";
        desired_state = "system group gid=61002; manifest-mapping=kitdev-worker:61003:61002";
        privilege = "root";
        rollback = "restore prior manifest state from write-ahead journal";
      }
      ∷ record {
        action_id = "identity.operator.lxd";
        category = "group_membership";
        target = "configured-operator";
        desired_state = "absent from lxd; retained in sudo";
        privilege = "root";
        rollback = "restore prior membership from write-ahead journal";
      }
      ∷ record {
        action_id = "identity.user.kitdev-e2b";
        category = "account";
        target = "kitdev-e2b";
        desired_state =
            "locked nologin uid=61001 gid=61000; supplementary=none; manifest-mapping=kitdev-e2b:61001:61000";
        privilege = "root";
        rollback = "restore prior manifest state from write-ahead journal";
      }
      ∷ record {
        action_id = "identity.user.kitdev-proxy";
        category = "account";
        target = "kitdev-proxy";
        desired_state =
            "locked nologin uid=61002 gid=61001; supplementary=none; manifest-mapping=kitdev-proxy:61002:61001";
        privilege = "root";
        rollback = "restore prior manifest state from write-ahead journal";
      }
      ∷ record {
        action_id = "identity.user.kitdev-worker";
        category = "account";
        target = "kitdev-worker";
        desired_state =
            "locked nologin uid=61003 gid=61002; supplementary=kvm; manifest-mapping=kitdev-worker:61003:61002";
        privilege = "root";
        rollback = "restore prior manifest state from write-ahead journal";
      }
      ∷ [];
  issues = [];
  plan_hash = "sha256:";
}

build_prepared : build_identity_plan no_hash production host facts prerequisites none ≡ ok plan
unfolding build_identity_plan runtime_inputs_valid account_valid group_valid path_valid bounded_text
    utf8_size str_mem str_eq index_named contains insert lookup manifest_mapping allocations_of
    first_free allocate allocate_from zip_allocations early_issues platform_issues
    prerequisite_issues union services_loop service_issues service_matches find_allocation
    operator_issues operator_is_local operator_has_sudo place_issues kvm_is_local finish
    build_actions service_actions lxd_action decimal_from sort_by insert_by str_leb codes_leb
build_prepared = refl

build_identity_plan-IsVacant_example : All (IsVacant facts) plan.allocations
build_identity_plan-IsVacant_example =
    build_identity_plan-IsVacant no_hash production host facts prerequisites plan build_prepared

-- The same host without an operator in the configuration.
abbrev refused : IdentityPlan
refused = record {
  lifecycle_mode = LifecycleMode.production;
  blocking = true;
  allocations =
      record { name = "kitdev-e2b"; uid = 61001; gid = 61000 }
      ∷ record { name = "kitdev-proxy"; uid = 61002; gid = 61001 }
      ∷ record { name = "kitdev-worker"; uid = 61003; gid = 61002 }
      ∷ [];
  actions = [];
  issues =
      record {
        issue_id = "identity.operator.configured";
        code = "unknown";
        explanation = "An explicit non-root operator must be configured.";
      }
      ∷ [];
  plan_hash = "sha256:";
}

build_refused :
    build_identity_plan no_hash
      (record production { identity = record { operator = none } })
      host
      facts
      prerequisites
      none
    ≡ ok refused
unfolding build_identity_plan runtime_inputs_valid account_valid group_valid path_valid bounded_text
    utf8_size str_mem str_eq index_named contains insert lookup manifest_mapping allocations_of
    first_free allocate allocate_from zip_allocations early_issues platform_issues
    prerequisite_issues union services_loop service_issues service_matches find_allocation
    operator_issues operator_is_local operator_has_sudo place_issues kvm_is_local finish
    build_actions service_actions lxd_action decimal_from sort_by insert_by str_leb codes_leb
build_refused = refl

build_identity_plan-blocking_example : (refused.blocking ≡ true) × (refused.actions ≡ [])
build_identity_plan-blocking_example =
    build_identity_plan-blocking no_hash
      (record production { identity = record { operator = none } }) host facts prerequisites none
      refused build_refused refl

allocate-first_example : allocate 61000 61002 (61000 ∷ []) 2 ≡ (
    if leb 2 (length (free (61002 + 1 - 61000) 61000 (61000 ∷ [])))
    then some (take 2 (free (61002 + 1 - 61000) 61000 (61000 ∷ [])))
    else none)
allocate-first_example = allocate-first 61000 61002 (61000 ∷ []) 2 (omega arith)

abbrev no_issue_left : Option IdentityIssue
no_issue_left = none

abbrev manifest : List IdentityAllocation
manifest =
    record { name = "kitdev-worker"; uid = 61009; gid = 61009 }
    ∷ record { name = "kitdev-e2b"; uid = 61001; gid = 61001 }
    ∷ record { name = "kitdev-proxy"; uid = 61005; gid = 61004 }
    ∷ []

abbrev reused : List IdentityAllocation
reused =
    record { name = "kitdev-e2b"; uid = 61001; gid = 61001 }
    ∷ record { name = "kitdev-proxy"; uid = 61005; gid = 61004 }
    ∷ record { name = "kitdev-worker"; uid = 61009; gid = 61009 }
    ∷ []

manifest_mapping-reused : manifest_mapping (some manifest) ≡ (some reused, none)
unfolding manifest_mapping entries_invalid entry_invalid ordered find_allocation str_eq str_mem
manifest_mapping-reused = refl

manifest_mapping-IsReserved_example :
    All IsReserved reused × (map (λ a. a.name) reused ≡ service_names) × (no_issue_left ≡ none)
manifest_mapping-IsReserved_example =
    manifest_mapping-IsReserved manifest reused no_issue_left manifest_mapping-reused
