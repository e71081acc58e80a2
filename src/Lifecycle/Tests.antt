-- ===== src/Lifecycle/Tests.antt =====
-- The theorems at a status line and a test operation.
use kitdev_sandboxes.Base.{
  ℕ, String, ◌≢◌, ◌≡◌, refl, Bool, true, false, [], ◌∷◌, ◌++◌, none, some, All, ◌⊎◌, str_eq,
}
use kitdev_sandboxes.Base.Errors.{ok}
use kitdev_sandboxes.Base.Strings.{codes, str_mem}
use kitdev_sandboxes.Checks.Patterns.{codes_eq}
use kitdev_sandboxes.Config.{LifecycleMode, DeploymentProfile}
use kitdev_sandboxes.Planning.Paths.{posix_root, posix_text}
use kitdev_sandboxes.Lifecycle.Status.{Codes, get_field}
use kitdev_sandboxes.Lifecycle.Run.{
  LifecycleResult, Invocation, Completed, exited, operations, fixed_environment, invocation,
  run_lifecycle, result_status,
}
use kitdev_sandboxes.Lifecycle.Laws.{Reported, Healthy, run_lifecycle-Reported, run_lifecycle-pass}
use kitdev_sandboxes.Lifecycle.Start.{IsPlain, invocation-IsPlain}

abbrev no_wide : ℕ → Bool
no_wide c = false

abbrev status_line : Codes
status_line =
    codes "status=pass orchestrator=active compose=running api=healthy proxy=healthy firecrackers=2"

abbrev script : Invocation → Completed
script i = record { returncode = exited 0; stdout = some status_line }

abbrev healthy : LifecycleResult
healthy = record {
  operation = "status";
  exit_code = 0;
  health =
      ("api", codes "healthy")
      ∷ ("compose", codes "running")
      ∷ ("firecrackers", codes "2")
      ∷ ("orchestrator", codes "active")
      ∷ ("proxy", codes "healthy")
      ∷ [];
}

status_run :
    run_lifecycle no_wide no_wide script "status" LifecycleMode.production DeploymentProfile.full
      true none none true
    ≡ ok (healthy, none)
unfolding run_lifecycle str_eq get_field codes_eq
status_run = refl

status_invocation : Invocation
status_invocation = record {
  operation = "status";
  environment = fixed_environment LifecycleMode.production DeploymentProfile.full;
  capture = true;
}

run_lifecycle-Reported_example :
    (i : Invocation) × (invocation "status" LifecycleMode.production DeploymentProfile.full none
        none true
      ≡ ok i)
    × (healthy.operation ≡ "status")
    × (i.capture ≡ str_eq "status" "status")
    × Reported no_wide no_wide i (script i) healthy
run_lifecycle-Reported_example =
    run_lifecycle-Reported no_wide no_wide script "status" LifecycleMode.production
      DeploymentProfile.full true none none true healthy none status_run

run_lifecycle-pass_example :
    (i : Invocation) × (invocation "status" LifecycleMode.production DeploymentProfile.full none
        none true
      ≡ ok i)
    × ((script i).returncode ≡ exited 0)
    × ((◌≢◌ {A = String} "status" "status") ⊎ Healthy no_wide no_wide (script i) healthy.health)
unfolding result_status
run_lifecycle-pass_example =
    run_lifecycle-pass no_wide no_wide script "status" LifecycleMode.production
      DeploymentProfile.full true none none true healthy none status_run refl

abbrev test_invocation : Invocation
test_invocation = record {
  operation = "test-core";
  environment =
      fixed_environment LifecycleMode.production DeploymentProfile.full
      ++ (("KITDEV_E2E_API_KEY_FILE", codes "/run/key") ∷ []);
  capture = false;
}

invocation-IsPlain_example :
    (str_mem "test-core" operations ≡ true)
    × (test_invocation.operation ≡ "test-core")
    × (true ≡ true)
    × (test_invocation.capture ≡ str_eq "test-core" "status")
    × All
        (IsPlain LifecycleMode.production DeploymentProfile.full (some (codes "/run/key")) none)
        test_invocation.environment
unfolding invocation str_eq posix_root posix_text codes_eq
invocation-IsPlain_example =
    invocation-IsPlain LifecycleMode.production DeploymentProfile.full (some (codes "/run/key"))
      none "test-core" true test_invocation refl
