-- ===== src/Preflight/Laws.antt =====
-- What the report of `doctor` says of every host.
use kitdev_sandboxes.Base.{
  ◌==◌, ◌⊎◌, subst, ℕ, ◌≡◌, refl, String, str_eq, Bool, true, false, not, ◌&&◌, ◌||◌, Option, none,
  some, List, [], ◌∷◌, if◌then◌else◌, any, All, arith, Bool-cases, inl, inr,
}
use kitdev_sandboxes.Base.Errors.{Exception, ok_of, ok, ok_inj, >>=-eq-ok}
use kitdev_sandboxes.Planning.Checked.{plan_issue}
use kitdev_sandboxes.Planning.Outcome.{plan_issue-eq}
use kitdev_sandboxes.Config.{Configuration, LifecycleMode, is_production}
use kitdev_sandboxes.Planning.Types.{PlanningFacts, PlanIssue, issue_blocking}
use kitdev_sandboxes.Planning.Lifecycle.{
  lifecycle_issues, lifecycle_of, release_issues, unknown_release, only,
}
use kitdev_sandboxes.Preflight.Checks.{
  min_code, CheckStatus, Severity, HostFacts, CheckResult, is_bad, full_check, exit_code, code_of,
  codes_of,
}
use kitdev_sandboxes.Preflight.Evaluate.{
  release_check, architecture_check, systemd_check, cgroups_check, cpu_check, kvm_check,
  nested_check, scope_checks, os_evidence, evaluate_host, build_doctor_report,
}

abbrev pub failed : CheckResult → Bool
failed c = elim c.status [ CheckStatus.fail ↦ true | _ ↦ false ]

abbrev pub undecided : CheckResult → Bool
undecided c = elim c.status [ CheckStatus.unknown ↦ true | _ ↦ false ]

abbrev pub blocks : CheckResult → Bool
blocks c = elim c.severity [ Severity.blocking ↦ true | _ ↦ false ]

-- A check is blocking exactly if it failed or is unknown, and counts for the code of what it is.
abbrev pub IsConsistent : CheckResult → Type 0
IsConsistent c =
    (blocks c ≡ (failed c || undecided c))
    × (code_of c ≡ (if failed c then some 3 else if undecided c then some 5 else none))

release-IsConsistent :
    (os_id release : Option String) (production : Bool) (evidence : String)
    → IsConsistent (release_check os_id release production evidence)
unfolding release_check full_check
release-IsConsistent none release production evidence = ground arith
release-IsConsistent (some os_id) none production evidence = ground arith
release-IsConsistent (some os_id) (some release) production evidence = ground arith

architecture-IsConsistent : (a : Option String) → IsConsistent (architecture_check a)
unfolding architecture_check full_check
architecture-IsConsistent none = ground arith
architecture-IsConsistent (some a) = ground arith

systemd-IsConsistent : (comm : Option String) → IsConsistent (systemd_check comm)
unfolding systemd_check full_check
systemd-IsConsistent none = ground arith
systemd-IsConsistent (some comm) = ground arith

cgroups-IsConsistent : (v : Option Bool) → IsConsistent (cgroups_check v)
unfolding cgroups_check full_check
cgroups-IsConsistent none = ground arith
cgroups-IsConsistent (some false) = ground arith
cgroups-IsConsistent (some true) = ground arith

cpu-IsConsistent : (v : Option String) → IsConsistent (cpu_check v)
unfolding cpu_check full_check
cpu-IsConsistent none = ground arith
cpu-IsConsistent (some v) = ground arith

kvm-IsConsistent : (a b c : Bool) → IsConsistent (kvm_check a b c)
unfolding kvm_check full_check
kvm-IsConsistent false b c = ground arith
kvm-IsConsistent true false c = ground arith
kvm-IsConsistent true true false = ground arith
kvm-IsConsistent true true true = ground arith

nested-IsConsistent : (v : Option Bool) → IsConsistent (nested_check v)
unfolding nested_check full_check
nested-IsConsistent none = ground arith
nested-IsConsistent (some false) = ground arith
nested-IsConsistent (some true) = ground arith

scope-IsConsistent : All IsConsistent scope_checks
unfolding full_check
scope-IsConsistent = ground arith

-- Every check of a host is consistent: its severity is blocking exactly if it failed or is
-- unknown, and it counts for the exit code 3 if it failed, 5 if it is unknown, and else for none.
pub evaluate_host-IsConsistent :
    (facts : HostFacts) (mode : LifecycleMode) → All IsConsistent (evaluate_host facts mode)
unfolding evaluate_host
evaluate_host-IsConsistent facts mode = (
  release-IsConsistent facts.os_id facts.os_version_id (is_production mode) _,
  (
    architecture-IsConsistent facts.architecture,
    (
      systemd-IsConsistent facts.pid1_comm,
      (
        cgroups-IsConsistent facts.cgroup_v2,
        (
          cpu-IsConsistent facts.cpu_virtualization,
          (
            kvm-IsConsistent facts.kvm_device_exists facts.kvm_device_is_character
                facts.kvm_device_accessible,
            (nested-IsConsistent facts.nested_guest_support, scope-IsConsistent),
          ),
        ),
      ),
    ),
  ),
)

-- The lowest of some threes and fives.
min_code-lem :
    (cs : List ℕ)
    → All (λ n. (n ≡ 3) ⊎ (n ≡ 5)) cs
    → min_code cs ≡ (if any (λ n. n == 3) cs then 3 else if any (λ n. n == 5) cs then 5 else 0)
min_code-lem [] h = refl
min_code-lem (c ∷ []) h = ground arith
min_code-lem (c ∷ d ∷ cs) h = ground (arith, min_code-lem (d ∷ cs) h.1)

codes_of-lem :
    (cs : List CheckResult)
    → All IsConsistent cs
    → All (λ n. (n ≡ 3) ⊎ (n ≡ 5)) (codes_of cs)
      × (any (λ n. n == 3) (codes_of cs) ≡ any failed cs)
      × (any (λ n. n == 5) (codes_of cs) ≡ any undecided cs)
codes_of-lem [] h = (tt, refl, refl)
codes_of-lem (c ∷ cs) h = ground (arith, codes_of-lem cs h.1)

any-later :
    (c : CheckResult) (cs : List CheckResult)
    → any undecided cs ≡ true
    → any undecided (c ∷ cs) ≡ true
any-later c cs h = rw h (or-true (undecided c))
  where
    or-true : (b : Bool) → (b || true) ≡ true
    or-true b = ground arith

scope-undecided : any undecided scope_checks ≡ true
unfolding full_check
scope-undecided = refl

seven-undecided :
    (c d e f g h i : CheckResult) → any undecided (c ∷ d ∷ e ∷ f ∷ g ∷ h ∷ i ∷ scope_checks) ≡ true
seven-undecided c d e f g h i =
    let u = any-later i scope_checks scope-undecided in
    let v = any-later h (i ∷ scope_checks) u in
    let w = any-later g (h ∷ i ∷ scope_checks) v in
    let x = any-later f (g ∷ h ∷ i ∷ scope_checks) w in
    let y = any-later e (f ∷ g ∷ h ∷ i ∷ scope_checks) x in
    any-later c (d ∷ e ∷ f ∷ g ∷ h ∷ i ∷ scope_checks)
      (any-later d (e ∷ f ∷ g ∷ h ∷ i ∷ scope_checks) y)

evaluate_host-undecided :
    (facts : HostFacts) (mode : LifecycleMode) → any undecided (evaluate_host facts mode) ≡ true
unfolding evaluate_host
evaluate_host-undecided facts mode =
    seven-undecided
      (release_check facts.os_id facts.os_version_id (is_production mode) (os_evidence facts))
      (architecture_check facts.architecture) (systemd_check facts.pid1_comm)
      (cgroups_check facts.cgroup_v2) (cpu_check facts.cpu_virtualization)
      (kvm_check facts.kvm_device_exists facts.kvm_device_is_character facts.kvm_device_accessible)
      (nested_check facts.nested_guest_support)

-- The report on any host exits with 3 if a check failed, and otherwise with 5, never with 0: the
-- checks of the scope that is not collected yet are unknown.
pub exit_code_lem :
    (facts : HostFacts) (mode : LifecycleMode) (dry_run : Bool) (timestamp : String)
    → exit_code (build_doctor_report facts mode dry_run timestamp)
      ≡ (if any failed (evaluate_host facts mode) then 3 else 5)
unfolding exit_code build_doctor_report
exit_code_lem facts mode dry_run timestamp = ground (
  arith,
  codes_of-lem (evaluate_host facts mode) (evaluate_host-IsConsistent facts mode),
  min_code-lem (codes_of (evaluate_host facts mode)),
  evaluate_host-undecided facts mode,
)

only-blocking :
    (i : PlanIssue) {issues : List PlanIssue}
    → only (plan_issue i) ≡ ok issues
    → any issue_blocking issues ≡ issue_blocking i
only-blocking i {issues} e =
    let (j, p, q) = >>=-eq-ok (plan_issue i) _ e in
    let same = plan_issue-eq i p in rw (← ok_inj q) (ground arith)

lifecycle_of-lem :
    (production : Bool) (os_id release : Option String) (evidence : String)
    {issues : List PlanIssue}
    → lifecycle_of production os_id release ≡ ok issues
    → any issue_blocking issues ≡ is_bad (release_check os_id release production evidence).status
unfolding lifecycle_of release_issues unknown_release release_check full_check
lifecycle_of-lem production none release evidence e = only-blocking _ e
lifecycle_of-lem production (some o) none evidence e = only-blocking _ e
lifecycle_of-lem production (some o) (some r) evidence {issues} e =
    elim (Bool-cases (not (str_eq o "ubuntu") || not (str_eq r "25.04" || str_eq r "26.04"))) [
      | inl p ↦ rw p (only-blocking _ (rw p at e))
      | inr p ↦ elim (Bool-cases (str_eq r "25.04" && production)) [
        | inl q ↦ rw (p, q) (only-blocking _ (rw (p, q) at e))
        | inr q ↦ elim (Bool-cases (str_eq r "25.04")) [
          | inl s ↦ rw (p, q, s) (only-blocking _ (rw (p, q, s) at e))
          | inr s ↦
              let e' : ok_of Exception [] ≡ ok_of Exception issues = rw (p, q, s) at e in
              rw (p, q, s) (subst (λ xs. any issue_blocking xs ≡ false) (ok_inj e') refl)
        ]
      ]
    ]

-- The lifecycle rules of the planner and of the preflight agree: the planner's issues about the
-- release are blocking exactly if the release check has failed or is unknown.
pub release_check-lifecycle_issues :
    (config : Configuration) (facts : PlanningFacts) (evidence : String) {issues : List PlanIssue}
    → lifecycle_issues config facts ≡ ok issues
    → any issue_blocking issues
      ≡ is_bad
          (release_check facts.os_id facts.os_version_id
            (is_production config.deployment.lifecycle_mode)
            evidence).status
unfolding lifecycle_issues
release_check-lifecycle_issues config facts evidence e =
    lifecycle_of-lem (is_production config.deployment.lifecycle_mode) facts.os_id
      facts.os_version_id evidence e
