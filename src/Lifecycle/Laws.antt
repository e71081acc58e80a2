-- ===== src/Lifecycle/Laws.antt =====
-- What the callers of `run_lifecycle` rely on.
use kitdev_sandboxes.Base.{
  ℕ, ◌≤◌, ◌<◌, ◌≢◌, ◌≡◌, refl, sym, ap, subst, ◌∙◌, inl, inr, ◌⊎◌, Bool, true, false, List, [],
  Option, none, some, ltb, ◌==◌, String, str_eq, str_eq_iff, ==_iff, arith, Bool-cases,
  Option-cases,
}
use kitdev_sandboxes.Base.Errors.{ok, >>=-eq-ok, ok_inj}
use kitdev_sandboxes.Checks.Patterns.{utf8_size}
use kitdev_sandboxes.Config.{LifecycleMode, DeploymentProfile}
use kitdev_sandboxes.Lifecycle.Status.{Codes, read_status}
use kitdev_sandboxes.Lifecycle.Start.{invocation-IsPlain}
use kitdev_sandboxes.Lifecycle.Shown.{Shows, read_status-Shows}
use kitdev_sandboxes.Lifecycle.Run.{
  LifecycleResult, Invocation, Completed, ReturnCode, exited, signalled, invocation, result_status,
  exit_code_of, finish, run_lifecycle,
}

exit_code_of_bounds : (c : ReturnCode) → exit_code_of c ≤ 255
unfolding exit_code_of
exit_code_of_bounds (exited n) = ground arith
exit_code_of_bounds (signalled n) = ground arith

exit_code_of_zero : (c : ReturnCode) → exit_code_of c ≡ 0 → c ≡ exited 0
unfolding exit_code_of
exit_code_of_zero (exited n) e = ground arith
exit_code_of_zero (signalled n) e = absurd (ground arith)

module _ (wide_alnum wide_digit : ℕ → Bool) where
  -- The process has printed the health.
  abbrev pub Healthy : Completed → List (String × Codes) → Type 0
  Healthy c health =
      (output : Codes) × (c.stdout ≡ some output)
      × (utf8_size output ≤ 4096)
      × Shows wide_digit output health

  -- The process has printed nothing, too much, or a line that is not in order.
  abbrev pub Unreadable : Completed → Type 0
  Unreadable c =
      (c.stdout ≡ none)
      ⊎ ((output : Codes) × (c.stdout ≡ some output)
          × ((4096 < utf8_size output) ⊎ (read_status wide_alnum wide_digit output ≡ none)))

  -- How a run of the script may be reported: with an exit code that a process can have. A run whose
  -- output is not captured shows no health and has the process' code. One whose output is captured
  -- shows the health that the process printed, and has its code; or nothing in order was printed, and
  -- it is reported as 70 without a health.
  abbrev pub Reported : Invocation → Completed → LifecycleResult → Type 0
  Reported i c r =
      (r.exit_code ≤ 255)
      × (r.operation ≡ i.operation)
      × (((i.capture ≡ false) × (r.exit_code ≡ exit_code_of c.returncode) × (r.health ≡ []))
          ⊎ (((i.capture ≡ true) × (r.exit_code ≡ exit_code_of c.returncode) × Healthy c r.health)
              ⊎ ((i.capture ≡ true) × Unreadable c × (r.exit_code ≡ 70) × (r.health ≡ []))))

  finish-Reported :
      (i : Invocation) (quiet : Bool) (c : Completed)
      → Reported i c (finish wide_alnum wide_digit i quiet c).0
  unfolding finish
  finish-Reported i quiet c = elim (Bool-cases i.capture) [
    | inr plain ↦
        rw (plain, finish) (exit_code_of_bounds c.returncode, refl, inl (refl, refl, refl))
    | inl status ↦ elim (Option-cases c.stdout) [
      | inl missing ↦
          rw (status, missing, finish) (omega arith, refl, inr (inr (refl, inl refl, refl, refl)))
      | inr (output, here) ↦ elim (Bool-cases (ltb 4096 (utf8_size output))) [
        | inl long ↦
            rw (status, here, long, finish)
              (
                omega arith,
                refl,
                inr (inr (refl, inr (output, refl, inl (ground arith)), refl, refl)),
              )
        | inr short ↦ elim (Option-cases (read_status wide_alnum wide_digit output)) [
          | inl wrong ↦
              rw (status, here, short, wrong, finish)
                (omega arith, refl, inr (inr (refl, inr (output, refl, inr wrong), refl, refl)))
          | inr (health, read) ↦
              rw (status, here, short, read, finish)
                (
                  exit_code_of_bounds c.returncode,
                  refl,
                  inr (
                      inl (
                        refl,
                        refl,
                        (
                          output,
                          refl,
                          ground arith,
                          read_status-Shows wide_alnum wide_digit output read,
                        ),
                      )),
                )
        ]
      ]
    ]
  ]

  module _ (run : Invocation → Completed) (operation : String) (mode : LifecycleMode)
      (profile : DeploymentProfile) (quiet : Bool) (api_key_file template_id_file : Option Codes)
      (available : Bool) where
    -- A run that returns has found an invocation in order, and reports how that ended: with an exit
    -- code of at most 255, for the operation that was asked for. The output of "status" alone is
    -- captured. Another operation is reported by its exit code alone. "status" is reported by that
    -- code and the health that its output of at most 4096 bytes shows; it is reported as 70 without
    -- a health only if the output is missing, longer, or not in order.
    pub run_lifecycle-Reported :
        (r : LifecycleResult) (printed : Option Codes)
        → run_lifecycle wide_alnum wide_digit run operation mode profile quiet api_key_file
            template_id_file available
          ≡ ok (r, printed)
        → (i : Invocation) × (invocation operation mode profile api_key_file template_id_file
              available
            ≡ ok i)
          × (r.operation ≡ operation)
          × (i.capture ≡ str_eq operation "status")
          × Reported i (run i) r
    unfolding run_lifecycle
    run_lifecycle-Reported r printed e =
        let (i, started, done) =
          >>=-eq-ok (invocation operation mode profile api_key_file template_id_file available) _
            e in
        let (_, same, _, captured, _) =
          invocation-IsPlain mode profile api_key_file template_id_file operation available i
            started in
        let reported =
          subst (Reported i (run i)) (ap (λ o. o.0) (ok_inj done))
            (finish-Reported i quiet (run i)) in
        (i, started, reported.1 ∙ same, captured, reported)

result_status-pass : (r : LifecycleResult) → result_status r ≡ "pass" → r.exit_code ≡ 0
unfolding result_status str_eq
result_status-pass r pass = elim (Bool-cases (r.exit_code == 0)) [
  | inl zero_code ↦ (==_iff r.exit_code 0).0 zero_code
  | inr other ↦ cc ((str_eq_iff "fail" "pass").1 (rw other at pass))
]

Reported-pass :
    (wide_alnum wide_digit : ℕ → Bool) (i : Invocation) (c : Completed) (r : LifecycleResult)
    → Reported wide_alnum wide_digit i c r
    → r.exit_code ≡ 0
    → (c.returncode ≡ exited 0) × ((i.capture ≡ false) ⊎ Healthy wide_alnum wide_digit c r.health)
Reported-pass wide_alnum wide_digit i c r (_, _, inl (plain, code, _)) zero_code =
    (exit_code_of_zero c.returncode (sym code ∙ zero_code), inl plain)
Reported-pass wide_alnum wide_digit i c r (_, _, inr (inl (_, code, health))) zero_code =
    (exit_code_of_zero c.returncode (sym code ∙ zero_code), inr health)
Reported-pass wide_alnum wide_digit i c r (_, _, inr (inr (_, _, code, _))) zero_code =
    absurd (omega arith)

-- A result is shown as passed only if the script has exited with 0 and, for "status", has printed at
-- most 4096 bytes that show the health of the result.
pub run_lifecycle-pass :
    (wide_alnum wide_digit : ℕ → Bool) (run : Invocation → Completed) (operation : String)
    (mode : LifecycleMode) (profile : DeploymentProfile) (quiet : Bool)
    (api_key_file template_id_file : Option Codes) (available : Bool) (r : LifecycleResult)
    (printed : Option Codes)
    → run_lifecycle wide_alnum wide_digit run operation mode profile quiet api_key_file
        template_id_file available
      ≡ ok (r, printed)
    → result_status r ≡ "pass"
    → (i : Invocation) × (invocation operation mode profile api_key_file template_id_file available
        ≡ ok i)
      × ((run i).returncode ≡ exited 0)
      × ((operation ≢ "status") ⊎ Healthy wide_alnum wide_digit (run i) r.health)
run_lifecycle-pass wa wd run op mode profile quiet key template available r printed e pass =
    let (i, started, _, captured, reported) =
      run_lifecycle-Reported wa wd run op mode profile quiet key template available r printed e in
    let (code, health) = Reported-pass wa wd i (run i) r reported (result_status-pass r pass) in
    (i, started, code, other_or_healthy health captured)
  where
    other_or_healthy :
        {i : Invocation}
        → (i.capture ≡ false) ⊎ Healthy wa wd (run i) r.health
        → i.capture ≡ str_eq op "status"
        → (op ≢ "status") ⊎ Healthy wa wd (run i) r.health
    other_or_healthy (inl plain) captured = inl (λ same. ground (arith, str_eq_iff op "status"))
    other_or_healthy (inr healthy) captured = inr healthy
