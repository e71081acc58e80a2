-- ===== src/Identity/Laws.antt =====
-- What a plan of the identity phase promises.
use kitdev_sandboxes.Base.{
  ℕ, ◌≤◌, ◌≡◌, refl, sym, ap, subst, ◌∙◌, inl, inr, String, Bool, true, false, not, Option, none,
  some, List, [], ◌∷◌, ◌++◌, any, any-append, if◌then◌else◌, arith, All, Bool-cases, ◌==◌,
}
use kitdev_sandboxes.Base.Errors.{Result, ok, ok_inj, Exception, >>=-eq-ok}
use kitdev_sandboxes.Base.Sort.{sort_by, any-sort_by}
use kitdev_sandboxes.Base.Strings.{str_leb}
use kitdev_sandboxes.Base.Dict.{Dict}
use kitdev_sandboxes.Config.{Configuration}
use kitdev_sandboxes.Preflight.Checks.{HostFacts}
use kitdev_sandboxes.Identity.Types.{
  AccountFact, GroupFact, IdentityFacts, IdentityPrerequisites, IdentityAllocation, IdentityIssue,
  IdentityAction, IdentityPlan, has, container_runtime_ids,
}
use kitdev_sandboxes.Identity.Inputs.{runtime_inputs_valid}
use kitdev_sandboxes.Identity.Mapping.{allocate, manifest_mapping}
use kitdev_sandboxes.Identity.Actions.{build_actions, zip_allocations}
use kitdev_sandboxes.Identity.Build.{
  HashInput, no_issue, first_free, allocations_of, finish, invalid_input_plan, build_identity_plan,
  range_complete, range_expected,
}
use kitdev_sandboxes.Identity.Allocation.{allocate-free}

-- Both numbers of the allocation lie in the project's band and are not in use.
abbrev pub IsVacant : IdentityFacts → IdentityAllocation → Type 0
IsVacant facts a =
    (61000 ≤ a.uid)
    × (a.uid ≤ 61999)
    × (has a.uid facts.occupied_uids ≡ false)
    × (61000 ≤ a.gid)
    × (a.gid ≤ 61999)
    × (has a.gid facts.occupied_gids ≡ false)

abbrev Usable : List ℕ → ℕ → Type 0
Usable occupied x = (61000 ≤ x) × (x ≤ 61999) × (has x (occupied ++ container_runtime_ids) ≡ false)

has-append : (x : ℕ) (xs ys : List ℕ) → has x (xs ++ ys) ≡ false → has x xs ≡ false
has-append x xs ys h = ground (arith, any-append (λ m. m == x) xs ys)

zip_allocations-IsVacant :
    (facts : IdentityFacts) (names : List String) (uids gids : List ℕ)
    → All (Usable facts.occupied_uids) uids
    → All (Usable facts.occupied_gids) gids
    → All (IsVacant facts) (zip_allocations names uids gids)
unfolding zip_allocations
zip_allocations-IsVacant facts [] uids gids h k = tt
zip_allocations-IsVacant facts (n ∷ ns) [] gids h k = tt
zip_allocations-IsVacant facts (n ∷ ns) (u ∷ us) [] h k = tt
zip_allocations-IsVacant facts (n ∷ ns) (u ∷ us) (g ∷ gs) ((a, b, c), h) ((d, e, f), k) = (
  (
    a,
    b,
    has-append u facts.occupied_uids container_runtime_ids c,
    d,
    e,
    has-append g facts.occupied_gids container_runtime_ids f,
  ),
  zip_allocations-IsVacant facts ns us gs h k,
)

first_free-IsVacant : (facts : IdentityFacts) → All (IsVacant facts) (first_free facts).0
unfolding first_free
first_free-IsVacant facts = go _ refl _ refl
  where
    go :
        (us : Option (List ℕ))
        → allocate 61000 61999 (facts.occupied_uids ++ container_runtime_ids) 3 ≡ us
        → (gs : Option (List ℕ))
        → allocate 61000 61999 (facts.occupied_gids ++ container_runtime_ids) 3 ≡ gs
        → All (IsVacant facts) (first_free facts).0
    go none e gs f = rw (e, first_free) tt
    go (some us) e none f = rw (e, first_free, f) tt
    go (some us) e (some gs) f =
        rw (e, first_free, f)
          (zip_allocations-IsVacant facts _ us gs (allocate-free 61000 61999 _ 3 (omega arith) e)
            (allocate-free 61000 61999 _ 3 (omega arith) f))

no_issue-any : (issues : List IdentityIssue) → no_issue issues ≡ not (any (λ _. true) issues)
no_issue-any [] = refl
no_issue-any (i ∷ is) = refl

no_issue-sort_by :
    (le : IdentityIssue → IdentityIssue → Bool) (issues : List IdentityIssue)
    → no_issue (sort_by le issues) ≡ no_issue issues
no_issue-sort_by le issues =
    no_issue-any (sort_by le issues)
    ∙ ap not (any-sort_by le (λ _. true) issues)
    ∙ sym (no_issue-any issues)

quiet :
    (issues : List IdentityIssue) (m : Result Exception (List IdentityAction))
    {actions : List IdentityAction}
    → not (no_issue issues) ≡ true
    → (if no_issue issues then m else ok []) ≡ ok actions
    → actions ≡ []
quiet [] m b e = cc
quiet (i ∷ is) m b e = sym (ok_inj e)

allocations_of-IsVacant :
    (facts : IdentityFacts) (accounts : Dict AccountFact) (groups : Dict GroupFact)
    → All (IsVacant facts) (allocations_of facts accounts groups none false).0
unfolding allocations_of
allocations_of-IsVacant facts accounts groups =
    elim (Bool-cases (range_complete facts.allocation_range)) [
      | inl a ↦ elim (Bool-cases (range_expected facts.allocation_range)) [
        | inl b ↦ rw (a, b) (first_free-IsVacant facts)
        | inr b ↦ rw (a, b) tt
      ]
      | inr a ↦ rw a tt
    ]

module _ (plan_hash : HashInput → String) (config : Configuration) where
  finish-ok :
      (source : String) (operator : Option AccountFact) (lxd : Option GroupFact)
      (allocations : List IdentityAllocation) (issues : List IdentityIssue) {p : IdentityPlan}
      → finish plan_hash config source operator lxd allocations issues ≡ ok p
      → (p.allocations ≡ allocations)
        × (p.blocking ≡ not (no_issue issues))
        × (p.issues ≡ sort_by (λ a b. str_leb a.issue_id b.issue_id) issues)
        × (p.blocking ≡ true → p.actions ≡ [])
  unfolding finish
  finish-ok source operator lxd allocations issues {p} e =
      let (actions, e1, f1) =
        >>=-eq-ok
          (if no_issue issues
            then build_actions config.identity.operator operator lxd allocations
            else ok [])
          _ e in
      let same = ok_inj f1 in
      let none_built : not (no_issue issues) ≡ true → actions ≡ [] =
        λ b. quiet issues (build_actions config.identity.operator operator lxd allocations) b e1 in
      subst
        (λ p.
          (p.allocations ≡ allocations)
          × (p.blocking ≡ not (no_issue issues))
          × (p.issues ≡ sort_by (λ a b. str_leb a.issue_id b.issue_id) issues)
          × (p.blocking ≡ true → p.actions ≡ []))
        same (refl, refl, refl, none_built)

module _ (plan_hash : HashInput → String) (config : Configuration) (host : HostFacts)
    (facts : IdentityFacts) (prerequisites : IdentityPrerequisites) where
  -- A returned plan with an issue is marked as blocking and has no action.
  pub build_identity_plan-blocking :
      (manifest : Option (List IdentityAllocation)) (p : IdentityPlan)
      → build_identity_plan plan_hash config host facts prerequisites manifest ≡ ok p
      → no_issue p.issues ≡ false
      → (p.blocking ≡ true) × (p.actions ≡ [])
  unfolding build_identity_plan invalid_input_plan
  build_identity_plan-blocking manifest p e n = elim (Bool-cases (runtime_inputs_valid facts)) [
    | inl v ↦
        let (a, b, c, d) = finish-ok plan_hash config _ _ _ _ _ (rw v at e) in
        let m = b ∙ ap not (sym (ap no_issue c ∙ no_issue-sort_by _ _) ∙ n) in (m, d m)
    | inr v ↦ subst (λ p. (p.blocking ≡ true) × (p.actions ≡ [])) (ok_inj (rw v at e)) (refl, refl)
  ]

  -- Without a manifest, every allocation of a returned plan has a UID and a GID in the project's
  -- band that the observations do not show in use.
  pub build_identity_plan-IsVacant :
      (p : IdentityPlan)
      → build_identity_plan plan_hash config host facts prerequisites none ≡ ok p
      → All (IsVacant facts) p.allocations
  unfolding build_identity_plan invalid_input_plan manifest_mapping
  build_identity_plan-IsVacant p e = elim (Bool-cases (runtime_inputs_valid facts)) [
    | inl v ↦
        let (a, b, c, d) = finish-ok plan_hash config _ _ _ _ _ (rw v at e) in
        subst (All (IsVacant facts)) (sym a) (allocations_of-IsVacant facts _ _)
    | inr v ↦ subst (λ p. All (IsVacant facts) p.allocations) (ok_inj (rw v at e)) tt
  ]
