-- ===== src/Planning/Safety.antt =====
-- What a plan that `build_change_plan` returns may contain.
use kitdev_sandboxes.Base.{
  ◌≡◌, refl, sym, subst, inl, inr, String, true, false, Option, List, [], ◌∷◌, ◌++◌, arith,
  Bool-cases, any, any-append, All, All-map, All-Among, Among, str_eq,
}
use kitdev_sandboxes.Base.Errors.{ok}
use kitdev_sandboxes.Base.Strings.{str_mem, str_leb_total}
use kitdev_sandboxes.Base.Sort.{
  sort_by, any-sort_by, All-sort_by, sort_by-IsSorted, IsSorted, Among-sort_by,
}
use kitdev_sandboxes.Base.Dict.{lookup}
use kitdev_sandboxes.Config.{Configuration}
use kitdev_sandboxes.Planning.Types.{
  ResourceFact, PlanningFacts, PlannedAction, PlanIssue, issue_blocking, ChangePlan, plan_blocking,
  DesiredDirectory,
}
use kitdev_sandboxes.Planning.Paths.{directories}
use kitdev_sandboxes.Planning.Build.{
  by_issue_id, by_action_id, resource_ids, assembled, build_change_plan,
}
use kitdev_sandboxes.Planning.Observed.{lookup-index_facts}
use kitdev_sandboxes.Planning.Built.{observed, IsBuilt, build-IsBuilt}
use kitdev_sandboxes.Planning.Loop.{
  IsCalled, IsCovered, seen_in, loop-actions, loop-issues, loop-IsCovered,
}
use kitdev_sandboxes.Planning.Outcome.{IsManaged, IsAbsent}

any-append_right :
    (xs ys : List PlanIssue) → any issue_blocking (xs ++ ys) ≡ false → any issue_blocking ys ≡ false
any-append_right xs ys h = ground (arith, any-append issue_blocking xs ys)

blocked-eq-nil :
    (xs : List PlanIssue)
    → All (λ i. issue_blocking i ≡ true) xs
    → any issue_blocking xs ≡ false
    → xs ≡ []
blocked-eq-nil [] h e = refl
blocked-eq-nil (x ∷ xs) h e = ground arith

IsCovered-observed :
    (seen seen' : DesiredDirectory → Option ResourceFact) (actions : List PlannedAction)
    (d : DesiredDirectory)
    → seen d ≡ seen' d
    → IsCovered seen actions d
    → IsCovered seen' actions d
IsCovered-observed seen seen' actions d e (inl h) = inl (subst (IsManaged d) e h)
IsCovered-observed seen seen' actions d e (inr h) = inr (subst (IsAbsent d) e h.0, h.1)

All-IsCovered :
    (seen seen' : DesiredDirectory → Option ResourceFact) (actions : List PlannedAction)
    (ds : List DesiredDirectory)
    → All (λ d. seen d ≡ seen' d) ds
    → All (IsCovered seen actions) ds
    → All (IsCovered seen' actions) ds
All-IsCovered seen seen' actions [] e h = tt
All-IsCovered seen seen' actions (d ∷ ds) e h =
    (IsCovered-observed seen seen' actions d e.0 h.0, All-IsCovered seen seen' actions ds e.1 h.1)

sorted-IsCovered :
    (seen : DesiredDirectory → Option ResourceFact) (actions : List PlannedAction)
    (d : DesiredDirectory)
    → IsCovered seen actions d
    → IsCovered seen (sort_by by_action_id actions) d
sorted-IsCovered seen actions d (inl h) = inl h
sorted-IsCovered seen actions d (inr h) =
    inr (h.0, (h.1.0, Among-sort_by by_action_id h.1.0 actions h.1.1, h.1.2))

module _ {config : Configuration} {facts : PlanningFacts} {p : ChangePlan}
    (b : IsBuilt config facts p) where
  -- For every desired directory the index holds that observation.
  seen-observed : All (λ d. lookup d.resource_id b.index.0 ≡ observed facts d) (directories config)
  unfolding str_mem str_eq
  seen-observed =
      let known = λ (id : String) (w : str_mem id (resource_ids (directories config)) ≡ true).
        lookup-index_facts facts.resources (resource_ids (directories config)) id w b.index_eq in
      (known _ refl, (known _ refl, (known _ refl, (known _ refl, (known _ refl, tt)))))

  seen-eq :
      (d : DesiredDirectory) → Among d (directories config) → seen_in b.index.0 d ≡ observed facts d
  seen-eq d m =
      All-Among (λ d. lookup d.resource_id b.index.0 ≡ observed facts d) d (directories config)
        seen-observed m

  found-IsCalled : All (IsCalled (observed facts) (directories config)) b.found.0
  found-IsCalled =
      All-map b.found.0
        (λ a (d, m, absent, makes). (d, m, subst (IsAbsent d) (seen-eq d m) absent, makes))
        (loop-actions b.index.0 (directories config) b.found_eq)

  found_unblocked : plan_blocking p ≡ false → b.found.1 ≡ []
  found_unblocked h =
      blocked-eq-nil b.found.1 (loop-issues b.index.0 (directories config) b.found_eq) (
        any-append_right b.index.1 b.found.1 (
          any-append_right b.lifecycle (b.index.1 ++ b.found.1) (
            rw (← any-sort_by by_issue_id issue_blocking)
              (subst (λ q. plan_blocking q ≡ false) b.plan_eq h))))

  found-IsCovered :
      plan_blocking p ≡ false → All (IsCovered (observed facts) b.found.0) (directories config)
  found-IsCovered h =
      let covered = loop-IsCovered b.index.0 (directories config) b.found_eq (found_unblocked h) in
      All-IsCovered (seen_in b.index.0) (observed facts) b.found.0 (directories config)
        seen-observed covered

All-assembled :
    (config : Configuration) (P : PlannedAction → Type 0) (candidates : List PlannedAction)
    (issues : List PlanIssue)
    → All P candidates
    → All P (assembled config candidates issues).actions
All-assembled config P candidates issues h =
    elim (Bool-cases (any issue_blocking (sort_by by_issue_id issues))) [
      | inl e ↦ rw e tt
      | inr e ↦ rw e (All-sort_by by_action_id P candidates h)
    ]

issue_total : (x y : PlanIssue) → by_issue_id x y ≡ false → by_issue_id y x ≡ true
issue_total x y h = str_leb_total x.issue_id y.issue_id h

action_total : (x y : PlannedAction) → by_action_id x y ≡ false → by_action_id y x ≡ true
action_total x y h = str_leb_total x.action_id y.action_id h

actions-IsSorted :
    (config : Configuration) (candidates : List PlannedAction) (issues : List PlanIssue)
    → IsSorted by_action_id (assembled config candidates issues).actions
actions-IsSorted config candidates issues =
    elim (Bool-cases (any issue_blocking (sort_by by_issue_id issues))) [
      | inl e ↦ rw e tt
      | inr e ↦ rw e (sort_by-IsSorted by_action_id action_total candidates)
    ]

unblocked_actions :
    {config : Configuration} {facts : PlanningFacts} {p : ChangePlan} (b : IsBuilt config facts p)
    → plan_blocking p ≡ false
    → p.actions ≡ sort_by by_action_id b.found.0
unblocked_actions b h = let fixed = b.plan_eq in ground arith

-- Every action of a plan is called for: it makes one of the configured directories, at its
-- configured path, whose single observation has that path, and is absent, nobody's and certain.
pub build_actions-IsCalled :
    (config : Configuration) (facts : PlanningFacts) {p : ChangePlan}
    → build_change_plan config facts ≡ ok p
    → All (IsCalled (observed facts) (directories config)) p.actions
build_actions-IsCalled config facts {p} e =
    let b = build-IsBuilt config facts e in
    subst (λ q. All (IsCalled (observed facts) (directories config)) q.actions) (sym b.plan_eq)
      (All-assembled config _ b.found.0 _ (found-IsCalled b))

-- A plan with a blocking issue holds no action at all.
pub build_blocking :
    (config : Configuration) (facts : PlanningFacts) {p : ChangePlan}
    → build_change_plan config facts ≡ ok p
    → plan_blocking p ≡ true
    → p.actions ≡ []
build_blocking config facts {p} e h =
    let b = build-IsBuilt config facts e in let fixed = b.plan_eq in ground arith

-- The issues and the actions of a plan are sorted by their identifiers.
pub build-IsSorted :
    (config : Configuration) (facts : PlanningFacts) {p : ChangePlan}
    → build_change_plan config facts ≡ ok p
    → IsSorted by_issue_id p.issues × IsSorted by_action_id p.actions
build-IsSorted config facts {p} e =
    let b = build-IsBuilt config facts e in
    subst (λ q. IsSorted by_issue_id q.issues × IsSorted by_action_id q.actions) (sym b.plan_eq)
      (sort_by-IsSorted by_issue_id issue_total _, actions-IsSorted config b.found.0 _)

-- A plan without a blocking issue leaves nothing undecided: each configured directory is the
-- project's already, or it is absent and an action of the plan makes it.
pub build_unblocked-IsCovered :
    (config : Configuration) (facts : PlanningFacts) {p : ChangePlan}
    → build_change_plan config facts ≡ ok p
    → plan_blocking p ≡ false
    → All (IsCovered (observed facts) p.actions) (directories config)
build_unblocked-IsCovered config facts {p} e h =
    let b = build-IsBuilt config facts e in
    subst
      (λ (kept : List PlannedAction). All (IsCovered (observed facts) kept) (directories config))
      (sym (unblocked_actions b h))
      (All-map (directories config) (sorted-IsCovered (observed facts) b.found.0)
        (found-IsCovered b h))
