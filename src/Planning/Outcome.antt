-- ===== src/Planning/Outcome.antt =====
-- The three ways in which a directory's observation is judged, and their meaning.
use kitdev_sandboxes.Base.{
  ◌≡◌, refl, inl, inr, String, ◌<>◌, str_eq, str_eq_iff, true, Option, none, some, arith,
  Bool-cases, subst, false,
}
use kitdev_sandboxes.Base.Errors.{Exception, ok, ok_of, >>=-eq-ok, ok_inj}
use kitdev_sandboxes.Planning.Types.{
  ActionCategory, ObservedState, Ownership, Confidence, ResourceFact, Rollback, PlannedAction,
  PlanIssue, IssueCode, issue_blocking, DesiredDirectory, RollbackStrategy,
}
use kitdev_sandboxes.Planning.Checked.{plan_issue, planned_action, rollback}
use kitdev_sandboxes.Planning.Lifecycle.{issue}
use kitdev_sandboxes.Planning.Directory.{
  DirectoryResult, refuse, create_action, low_confidence, by_state, is_high, is_project, is_unowned,
  directory_result,
}

pub plan_issue-eq : (i : PlanIssue) {j : PlanIssue} → plan_issue i ≡ ok j → j ≡ i
unfolding plan_issue
plan_issue-eq i h = ground arith

planned_action-eq : (a : PlannedAction) {b : PlannedAction} → planned_action a ≡ ok b → b ≡ a
unfolding planned_action
planned_action-eq a h = ground arith

-- The directory is there and is the project's.
pub record IsManaged (d : DesiredDirectory) (o : Option ResourceFact) : Type 0 where
  pub fact : ResourceFact
  pub seen : o ≡ some fact
  pub target : fact.target ≡ d.path
  pub state : fact.state ≡ ObservedState.present
  pub ownership : fact.ownership ≡ Ownership.project
  pub confidence : fact.confidence ≡ Confidence.high

-- The directory is known to be absent and nobody's.
pub record IsAbsent (d : DesiredDirectory) (o : Option ResourceFact) : Type 0 where
  pub fact : ResourceFact
  pub seen : o ≡ some fact
  pub target : fact.target ≡ d.path
  pub state : fact.state ≡ ObservedState.absent
  pub ownership : fact.ownership ≡ Ownership.unowned
  pub confidence : fact.confidence ≡ Confidence.high

-- The action creates this directory.
pub record Makes (d : DesiredDirectory) (a : PlannedAction) : Type 0 where
  pub id : a.action_id ≡ (d.resource_id <> ".create")
  pub target : a.target ≡ d.path
  pub category : a.category ≡ ActionCategory.directory
  pub undo : a.rollback.strategy ≡ RollbackStrategy.remove_created

-- A directory is refused only if it is neither managed already nor known to be absent.
abbrev pub Judged : DesiredDirectory → Option ResourceFact → DirectoryResult → Type 0
Judged d o (none, none) = IsManaged d o
Judged d o (none, some i) =
    (issue_blocking i ≡ true) × (i.fact_id ≡ d.resource_id) × (¬ IsManaged d o) × (¬ IsAbsent d o)
Judged d o (some a, none) = IsAbsent d o × Makes d a
Judged d o (some a, some i) = ⊥

rollback-eq : (r : Rollback) {s : Rollback} → rollback r ≡ ok s → s ≡ r
unfolding rollback
rollback-eq r h = ground arith

-- A creation is of the directory itself, and is undone by removing what was created.
create-Judged :
    (d : DesiredDirectory) (o : Option ResourceFact) {r : DirectoryResult}
    → IsAbsent d o
    → create_action d ≡ ok r
    → Judged d o r
unfolding create_action
create-Judged d o {r} h e =
    let (s, p, q) = >>=-eq-ok (rollback _) _ e in
    let (a, p', q') = >>=-eq-ok (planned_action _) _ q in
    let same = planned_action-eq _ p' in
    let same_rollback = rollback-eq _ p in
    rw (← ok_inj q') (h, record { id = cc; target = cc; category = cc; undo = cc })

refuse-Judged :
    (d : DesiredDirectory) (o : Option ResourceFact) (id ex re : String) (c : IssueCode)
    {r : DirectoryResult}
    → (¬ IsManaged d o)
    → (¬ IsAbsent d o)
    → refuse (issue id c d.resource_id ex re) ≡ ok r
    → Judged d o r
refuse-Judged d o id ex re c {r} unmanaged unknown e =
    let (i, p, q) = >>=-eq-ok (issue id c d.resource_id ex re) _ e in
    let same = plan_issue-eq _ p in rw (← ok_inj q) (rw same refl, rw same refl, unmanaged, unknown)

is_high-eq : (c : Confidence) → is_high c ≡ true → c ≡ Confidence.high
is_high-eq c h = ground arith

is_project-eq : (w : Ownership) → is_project w ≡ true → w ≡ Ownership.project
is_project-eq w h = ground arith

is_unowned-eq : (w : Ownership) → is_unowned w ≡ true → w ≡ Ownership.unowned
is_unowned-eq w h = ground arith

-- The one observation of a directory that is managed, or known to be absent.
IsManaged-some :
    (d : DesiredDirectory) (f : ResourceFact)
    → IsManaged d (some f)
    → (f.target ≡ d.path)
      × (f.state ≡ ObservedState.present)
      × (f.ownership ≡ Ownership.project)
      × (f.confidence ≡ Confidence.high)
IsManaged-some d f m =
    let same : m.fact ≡ f = cc m.seen in
    subst
      (λ x.
        (x.target ≡ d.path)
        × (x.state ≡ ObservedState.present)
        × (x.ownership ≡ Ownership.project)
        × (x.confidence ≡ Confidence.high))
      same (m.target, m.state, m.ownership, m.confidence)

IsAbsent-some :
    (d : DesiredDirectory) (f : ResourceFact)
    → IsAbsent d (some f)
    → (f.target ≡ d.path)
      × (f.state ≡ ObservedState.absent)
      × (f.ownership ≡ Ownership.unowned)
      × (f.confidence ≡ Confidence.high)
IsAbsent-some d f m =
    let same : m.fact ≡ f = cc m.seen in
    subst
      (λ x.
        (x.target ≡ d.path)
        × (x.state ≡ ObservedState.absent)
        × (x.ownership ≡ Ownership.unowned)
        × (x.confidence ≡ Confidence.high))
      same (m.target, m.state, m.ownership, m.confidence)

module _ (d : DesiredDirectory) (f : ResourceFact) (t : f.target ≡ d.path)
    {r : DirectoryResult} where
  present-Judged :
      f.state ≡ ObservedState.present
      → by_state d f ObservedState.present ≡ ok r
      → Judged d (some f) r
  unfolding by_state low_confidence
  present-Judged s e = elim (Bool-cases (is_high f.confidence)) [
    | inr low ↦
        refuse-Judged d (some f) _ _ _ _
          (λ m. let facts = IsManaged-some d f m in absurd (ground arith))
          (λ m. let facts = IsAbsent-some d f m in absurd (ground arith)) (rw low at e)
    | inl high ↦ elim (Bool-cases (is_project f.ownership)) [
      | inr foreign ↦
          refuse-Judged d (some f) _ _ _ _
            (λ m. let facts = IsManaged-some d f m in absurd (ground arith))
            (λ m. let facts = IsAbsent-some d f m in absurd (ground arith))
            (rw (high, foreign) at e)
      | inl owned ↦
          let e' : ok_of Exception (none, none) ≡ ok_of Exception r = rw (high, owned) at e in
          rw (← ok_inj e') (record {
            fact = f;
            seen = refl;
            target = t;
            state = s;
            ownership = is_project-eq _ owned;
            confidence = is_high-eq _ high;
          })
    ]
  ]

  absent-Judged :
      f.state ≡ ObservedState.absent
      → by_state d f ObservedState.absent ≡ ok r
      → Judged d (some f) r
  unfolding by_state low_confidence
  absent-Judged s e = elim (Bool-cases (is_high f.confidence)) [
    | inr low ↦
        refuse-Judged d (some f) _ _ _ _
          (λ m. let facts = IsManaged-some d f m in absurd (ground arith))
          (λ m. let facts = IsAbsent-some d f m in absurd (ground arith)) (rw low at e)
    | inl high ↦ elim (Bool-cases (is_unowned f.ownership)) [
      | inr owned ↦
          refuse-Judged d (some f) _ _ _ _
            (λ m. let facts = IsManaged-some d f m in absurd (ground arith))
            (λ m. let facts = IsAbsent-some d f m in absurd (ground arith)) (rw (high, owned) at e)
      | inl unowned ↦
          create-Judged d (some f)
            (record {
              fact = f;
              seen = refl;
              target = t;
              state = s;
              ownership = is_unowned-eq _ unowned;
              confidence = is_high-eq _ high;
            })
            (rw (high, unowned) at e)
    ]
  ]

  by_state-Judged : (s : ObservedState) → f.state ≡ s → by_state d f s ≡ ok r → Judged d (some f) r
  unfolding by_state
  by_state-Judged ObservedState.absent s e = absent-Judged s e
  by_state-Judged ObservedState.present s e = present-Judged s e
  by_state-Judged ObservedState.unknown s e =
      refuse-Judged d (some f) _ _ _ _
        (λ m. let facts = IsManaged-some d f m in absurd (ground arith))
        (λ m. let facts = IsAbsent-some d f m in absurd (ground arith)) e
  by_state-Judged ObservedState.unsupported s e =
      refuse-Judged d (some f) _ _ _ _
        (λ m. let facts = IsManaged-some d f m in absurd (ground arith))
        (λ m. let facts = IsAbsent-some d f m in absurd (ground arith)) e

other_target : {s t : String} → str_eq s t ≡ false → ¬ (s ≡ t)
other_target {s} {t} other same = ground (arith, str_eq_iff s t)

-- A directory is judged in one of three ways. It is left alone exactly if its one observation has the
-- configured path, is present, the project's and certain. It is created exactly if that observation
-- has the configured path and is absent, nobody's and certain; the action bears its identifier, makes
-- the configured path and is undone by removing what was created. All else is a blocking issue about
-- it.
pub directory_result-Judged :
    (d : DesiredDirectory) (o : Option ResourceFact) {r : DirectoryResult}
    → directory_result d o ≡ ok r
    → Judged d o r
unfolding directory_result
directory_result-Judged d none e =
    refuse-Judged d none _ _ _ _ (λ m. absurd (cc m.seen)) (λ m. absurd (cc m.seen)) e
directory_result-Judged d (some f) {r} e = elim (Bool-cases (str_eq f.target d.path)) [
  | inr other ↦
      refuse-Judged d (some f) _ _ _ _ (λ m. absurd (other_target other (IsManaged-some d f m).0))
        (λ m. absurd (other_target other (IsAbsent-some d f m).0)) (rw other at e)
  | inl same ↦ by_state-Judged d f ((str_eq_iff f.target d.path).0 same) f.state refl (rw same at e)
]
