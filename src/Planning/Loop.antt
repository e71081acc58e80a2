-- ===== src/Planning/Loop.antt =====
-- The loop over the desired directories: where its actions come from and what it leaves open.
use kitdev_sandboxes.Base.{
  ◌≡◌, refl, ap, ◌∙◌, subst, ◌⊎◌, inl, inr, true, Option, none, some, List, [], ◌∷◌, All, All-map,
  Among,
}
use kitdev_sandboxes.Base.Errors.{ok, >>=-eq-ok, ok_inj}
use kitdev_sandboxes.Base.Dict.{Dict, lookup}
use kitdev_sandboxes.Planning.Types.{
  ResourceFact, PlannedAction, PlanIssue, issue_blocking, DesiredDirectory,
}
use kitdev_sandboxes.Planning.Directory.{DirectoryResult, directory_result}
use kitdev_sandboxes.Planning.Build.{optional, directory_loop}
use kitdev_sandboxes.Planning.Outcome.{IsManaged, IsAbsent, Makes, Judged, directory_result-Judged}

-- One round of the loop: what holds of a judged directory's action holds of the first action.
module _ (P : PlannedAction → Type 0) (d : DesiredDirectory) (o : Option ResourceFact) where
  All-optional :
      (r : DirectoryResult) (rest : List PlannedAction)
      → Judged d o r
      → ((a : PlannedAction) → IsAbsent d o → Makes d a → P a)
      → All P rest
      → All P (optional r.0 rest)
  All-optional (none, i) rest j h hs = hs
  All-optional (some a, none) rest j h hs = (h a j.0 j.1, hs)
  All-optional (some a, some i) rest j h hs = absurd j

-- An action is called for by a directory whose observation, as `seen` has it, is absent.
abbrev pub IsCalled :
    (DesiredDirectory → Option ResourceFact) → List DesiredDirectory → PlannedAction → Type 0
IsCalled seen ds a = (d : DesiredDirectory) × Among d ds × IsAbsent d (seen d) × Makes d a

-- Nothing is left undecided about a directory: it is managed, or an action of the list makes it.
abbrev pub IsCovered :
    (DesiredDirectory → Option ResourceFact) → List PlannedAction → DesiredDirectory → Type 0
IsCovered seen actions d =
    IsManaged d (seen d)
    ⊎ (IsAbsent d (seen d) × ((a : PlannedAction) × Among a actions × Makes d a))

module _ (indexed : Dict ResourceFact) where
  abbrev pub seen_in : DesiredDirectory → Option ResourceFact
  seen_in d = lookup d.resource_id indexed

  pub loop-actions :
      (ds : List DesiredDirectory) {r : List PlannedAction × List PlanIssue}
      → directory_loop indexed ds ≡ ok r
      → All (IsCalled seen_in ds) r.0
  unfolding directory_loop
  loop-actions [] e = rw (← ok_inj e) tt
  loop-actions (d ∷ ds) {r} e =
      let (x, p, q) = >>=-eq-ok (directory_result d (seen_in d)) _ e in
      let (rest, p', q') = >>=-eq-ok (directory_loop indexed ds) _ q in
      rw (← ok_inj q') (
        All-optional (IsCalled seen_in (d ∷ ds)) d (seen_in d) x rest.0
          (directory_result-Judged d (seen_in d) p) (λ a absent makes. (d, inl refl, absent, makes))
          (All-map rest.0 (λ a (d', m, absent, makes). (d', inr m, absent, makes))
            (loop-actions ds p')))

  -- The issues of the loop are all blocking, and if there are none every directory is covered.
  All-blocking-optional :
      (d : DesiredDirectory) (r : DirectoryResult) (rest : List PlanIssue)
      → Judged d (seen_in d) r
      → All (λ i. issue_blocking i ≡ true) rest
      → All (λ i. issue_blocking i ≡ true) (optional r.1 rest)
  All-blocking-optional d (a, none) rest j hs = hs
  All-blocking-optional d (none, some i) rest j hs = (j.0, hs)
  All-blocking-optional d (some a, some i) rest j hs = absurd j

  pub loop-issues :
      (ds : List DesiredDirectory) {r : List PlannedAction × List PlanIssue}
      → directory_loop indexed ds ≡ ok r
      → All (λ i. issue_blocking i ≡ true) r.1
  unfolding directory_loop
  loop-issues [] e = rw (← ok_inj e) tt
  loop-issues (d ∷ ds) {r} e =
      let (x, p, q) = >>=-eq-ok (directory_result d (seen_in d)) _ e in
      let (rest, p', q') = >>=-eq-ok (directory_loop indexed ds) _ q in
      rw (← ok_inj q') (
        All-blocking-optional d x rest.1 (directory_result-Judged d (seen_in d) p)
          (loop-issues ds p'))

  IsCovered-optional :
      (d d' : DesiredDirectory) (x : Option PlannedAction) (rest : List PlannedAction)
      → IsCovered seen_in rest d'
      → IsCovered seen_in (optional x rest) d'
  IsCovered-optional d d' none rest h = h
  IsCovered-optional d d' (some a) rest (inl h) = inl h
  IsCovered-optional d d' (some a) rest (inr h) = inr (h.0, (h.1.0, inr h.1.1, h.1.2))

  IsCovered-head :
      (d : DesiredDirectory) (r : DirectoryResult) (actions : List PlannedAction)
      (issues : List PlanIssue)
      → Judged d (seen_in d) r
      → optional r.1 issues ≡ []
      → IsCovered seen_in (optional r.0 actions) d × (issues ≡ [])
  IsCovered-head d (none, none) actions issues j e = (inl j, e)
  IsCovered-head d (some a, none) actions issues j e = (inr (j.0, (a, inl refl, j.1)), e)
  IsCovered-head d (none, some i) actions issues j e = cc
  IsCovered-head d (some a, some i) actions issues j e = absurd j

  pub loop-IsCovered :
      (ds : List DesiredDirectory) {r : List PlannedAction × List PlanIssue}
      → directory_loop indexed ds ≡ ok r
      → r.1 ≡ []
      → All (IsCovered seen_in r.0) ds
  unfolding directory_loop
  loop-IsCovered [] e n = tt
  loop-IsCovered (d ∷ ds) {r} e n =
      let (x, p, q) = >>=-eq-ok (directory_result d (seen_in d)) _ e in
      let (rest, p', q') = >>=-eq-ok (directory_loop indexed ds) _ q in
      let s = ok_inj q' in
      let (h, n') =
        IsCovered-head d x rest.0 rest.1 (directory_result-Judged d (seen_in d) p)
          (ap (λ (t : List PlannedAction × List PlanIssue). t.1) s ∙ n) in
      subst (λ (t : List PlannedAction × List PlanIssue). All (IsCovered seen_in t.0) (d ∷ ds)) s
        (h, All-map ds (λ d'. IsCovered-optional d d' x.0 rest.0) (loop-IsCovered ds p' n'))
