-- ===== src/Journal/Progress.antt =====
-- A transition that is allowed can be made.
use kitdev_sandboxes.Base.{◌<◌, ◌≡◌, refl, true, List, [], ◌∷◌, ◌++◌, length, length-append, arith}
use kitdev_sandboxes.Base.Errors.{ok}
use kitdev_sandboxes.Journal.Texts.{Codes}
use kitdev_sandboxes.Journal.Record.{
  JournalState, allowed, state_of, last_state, follows, begins_planned, resource_eq, resources_eq,
  ResourceRecord, JournalRecord, IsRecord, journal_record, max_transitions,
}
use kitdev_sandboxes.Journal.Directory.{Directory}
use kitdev_sandboxes.Journal.Files.{filename, filename_of, candidates}
use kitdev_sandboxes.Journal.Store.{
  Host, new_temp, atomic_replace, cleanup_stale_temps, assert_exact, with_state, transition_at,
}
use kitdev_sandboxes.Journal.Roundtrip.{codes_eq_refl}
use kitdev_sandboxes.Journal.Holds.{Holds, Holds-load_at, Holds-IsRecord}
use kitdev_sandboxes.Journal.Temps.{Parses}
use kitdev_sandboxes.Journal.Replace.{atomic_replace-Holds}
use kitdev_sandboxes.Journal.Transition.{atomic_replace-ok}

follows-append :
    (s : JournalState) (ss : List JournalState) (t : JournalState)
    → follows (s ∷ ss) ≡ true
    → allowed (last_state s ss) t ≡ true
    → follows ((s ∷ ss) ++ (t ∷ [])) ≡ true
unfolding follows last_state
follows-append s [] t f a = rw a refl
follows-append s (u ∷ us) t f a = ground (arith, follows-append u us t)

-- A history with one more state that its last allows begins and goes on as it should.
grown_history :
    (ss : List JournalState) (t : JournalState)
    → begins_planned ss ≡ true
    → follows ss ≡ true
    → allowed (elim ss [ [] ↦ JournalState.planned | s ∷ rest ↦ last_state s rest ]) t ≡ true
    → (begins_planned (ss ++ (t ∷ [])) ≡ true) × (follows (ss ++ (t ∷ [])) ≡ true)
grown_history [] t b f a = cc
grown_history (s ∷ ss) t b f a = (b, follows-append s ss t f a)

with_state-accepted :
    (r : JournalRecord) (t : JournalState)
    → IsRecord r
    → allowed (state_of r) t ≡ true
    → length r.transitions < max_transitions
    → journal_record (with_state r t) ≡ ok (with_state r t)
unfolding journal_record state_of
with_state-accepted r t v a n =
    ground (arith, grown_history r.transitions t, length-append r.transitions (t ∷ []))

pub resources_eq_refl : (rs : List ResourceRecord) → resources_eq rs rs ≡ true
unfolding resources_eq resource_eq
resources_eq_refl [] = refl
resources_eq_refl (r ∷ rs) =
    rw
      (
        codes_eq_refl r.resource_id,
        codes_eq_refl r.target,
        codes_eq_refl r.prior_state,
        codes_eq_refl r.desired_state,
      )
      (resources_eq_refl rs)

assert_exact_self :
    (r : JournalRecord) → IsRecord r → assert_exact r r.plan_id r.plan_hash r.resources ≡ ok tt
unfolding assert_exact journal_record
assert_exact_self r v =
    rw (codes_eq_refl r.plan_id, codes_eq_refl r.plan_hash, resources_eq_refl r.resources)
      (ground arith)

pub filename_self :
    (r : JournalRecord) → IsRecord r → filename r.install_id ≡ ok (filename_of r.install_id)
unfolding filename journal_record
filename_self r v = ground arith

pub nothing_stale :
    (host : Host) (name : Codes) (expected : List JournalRecord) (d : Directory)
    → candidates name d ≡ ok []
    → cleanup_stale_temps host name expected d ≡ (ok tt, d)
unfolding cleanup_stale_temps
nothing_stale host name expected d h = rw h refl

-- Where a journal stands at its name, nothing is left of an earlier crash, a temporary file can be
-- written, and `json.loads` finds the written document in its bytes, there a state that the last
-- one allows is appended to a history that is not full: the transition, asked for with the plan and
-- the resources of the record, returns the new record and leaves it at the name.
pub transition_at-progress :
    (host : Host) (r : JournalRecord) (state : JournalState) (temp : Codes) (d d1 : Directory)
    → Holds host (filename_of r.install_id) r d
    → candidates (filename_of r.install_id) d ≡ ok []
    → new_temp host (filename_of r.install_id) (with_state r state) d ≡ (ok temp, d1)
    → Parses host (with_state r state)
    → allowed (state_of r) state ≡ true
    → length r.transitions < max_transitions
    → (d' : Directory) × (transition_at host r.install_id r.plan_id r.plan_hash r.resources state d
        ≡ (ok (with_state r state), d'))
      × Holds host (filename_of r.install_id) (with_state r state) d'
unfolding transition_at
transition_at-progress host r state temp d d1 h clean made parses a n =
    let name = filename_of r.install_id in
    let v = Holds-IsRecord host name r d h in
    let u = with_state r state in
    let accepted = with_state-accepted r state v a n in
    let done = atomic_replace-ok host name u d made in
    let held = atomic_replace-Holds host name u d done (accepted, v.1) parses in
    let d' = (atomic_replace host name u d).1 in
    (
      d',
      rw (filename_self r v, Holds-load_at host name r d true h, assert_exact_self r v, a, accepted)
          (rw (nothing_stale host name (r ∷ u ∷ []) d clean, done)
            (Holds-load_at host name u d' true held)),
      held,
    )
