-- ===== src/Journal/Transition.antt =====
-- `_transition_at`: what it has done where it returns, and where it may be cut off.
use kitdev_sandboxes.Base.{
  ℕ, ◌≡◌, refl, sym, ap, subst, ◌∙◌, inl, inr, ◌⊎◌, Bool, true, false, not, List, [], ◌∷◌, All,
  arith,
}
use kitdev_sandboxes.Base.Errors.{ok, ok_inj, not-eq-false}
use kitdev_sandboxes.Checks.Patterns.{codes_eq}
use kitdev_sandboxes.Journal.Texts.{Codes, conflict}
use kitdev_sandboxes.Journal.Record.{
  JournalState, allowed, state_of, ResourceRecord, JournalRecord, IsRecord, journal_record,
  resource_record,
}
use kitdev_sandboxes.Journal.Codec.{canonical}
use kitdev_sandboxes.Journal.Directory.{Directory, create_file, check, refuse_if, ◌>>=◌, ◌>>◌}
use kitdev_sandboxes.Journal.Files.{take_bytes, filename, filename_of}
use kitdev_sandboxes.Journal.Store.{
  Host, new_temp, atomic_replace, load_at, cleanup_stale_temps, assert_exact, with_state,
  transition_at,
}
use kitdev_sandboxes.Journal.Roundtrip.{journal_record-eq}
use kitdev_sandboxes.Journal.Chains.{after-eq-ok, look-eq-ok, refuse_if-eq-ok}
use kitdev_sandboxes.Journal.Holds.{Holds, Holds-load_at, load_at-Holds, Holds-IsRecord}
use kitdev_sandboxes.Journal.Temps.{Parses, temp-ne-name, new_temp-eq-ok}
use kitdev_sandboxes.Journal.Replace.{Holds-create_file, atomic_replace-Holds}

-- What a transition has done: the record that stood at the name has one more state, which its last
-- state allows; the new record passes the checks of the constructors and stands at the name.
abbrev pub Transitioned :
    Host → Codes → JournalState → JournalRecord → JournalRecord → Directory → Type 0
Transitioned host name state r r' d' =
    (r' ≡ with_state r state)
    × (allowed (state_of r) state ≡ true)
    × IsRecord r'
    × Holds host name r' d'

filename-eq-ok : (i : Codes) {name : Codes} → filename i ≡ ok name → filename_of i ≡ name
unfolding filename
filename-eq-ok i e = ground arith

with_state-IsRecord :
    (r : JournalRecord) (s : JournalState) {u : JournalRecord}
    → IsRecord r
    → journal_record (with_state r s) ≡ ok u
    → (with_state r s ≡ u) × IsRecord u
with_state-IsRecord r s {u} v e =
    let same = journal_record-eq (with_state r s) e in
    (
      same,
      (
        subst (λ x. journal_record x ≡ ok u) same e,
        subst (λ x. All (λ y. resource_record y ≡ ok y) x.resources) same v.1,
      ),
    )

-- The end of a transition: the record is replaced and read again.
replaced-Transitioned :
    (host : Host) (name : Codes) (state : JournalState) (x u r' : JournalRecord)
    (d3 d4 d' : Directory)
    → IsRecord x
    → allowed (state_of x) state ≡ true
    → journal_record (with_state x state) ≡ ok u
    → atomic_replace host name u d3 ≡ (ok tt, d4)
    → load_at host true name d4 ≡ (ok r', d')
    → Parses host (with_state x state)
    → Transitioned host name state x r' d'
replaced-Transitioned host name state x u r' d3 d4 d' v permitted updated replaced last parses =
    let (next, v') = with_state-IsRecord x state v updated in
    let held = atomic_replace-Holds host name u d3 replaced v' (subst (Parses host) next parses) in
    let again = sym (Holds-load_at host name u d4 true held) ∙ last in
    subst (λ y. Transitioned host name state x y d') (ok_inj (ap (λ o. o.0) again))
      (sym next, permitted, v', subst (Holds host name u) (ap (λ o. o.1) again) held)

-- Two loads of one directory return one record.
same_load :
    (host : Host) (name : Codes) (d : Directory) {d1 d2 : Directory} {x r : JournalRecord}
    → load_at host true name d ≡ (ok x, d2)
    → load_at host true name d ≡ (ok r, d1)
    → x ≡ r
same_load host name d first second = ok_inj (ap (λ o. o.0) (sym first ∙ second))

transition_at_from :
    (host : Host) (i name p h : Codes) (rs : List ResourceRecord) (state : JournalState)
    (d d2 d' : Directory) (x r' : JournalRecord)
    → load_at host true name d ≡ (ok x, d2)
    → (do
      check (assert_exact x p h rs)
      refuse_if (not (allowed (state_of x) state)) (conflict "transition is not allowed")
      updated ← check (journal_record (with_state x state))
      cleanup_stale_temps host name (x ∷ updated ∷ [])
      atomic_replace host name updated
      load_at host true name)
        d2
      ≡ (ok r', d')
    → Parses host (with_state x state)
    → Transitioned host name state x r' d'
transition_at_from host i name p h rs state d d2 d' x r' loaded e parses =
    let (_, _, e3) = look-eq-ok (λ _. assert_exact x p h rs) _ d2 e in
    let (bad, e4) =
      refuse_if-eq-ok (not (allowed (state_of x) state)) (conflict "transition is not allowed") _ d2
        e3 in
    let (u, updated, e5) = look-eq-ok (λ _. journal_record (with_state x state)) _ d2 e4 in
    let (_, d3, _, e6) = after-eq-ok (cleanup_stale_temps host name (x ∷ u ∷ [])) _ d2 e5 in
    let (_, d4, replaced, e7) = after-eq-ok (atomic_replace host name u) _ d3 e6 in
    replaced-Transitioned host name state x u r' d3 d4 d'
      (Holds-IsRecord host name x d2 (load_at-Holds host name true x d d2 loaded))
      (not-eq-false _ bad) updated replaced e7 parses

-- A transition that returns has read the record that stood at the name, has found that its last
-- state allows the new one, and leaves at the name, and returns, that record with the new state at
-- the end of its history, if `json.loads` finds the written document in its bytes.
pub transition_at-Transitioned :
    (host : Host) (install_id plan_id plan_hash : Codes) (resources : List ResourceRecord)
    (state : JournalState) (d d1 d' : Directory) (r r' : JournalRecord)
    → load_at host true (filename_of install_id) d ≡ (ok r, d1)
    → Parses host (with_state r state)
    → transition_at host install_id plan_id plan_hash resources state d ≡ (ok r', d')
    → Transitioned host (filename_of install_id) state r r' d'
unfolding transition_at
transition_at-Transitioned host i p h rs state d d1 d' r r' loaded parses e =
    let (name, named, e1) = look-eq-ok (λ _. filename i) _ d e in
    let (x, d2, load1, e2) = after-eq-ok (load_at host true name) _ d e1 in
    let here = filename-eq-ok i named in
    let same =
      same_load host name d load1 (subst (λ n. load_at host true n d ≡ (ok r, d1)) here loaded) in
    subst (λ n. Transitioned host n state r r' d') (sym here)
      (subst (λ y. Transitioned host name state y r' d') same
        (transition_at_from host i name p h rs state d d2 d' x r' load1 e2
          (subst (λ y. Parses host (with_state y state)) (sym same) parses)))

pub atomic_replace-ok :
    (host : Host) (name : Codes) (r : JournalRecord) (d : Directory) {temp : Codes} {d1 : Directory}
    → new_temp host name r d ≡ (ok temp, d1)
    → atomic_replace host name r d ≡ (ok tt, (atomic_replace host name r d).1)
unfolding atomic_replace
atomic_replace-ok host name r d made = rw made refl

-- The directory at a moment of `_atomic_replace`, for a crash to leave: before the temporary file is
-- made, while it holds some of the bytes, and when the call has ended.
pub data DuringReplace (host : Host) (name : Codes) (r : JournalRecord) (temp : Codes)
    (d : Directory) : Directory → Type 0 where
  unchanged : DuringReplace host name r temp d d
  writing :
      (k : ℕ)
      → DuringReplace host name r temp d (
          create_file temp
            (record { metadata = host.created; content = take_bytes k (canonical r) })
            d)
  replaced : DuringReplace host name r temp d (atomic_replace host name r d).1

-- A crash while a record is replaced loses nothing: at every moment a load of the name, with or
-- without recovery, returns the old record or the new one, and changes nothing.
pub load_at-DuringReplace :
    (host : Host) (name : Codes) (old r : JournalRecord) (temp : Codes) (d d1 d' : Directory)
    (recover : Bool)
    → Holds host name old d
    → IsRecord r
    → Parses host r
    → new_temp host name r d ≡ (ok temp, d1)
    → DuringReplace host name r temp d d'
    → (load_at host recover name d' ≡ (ok old, d')) ⊎ (load_at host recover name d' ≡ (ok r, d'))
load_at-DuringReplace host name old r temp d d1 d' recover h v p made unchanged =
    inl (Holds-load_at host name old d recover h)
load_at-DuringReplace host name old r temp d d1 d' recover h v p made (writing k) =
    let (_, _, (n, named), _, _) = new_temp-eq-ok host name r d made in
    inl (
      Holds-load_at host name old _ recover (
        Holds-create_file host name old temp _ d
          (subst (λ t. codes_eq name t ≡ false) (sym named) (temp-ne-name name (host.token n))) h))
load_at-DuringReplace host name old r temp d d1 d' recover h v p made replaced = inr (
    Holds-load_at host name r _ recover
      (atomic_replace-Holds host name r d (atomic_replace-ok host name r d made) v p))
