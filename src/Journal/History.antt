-- ===== src/Journal/History.antt =====
-- What the state of a journal tells of its history.
use kitdev_sandboxes.Base.{◌≡◌, ◌≢◌, refl, ap, Bool, true, false, List, [], ◌∷◌, arith}
use kitdev_sandboxes.Journal.Record.{
  JournalState, allowed, follows, last_state, state_of, JournalRecord, IsRecord, journal_record,
  begins_planned,
}

-- The states of an installation that has failed or is being undone.
abbrev is_undone : JournalState → Bool
is_undone JournalState.rolling_back = true
is_undone JournalState.rolled_back = true
is_undone JournalState.failed = true
is_undone _ = false

allowed-undone : (s t : JournalState) → is_undone s ≡ true → allowed s t ≡ true → is_undone t ≡ true
unfolding allowed
allowed-undone _ _ h a = ground arith

last_state-undone :
    (s : JournalState) (ss : List JournalState)
    → is_undone s ≡ true
    → follows (s ∷ ss) ≡ true
    → is_undone (last_state s ss) ≡ true
unfolding follows last_state
last_state-undone s [] h f = h
last_state-undone s (t ∷ ts) h f =
    last_state-undone t ts (allowed-undone s t h (ground arith)) (ground arith)

-- From an undone state no history ends as validated.
undone-validated :
    (s : JournalState) (ss : List JournalState)
    → is_undone s ≡ true
    → follows (s ∷ ss) ≡ true
    → last_state s ss ≢ JournalState.validated
undone-validated s ss h f e = cc (last_state-undone s ss h f, e)

accepted_history :
    (r : JournalRecord)
    → IsRecord r
    → (begins_planned r.transitions ≡ true) × (follows r.transitions ≡ true)
unfolding journal_record
accepted_history r v = ground arith

from_validated :
    (ss : List JournalState)
    → follows (JournalState.validated ∷ ss) ≡ true
    → last_state JournalState.validated ss ≡ JournalState.validated
    → ss ≡ []
unfolding follows last_state allowed
from_validated [] f e = refl
from_validated (JournalState.rolling_back ∷ ts) f e =
    absurd (undone-validated JournalState.rolling_back ts refl (ground arith) e)
from_validated (_ ∷ ts) f e = cc

from_applied :
    (ss : List JournalState)
    → follows (JournalState.applied ∷ ss) ≡ true
    → last_state JournalState.applied ss ≡ JournalState.validated
    → ss ≡ JournalState.validated ∷ []
unfolding follows last_state allowed
from_applied [] f e = cc
from_applied (JournalState.validated ∷ ts) f e =
    ap (λ x. JournalState.validated ∷ x) (from_validated ts (ground arith) e)
from_applied (JournalState.rolling_back ∷ ts) f e =
    absurd (undone-validated JournalState.rolling_back ts refl (ground arith) e)
from_applied (JournalState.failed ∷ ts) f e =
    absurd (undone-validated JournalState.failed ts refl (ground arith) e)
from_applied (_ ∷ ts) f e = cc

from_applying :
    (ss : List JournalState)
    → follows (JournalState.applying ∷ ss) ≡ true
    → last_state JournalState.applying ss ≡ JournalState.validated
    → ss ≡ JournalState.applied ∷ JournalState.validated ∷ []
unfolding follows last_state allowed
from_applying [] f e = cc
from_applying (JournalState.applied ∷ ts) f e =
    ap (λ x. JournalState.applied ∷ x) (from_applied ts (ground arith) e)
from_applying (JournalState.rolling_back ∷ ts) f e =
    absurd (undone-validated JournalState.rolling_back ts refl (ground arith) e)
from_applying (JournalState.failed ∷ ts) f e =
    absurd (undone-validated JournalState.failed ts refl (ground arith) e)
from_applying (_ ∷ ts) f e = cc

from_planned :
    (ss : List JournalState)
    → follows (JournalState.planned ∷ ss) ≡ true
    → last_state JournalState.planned ss ≡ JournalState.validated
    → ss ≡ JournalState.applying ∷ JournalState.applied ∷ JournalState.validated ∷ []
unfolding follows last_state allowed
from_planned [] f e = cc
from_planned (JournalState.applying ∷ ts) f e =
    ap (λ x. JournalState.applying ∷ x) (from_applying ts (ground arith) e)
from_planned (JournalState.failed ∷ ts) f e =
    absurd (undone-validated JournalState.failed ts refl (ground arith) e)
from_planned (_ ∷ ts) f e = cc

from_start :
    (ss : List JournalState)
    → begins_planned ss ≡ true
    → follows ss ≡ true
    → elim ss [ [] ↦ JournalState.planned | s ∷ ts ↦ last_state s ts ] ≡ JournalState.validated
    → ss
      ≡ JournalState.planned ∷ JournalState.applying ∷ JournalState.applied ∷ JournalState.validated
        ∷ []
from_start [] b f e = cc
from_start (JournalState.planned ∷ ts) b f e =
    ap (λ x. JournalState.planned ∷ x) (from_planned ts f e)
from_start (_ ∷ ts) b f e = cc

-- An accepted record that is validated has the history planned, applying, applied, validated: it
-- has neither failed nor been rolled back before.
pub validated-history :
    (r : JournalRecord)
    → IsRecord r
    → state_of r ≡ JournalState.validated
    → r.transitions
      ≡ JournalState.planned ∷ JournalState.applying ∷ JournalState.applied ∷ JournalState.validated
        ∷ []
unfolding state_of
validated-history r v e = let (b, f) = accepted_history r v in from_start r.transitions b f e
