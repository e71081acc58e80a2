-- ===== src/Journal/Shared.antt =====
-- What a session that is closed, or shared, cannot do.
use kitdev_sandboxes.Base.{
  ◌≡◌, refl, ◌∙◌, inl, inr, Bool, true, false, ◌==◌, List, [], ◌∷◌, Bool-cases,
}
use kitdev_sandboxes.Base.Errors.{ok, err}
use kitdev_sandboxes.Journal.Texts.{Codes, Checked, conflict, JournalError}
use kitdev_sandboxes.Journal.Directory.{Directory, M, refuse_if, ◌>>=◌, ◌>>◌, after, look, check}
use kitdev_sandboxes.Journal.Record.{ResourceRecord, state_of}
use kitdev_sandboxes.Journal.Files.{
  filename, Reading, load_inflight_at, inspect_residue_at, load_unpublished_at,
}
use kitdev_sandboxes.Journal.Store.{Host, load_at, settle, reading, assert_exact}
use kitdev_sandboxes.Journal.Session.{
  JournalSession, Call, is_completed, require_open, require_exclusive, load, load_inflight,
  inspect_residue, load_unpublished, cleanup_temps, resume, create, transition, run_call,
  create_call, load_call, inflight_call, inspect_call, unpublished_call, cleanup_call, resume_call,
  transition_call,
}

-- Every call of a closed session is refused, and leaves the directory as it was.
pub run_call_closed :
    (host : Host) (s : JournalSession) (call : Call) (d : Directory)
    → s.closed ≡ true
    → run_call host s call d ≡ (err (conflict "journal session is closed"), d)
unfolding run_call require_exclusive require_open create load load_inflight inspect_residue
    load_unpublished cleanup_temps resume transition
run_call_closed host s (create_call r) d h = rw h refl
run_call_closed host s (load_call i) d h = rw h refl
run_call_closed host s (inflight_call i) d h = rw h refl
run_call_closed host s (inspect_call i) d h = rw h refl
run_call_closed host s (unpublished_call i) d h = rw h refl
run_call_closed host s (cleanup_call i expected) d h = rw h refl
run_call_closed host s (resume_call i p q rs) d h = rw h refl
run_call_closed host s (transition_call i p q rs state) d h = rw h refl

-- A call that leaves the directory as it is.
abbrev Keeps : {A : Type 0} → M A → Type 0
Keeps m = (d : Directory) → (m d).1 ≡ d

>>=-Keeps :
    {A B : Type 0} (m : M A) (f : A → M B) → Keeps m → ((a : A) → Keeps (f a)) → Keeps (m >>= f)
>>=-Keeps {A} m f keeps rest d = go (m d).0 (m d).1 (keeps d)
  where
    go : (r : Checked A) (d' : Directory) → d' ≡ d → (after f r d').1 ≡ d
    go (ok a) d' same = rest a d' ∙ same
    go (err e) d' same = same

refuse_if-Keeps : (test : Bool) (e : JournalError) → Keeps (refuse_if test e)
refuse_if-Keeps true e d = refl
refuse_if-Keeps false e d = refl

settle-Keeps : (host : Host) (name : Codes) (final : Reading) → Keeps (settle host false name final)
unfolding settle
settle-Keeps host name final d = elim (Bool-cases (final.links == 1)) [
  | inl one ↦ rw one refl
  | inr more ↦ rw more refl
]

load_at-Keeps : (host : Host) (name : Codes) → Keeps (load_at host false name)
unfolding load_at
load_at-Keeps host name =
    >>=-Keeps (look (reading host (1 ∷ 2 ∷ []) name)) (settle host false name) (λ d. refl)
      (settle-Keeps host name)

module _ (host : Host) (s : JournalSession) where
  require_open-Keeps : Keeps (require_open s)
  unfolding require_open
  require_open-Keeps = refuse_if-Keeps s.closed (conflict "journal session is closed")

  load-Keeps : (i : Codes) → s.exclusive ≡ false → Keeps (load host s i)
  unfolding load
  load-Keeps i shared = >>=-Keeps (require_open s) _ require_open-Keeps (λ _.
      >>=-Keeps (check (filename i)) _ (λ d. refl) (λ name. rw shared (load_at-Keeps host name)))

  -- An open session's look at a journal.
  inspect-Keeps :
      {A : Type 0} (i : Codes) (f : Codes → Directory → Checked A)
      → Keeps (require_open s >> (check (filename i) >>= λ name. look (f name)))
  inspect-Keeps i f =
      >>=-Keeps (require_open s) _ require_open-Keeps
        (λ _. >>=-Keeps (check (filename i)) _ (λ d. refl) (λ name d. refl))

  resume-Keeps :
      (i p h : Codes) (rs : List ResourceRecord)
      → s.exclusive ≡ false
      → Keeps (resume host s i p h rs)
  unfolding resume
  resume-Keeps i p h rs shared = >>=-Keeps (load host s i) _ (load-Keeps i shared) (λ r.
      >>=-Keeps (check (assert_exact r p h rs)) _ (λ d. refl)
        (λ _.
          >>=-Keeps
            (refuse_if (is_completed (state_of r)) (conflict "completed journal cannot be resumed"))
            _
            (refuse_if-Keeps (is_completed (state_of r))
              (conflict "completed journal cannot be resumed"))
            (λ _ d. refl)))

  require_exclusive-refused :
      (d : Directory)
      → s.exclusive ≡ false
      → (e : JournalError) × (require_exclusive s d ≡ (err e, d))
  unfolding require_exclusive require_open
  require_exclusive-refused d shared = elim (Bool-cases s.closed) [
    | inl c ↦ (conflict "journal session is closed", rw c refl)
    | inr o ↦ (conflict "journal mutation requires an exclusive session", rw (o, shared) refl)
  ]

-- A call of a shared session leaves the directory as it was.
pub run_call_shared :
    (host : Host) (s : JournalSession) (call : Call) (d : Directory)
    → s.exclusive ≡ false
    → (run_call host s call d).1 ≡ d
unfolding run_call create transition cleanup_temps load_inflight inspect_residue load_unpublished
    resume
run_call_shared host s (create_call r) d h =
    let (e, q) = require_exclusive-refused host s d h in rw q refl
run_call_shared host s (cleanup_call i expected) d h =
    let (e, q) = require_exclusive-refused host s d h in rw q refl
run_call_shared host s (transition_call i p q rs state) d h =
    let (e, q) = require_exclusive-refused host s d h in rw q refl
run_call_shared host s (load_call i) d h =
    >>=-Keeps (load host s i) _ (load-Keeps host s i h) (λ _ d. refl) d
run_call_shared host s (inflight_call i) d h =
    >>=-Keeps (load_inflight host s i) _
      (inspect-Keeps host s i (load_inflight_at host.policy host.json_loads)) (λ _ d. refl) d
run_call_shared host s (inspect_call i) d h =
    >>=-Keeps (inspect_residue host s i) _
      (inspect-Keeps host s i (inspect_residue_at host.policy host.json_loads)) (λ _ d. refl) d
run_call_shared host s (unpublished_call i) d h =
    >>=-Keeps (load_unpublished host s i) _
      (inspect-Keeps host s i (load_unpublished_at host.policy host.json_loads)) (λ _ d. refl) d
run_call_shared host s (resume_call i p q rs) d h =
    >>=-Keeps (resume host s i p q rs) _ (resume-Keeps host s i p q rs h) (λ _ d. refl) d
