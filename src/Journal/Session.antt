-- ===== src/Journal/Session.antt =====
-- `JournalSession`, a lock that the caller holds, and the operations of `JournalStore` that take it
-- for one call.
use kitdev_sandboxes.Base.{Bool, true, false, not, List, ◌==◌, length}
use kitdev_sandboxes.Journal.Texts.{Codes, Checked, conflict, mistyped}
use kitdev_sandboxes.Journal.Policy.{Metadata}
use kitdev_sandboxes.Journal.Record.{JournalState, JournalRecord, ResourceRecord, state_of}
use kitdev_sandboxes.Journal.Directory.{M, ◌>>=◌, ◌>>◌, return, look, check, refuse_if}
use kitdev_sandboxes.Journal.Files.{
  filename, Inspection, inspect_residue_at, load_inflight_at, load_unpublished_at,
}
use kitdev_sandboxes.Journal.Store.{
  Host, load_at, create_at, cleanup_stale_temps, assert_exact, transition_at,
}

pub record JournalSession : Type 0 where
  pub exclusive : Bool
  pub closed : Bool

unfoldable pub require_open : JournalSession → M (Unit {0})
require_open s = refuse_if s.closed (conflict "journal session is closed")

unfoldable pub require_exclusive : JournalSession → M (Unit {0})
require_exclusive s = do
  require_open s
  refuse_if (not s.exclusive) (conflict "journal mutation requires an exclusive session")

-- `record.state in {VALIDATED, ROLLED_BACK}`
abbrev pub is_completed : JournalState → Bool
is_completed JournalState.validated = true
is_completed JournalState.rolled_back = true
is_completed _ = false

module _ (host : Host) (s : JournalSession) where
  unfoldable pub create : JournalRecord → M JournalRecord
  create r = do require_exclusive s; create_at host r

  unfoldable pub load : Codes → M JournalRecord
  load install_id = do
    require_open s
    name ← check (filename install_id)
    load_at host s.exclusive name

  unfoldable pub load_inflight : Codes → M JournalRecord
  load_inflight install_id = do
    require_open s
    name ← check (filename install_id)
    look (load_inflight_at host.policy host.json_loads name)

  unfoldable pub inspect_residue : Codes → M Inspection
  inspect_residue install_id = do
    require_open s
    name ← check (filename install_id)
    look (inspect_residue_at host.policy host.json_loads name)

  unfoldable pub load_unpublished : Codes → M JournalRecord
  load_unpublished install_id = do
    require_open s
    name ← check (filename install_id)
    look (load_unpublished_at host.policy host.json_loads name)

  unfoldable pub cleanup_temps : Codes → List JournalRecord → M (Unit {0})
  cleanup_temps install_id expected = do
    require_exclusive s
    refuse_if (length expected == 0) (mistyped "expected must be a nonempty tuple")
    name ← check (filename install_id)
    cleanup_stale_temps host name expected

  unfoldable pub resume : Codes → Codes → Codes → List ResourceRecord → M JournalRecord
  resume install_id plan_id plan_hash resources = do
    r ← load install_id
    check (assert_exact r plan_id plan_hash resources)
    refuse_if (is_completed (state_of r)) (conflict "completed journal cannot be resumed")
    return r

  unfoldable pub transition :
      Codes → Codes → Codes → List ResourceRecord → JournalState → M JournalRecord
  transition install_id plan_id plan_hash resources state = do
    require_exclusive s
    transition_at host install_id plan_id plan_hash resources state

-- The calls of a session.
pub data Call : Type 0 where
  create_call : JournalRecord → Call
  load_call inflight_call inspect_call unpublished_call : Codes → Call
  cleanup_call : Codes → List JournalRecord → Call
  resume_call : Codes → Codes → Codes → List ResourceRecord → Call
  transition_call : Codes → Codes → Codes → List ResourceRecord → JournalState → Call

abbrev without_value : {A : Type 0} → M A → M (Unit {0})
without_value m = m >>= λ _. return tt

-- A call, its value left out.
unfoldable pub run_call : Host → JournalSession → Call → M (Unit {0})
run_call host s (create_call r) = without_value (create host s r)
run_call host s (load_call i) = without_value (load host s i)
run_call host s (inflight_call i) = without_value (load_inflight host s i)
run_call host s (inspect_call i) = without_value (inspect_residue host s i)
run_call host s (unpublished_call i) = without_value (load_unpublished host s i)
run_call host s (cleanup_call i expected) = cleanup_temps host s i expected
run_call host s (resume_call i p h rs) = without_value (resume host s i p h rs)
run_call host s (transition_call i p h rs state) = without_value (transition host s i p h rs state)

-- `locked`: the body runs on an open session, if the root can be opened and the lock is free.
unfoldable pub locked : {A : Type 0} → Checked Metadata → Bool → Bool → (JournalSession → M A) → M A
locked root free exclusive body = do
  _ ← check root
  refuse_if (not free) (conflict "journal directory is locked")
  body (record { exclusive = exclusive; closed = false })
