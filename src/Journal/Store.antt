-- ===== src/Journal/Store.antt =====
-- `JournalStore`, the part that changes the directory: recovery, temporary files, `_create_at` and
-- `_transition_at`. Calls of the operating system that the directory allows succeed.
use kitdev_sandboxes.Base.{
  ℕ, zero, suc, Bool, true, false, not, ◌||◌, List, [], ◌∷◌, ◌++◌, ◌==◌, if◌then◌else◌, any, Option,
  none, some,
}
use kitdev_sandboxes.Base.Errors
use kitdev_sandboxes.Base.Errors.{ok, err}
use kitdev_sandboxes.Checks.Patterns.{codes_eq}
use kitdev_sandboxes.Journal.Texts.{Codes, Checked, security, conflict, checked_text, checked_hash}
use kitdev_sandboxes.Journal.Policy.{JournalSecurityPolicy, Metadata, accepts}
use kitdev_sandboxes.Journal.Record.{
  JournalState, allowed, is_planned, JournalRecord, ResourceRecord, resources_eq, journal_record,
  state_of,
}
use kitdev_sandboxes.Journal.Json.{Json}
use kitdev_sandboxes.Journal.Codec.{Bytes, encode}
use kitdev_sandboxes.Journal.Directory.{
  Directory, find_entry, unlink, create_file, link, rename, M, ◌>>=◌, ◌>>◌, return, raise, look,
  check, refuse_if, change,
}
use kitdev_sandboxes.Journal.Files.{
  candidates, filename, temp_prefix, is_temp, journal_eq, Reading, read_at, validate_linked_create,
}

-- What a store works with: its policy, the JSON parser, the metadata that a new file gets, and the
-- results of `secrets.token_hex`, in order.
pub record Host : Type 0 where
  pub policy : JournalSecurityPolicy
  pub json_loads : Bytes → Option Json
  pub created : Metadata
  pub token : ℕ → Codes

abbrev pub reading : Host → List ℕ → Codes → Directory → Checked Reading
reading host = read_at host.policy host.json_loads

-- `_recover_linked_create`
unfoldable pub recover_linked_create : Host → Codes → Reading → M (Unit {0})
recover_linked_create host name final = do
  c ← look (validate_linked_create host.policy host.json_loads name final)
  change (unlink c)

-- `_load_at`, behind its first read.
unfoldable pub settle : Host → Bool → Codes → Reading → M JournalRecord
settle host recover name final =
    if final.links == 1
    then return final.found
    else if not recover
    then raise (security "journal has an unresolved hard-link residue")
    else (do
      recover_linked_create host name final
      again ← look (reading host (1 ∷ []) name)
      return again.found)

-- `_load_at`
unfoldable pub load_at : Host → Bool → Codes → M JournalRecord
load_at host recover name = do
  final ← look (reading host (1 ∷ 2 ∷ []) name)
  settle host recover name final

abbrev pub temp_name : Codes → Codes → Codes
temp_name name token = temp_prefix name ++ token

-- The loop over eight tokens: the first name that nothing stands at.
unfoldable pub allocate_temp : (ℕ → Codes) → Codes → ℕ → ℕ → Directory → Checked Codes
allocate_temp token name zero n d =
    err (conflict "could not allocate an exclusive journal temporary file")
allocate_temp token name (suc tries) n d =
    let later = allocate_temp token name tries (suc n) d in
    elim (find_entry (temp_name name (token n)) d.entries) [
      | none ↦ ok (temp_name name (token n))
      | some i ↦ later
    ]

-- The part of `_new_temp` behind the loop. A file with unsafe metadata is removed again, before
-- anything is written to it.
unfoldable pub write_temp : Host → Codes → Bytes → M Codes
write_temp host temp payload = do
  change (create_file temp (record { metadata = host.created; content = payload }))
  (if not (accepts host.policy host.created 1 false (1 ∷ []))
      then (do
        change (unlink temp)
        raise (security "temporary journal owner, mode, or type is unsafe"))
      else return temp)

-- `_new_temp`
unfoldable pub new_temp : Host → Codes → JournalRecord → M Codes
new_temp host name r = do
  payload ← check (encode r)
  temp ← look (allocate_temp host.token name 8 0)
  write_temp host temp payload

-- The final name of a temporary file with two links has to lead to the same inode.
abbrev matches_final : Codes → Reading → Directory → Checked (Unit {0})
matches_final name residue d =
    if not (residue.links == 2) then ok tt else elim (find_entry name d.entries) [
      | none ↦ err (security "linked journal residue has no published record")
      | some i ↦
          if i == residue.inode
          then ok tt
          else err (security "linked journal residue does not match the published record")
    ]

abbrev as_residue : Checked Reading → Checked Reading
as_residue (ok x) = ok x
as_residue (err e) = err (security "journal temporary artifact is not owned canonical residue")

-- The body of the loop over the temporary files.
unfoldable pub remove_stale : Host → Codes → List JournalRecord → Codes → M (Unit {0})
remove_stale host name expected c = do
  refuse_if (not (is_temp name c)) (security "suspicious journal temporary artifact exists")
  residue ← look (λ d. as_residue (reading host (1 ∷ 2 ∷ []) c d))
  refuse_if (not (any (journal_eq residue.found) expected))
      (conflict "journal temporary artifact belongs to another plan state")
  look (matches_final name residue)
  change (unlink c)

abbrev remove_all : Host → Codes → List JournalRecord → List Codes → M (Unit {0})
remove_all host name expected [] = return tt
remove_all host name expected (c ∷ []) = remove_stale host name expected c
remove_all host name expected (c ∷ _ ∷ _) =
    raise (security "multiple journal temporary artifacts exist")

-- `_cleanup_stale_temps`
unfoldable pub cleanup_stale_temps : Host → Codes → List JournalRecord → M (Unit {0})
cleanup_stale_temps host name expected = do
  cs ← look (candidates name)
  remove_all host name expected cs

-- The inode of a name that has just been made.
abbrev pub inode_of : Codes → Directory → ℕ
inode_of name d = elim (find_entry name d.entries) [ none ↦ 0 | some i ↦ i ]

-- Link the temporary file to the final name, unless that name is taken, and remove the temporary
-- name in both cases.
unfoldable pub publish : Codes → Codes → M (Unit {0})
publish name temp d = elim (find_entry name d.entries) [
  | some i ↦ (do change (unlink temp); raise (conflict "journal already exists")) d
  | none ↦ (do change (link name (inode_of temp d)); change (unlink temp)) d
]

-- `_atomic_create`
unfoldable pub atomic_create : Host → Codes → JournalRecord → M (Unit {0})
atomic_create host name r = do temp ← new_temp host name r; publish name temp

-- `_atomic_replace`
unfoldable pub atomic_replace : Host → Codes → JournalRecord → M (Unit {0})
atomic_replace host name r = do
  temp ← new_temp host name r
  change (λ d. rename temp name (inode_of temp d) d)

abbrev pub only_planned : List JournalState → Bool
only_planned (s ∷ []) = is_planned s
only_planned _ = false

abbrev pub refuse_published : Codes → M (Unit {0})
refuse_published name = look (λ d. elim (find_entry name d.entries) [
  | none ↦ ok tt
  | some i ↦ err (conflict "journal already exists")
])

-- `_create_at`
unfoldable pub create_at : Host → JournalRecord → M JournalRecord
create_at host r = do
  refuse_if (not (only_planned r.transitions))
      (conflict "new journal must contain only the initial planned state")
  name ← check (filename r.install_id)
  cleanup_stale_temps host name (r ∷ [])
  refuse_published name
  atomic_create host name r
  load_at host true name

-- `_assert_exact`
unfoldable pub assert_exact :
    JournalRecord → Codes → Codes → List ResourceRecord → Checked (Unit {0})
assert_exact r plan_id plan_hash resources = Errors.◌>>◌ (checked_text "plan_id" plan_id true) (
    Errors.◌>>◌ (checked_hash "plan_hash" plan_hash) (
      Errors.raise_if
        (not (codes_eq r.plan_id plan_id)
          || not (codes_eq r.plan_hash plan_hash)
          || not (resources_eq r.resources resources))
        (conflict "journal does not exactly match the requested plan and resources")))

-- The record with one more state; the constructor checks it.
abbrev pub with_state : JournalRecord → JournalState → JournalRecord
with_state r s = record r { transitions = r.transitions ++ (s ∷ []); schema_version = 1 }

-- `_transition_at`
unfoldable pub transition_at :
    Host → Codes → Codes → Codes → List ResourceRecord → JournalState → M JournalRecord
transition_at host install_id plan_id plan_hash resources state = do
  name ← check (filename install_id)
  r ← load_at host true name
  check (assert_exact r plan_id plan_hash resources)
  refuse_if (not (allowed (state_of r) state)) (conflict "transition is not allowed")
  updated ← check (journal_record (with_state r state))
  cleanup_stale_temps host name (r ∷ updated ∷ [])
  atomic_replace host name updated
  load_at host true name
