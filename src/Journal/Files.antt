-- ===== src/Journal/Files.antt =====
-- `JournalStore`, the part that only reads: `_read_at`, `_directory_entries`, the checks of
-- temporary files, and the inspections. The directory is locked, so that nothing changes a file while it is read.
use kitdev_sandboxes.Base.{
  ℕ, zero, suc, ◌+◌, Bool, true, false, not, ◌&&◌, ◌||◌, List, [], ◌∷◌, ◌++◌, ltb, ◌==◌,
  if◌then◌else◌, all, Option, none, some, length, String,
}
use kitdev_sandboxes.Base.Errors.{ok, err, raise_if, ◌>>=◌, ◌>>◌}
use kitdev_sandboxes.Base.Strings.{codes, codes_leb}
use kitdev_sandboxes.Base.Sort.{sort_by}
use kitdev_sandboxes.Checks.Unquote.{within}
use kitdev_sandboxes.Checks.Patterns.{codes_eq, utf8_size}
use kitdev_sandboxes.Journal.Texts.{
  Codes, Checked, security, safe_path_component, starts_with, checked_text,
}
use kitdev_sandboxes.Journal.Policy.{JournalSecurityPolicy, accepts, is_symlink}
use kitdev_sandboxes.Journal.Record.{JournalState, state_value, JournalRecord, resources_eq}
use kitdev_sandboxes.Journal.Json.{Json}
use kitdev_sandboxes.Journal.Codec.{Bytes, decode, max_journal_bytes}
use kitdev_sandboxes.Journal.Directory.{Directory, find_entry, link_count, names_of}

abbrev pub state_eq : JournalState → JournalState → Bool
state_eq a b = codes_eq (codes (state_value a)) (codes (state_value b))

unfoldable pub states_eq : List JournalState → List JournalState → Bool
unfolding codes_eq state_value
states_eq [] [] = true
states_eq (a ∷ as1) (b ∷ bs) = state_eq a b && states_eq as1 bs
states_eq _ _ = false

-- `==` of two records.
unfoldable pub journal_eq : JournalRecord → JournalRecord → Bool
unfolding codes_eq resources_eq states_eq
journal_eq a b =
    codes_eq a.install_id b.install_id
    && codes_eq a.plan_id b.plan_id
    && codes_eq a.plan_hash b.plan_hash
    && resources_eq a.resources b.resources
    && states_eq a.transitions b.transitions
    && a.schema_version == b.schema_version

-- At most `n` bytes.
unfoldable pub take_bytes : ℕ → Bytes → Bytes
take_bytes n [] = []
take_bytes zero (b ∷ bs) = []
take_bytes (suc n) (b ∷ bs) = b ∷ take_bytes n bs

unfoldable pub keep_if : {A : Type 0} → (A → Bool) → List A → List A
keep_if p [] = []
keep_if p (x ∷ xs) = let rest = keep_if p xs in if p x then x ∷ rest else rest

abbrev pub max_directory_entries : ℕ
max_directory_entries = 4096

-- The loop of `_directory_entries`: how many names have been read, and their bytes.
unfoldable pub scan_names : ℕ → ℕ → List Codes → Checked (List Codes)
unfolding safe_path_component utf8_size
scan_names count total [] = ok []
scan_names count total (name ∷ names) = do
  raise_if (not (safe_path_component name))
      (security "journal directory contains an unsafe entry name")
  raise_if (ltb max_directory_entries (count + 1) || ltb max_journal_bytes (total + utf8_size name))
      (security "journal directory contains too many entries")
  rest ← scan_names (count + 1) (total + utf8_size name) names
  ok (name ∷ rest)

-- `_directory_entries`
unfoldable pub directory_entries : Directory → Checked (List Codes)
unfolding scan_names
directory_entries d = scan_names 0 0 (names_of d)

-- `_filename`, of an identifier that passes its check.
abbrev pub filename_of : Codes → Codes
filename_of install_id = install_id ++ codes ".journal.json"

-- `_filename`
unfoldable pub filename : Codes → Checked Codes
unfolding checked_text
filename install_id = do checked_text "install_id" install_id true; ok (filename_of install_id)

-- `f".{filename}.tmp."`
abbrev pub temp_prefix : Codes → Codes
temp_prefix name = codes "." ++ (name ++ codes ".tmp.")

abbrev is_hex : ℕ → Bool
is_hex c = within b'0' b'9' c || within b'a' b'f' c

-- `[0-9a-f]{32}`
unfoldable pub is_token : Codes → Bool
is_token cs = all is_hex cs && length cs == 32

abbrev pub rest_after : Codes → Codes → Codes
rest_after [] cs = cs
rest_after (k ∷ ks) [] = []
rest_after (k ∷ ks) (c ∷ cs) = rest_after ks cs

-- `re.fullmatch(re.escape(prefix) + "[0-9a-f]{32}", name)`
unfoldable pub is_temp : Codes → Codes → Bool
unfolding is_token starts_with
is_temp name candidate =
    starts_with (temp_prefix name) candidate && is_token (rest_after (temp_prefix name) candidate)

-- The entries with the prefix, sorted.
unfoldable pub candidates : Codes → Directory → Checked (List Codes)
candidates name d = do
  entries ← directory_entries d
  ok (sort_by codes_leb (keep_if (starts_with (temp_prefix name)) entries))

-- The only candidate, if it is well named.
abbrev pub one_candidate : Codes → String → List Codes → Checked Codes
one_candidate name message (c ∷ []) = elim (is_temp name c) [
  | true ↦ ok c
  | false ↦ err (security message)
]
one_candidate name message _ = err (security message)

-- What a read returns: the record, the inode and its number of links.
pub record Reading : Type 0 where
  pub found : JournalRecord
  pub inode : ℕ
  pub links : ℕ

-- The record at the final name, its number of links, and the records of its residue.
abbrev pub Inspection : Type 0
Inspection = JournalRecord × ℕ × List JournalRecord

module _ (policy : JournalSecurityPolicy) (json_loads : Bytes → Option Json) where
  -- The part of `_read_at` behind `os.open`.
  unfoldable pub read_inode : List ℕ → ℕ → Directory → Checked Reading
  read_inode allowed_nlinks i d = do
    let node = d.nodes i
    let links = link_count i d.entries
    raise_if (is_symlink node.metadata.kind) (security "journal cannot be opened safely")
    raise_if (not (accepts policy node.metadata links false allowed_nlinks))
        (security "journal owner, mode, or type is unsafe")
    r ← decode json_loads (take_bytes (max_journal_bytes + 1) node.content)
    ok (record { found = r; inode = i; links = links })

  -- `_read_at`
  unfoldable pub read_at : List ℕ → Codes → Directory → Checked Reading
  read_at allowed_nlinks name d = elim (find_entry name d.entries) [
    | none ↦ err (security "journal cannot be opened safely")
    | some i ↦ read_inode allowed_nlinks i d
  ]

  -- `_validate_linked_create`
  unfoldable pub validate_linked_create : Codes → Reading → Directory → Checked Codes
  validate_linked_create name final d = do
    cs ← candidates name d
    c ← one_candidate name "journal has an unexplained hard link" cs
    residue ← read_at (2 ∷ []) c d
    raise_if (not (journal_eq residue.found final.found) || not (residue.inode == final.inode))
        (security "journal hard-link residue is not canonical")
    ok c

  abbrev inspect_unlinked : Codes → JournalRecord → List Codes → Directory → Checked Inspection
  inspect_unlinked name r [] d = ok (r, 1, [])
  inspect_unlinked name r (c ∷ cs) d = do
    temp ← one_candidate name "journal has unexplained temporary residue" (c ∷ cs)
    residue ← read_at (1 ∷ []) temp d
    ok (r, 1, residue.found ∷ [])

  -- `_inspect_residue_at`
  unfoldable pub inspect_residue_at : Codes → Directory → Checked Inspection
  inspect_residue_at name d = do
    final ← read_at (1 ∷ 2 ∷ []) name d
    cs ← candidates name d
    (if final.links == 2
        then (do _ ← validate_linked_create name final d; ok (final.found, 2, final.found ∷ []))
        else inspect_unlinked name final.found cs d)

  abbrev inflight : Inspection → Checked JournalRecord
  inflight (r, n, []) = ok r
  inflight (r, n, residue ∷ residues) =
      if n == 1 then err (security "journal has unexplained temporary residue") else ok r

  -- `_load_inflight_at`
  unfoldable pub load_inflight_at : Codes → Directory → Checked JournalRecord
  load_inflight_at name d = do i ← inspect_residue_at name d; inflight i

  -- `_load_unpublished_at`
  unfoldable pub load_unpublished_at : Codes → Directory → Checked JournalRecord
  load_unpublished_at name d = elim (find_entry name d.entries) [
    | some i ↦ err (security "journal final name is already published")
    | none ↦ do
      cs ← candidates name d
      c ← one_candidate name "journal unpublished residue is not unique" cs
      r ← read_at (1 ∷ []) c d
      ok r.found
  ]
