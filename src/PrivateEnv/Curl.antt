-- ===== src/PrivateEnv/Curl.antt =====
-- `read_api_key` and `write_e2e_configs`: the two curl configurations in a directory of the caller's,
-- which is a dictionary from names to bytes. Nothing else changes the files during a run.
use kitdev_sandboxes.Base.{
  ℕ, true, false, String, Bool, not, ◌&&◌, ◌||◌, [], ◌∷◌, ◌++◌, Option, none, some, leb, ltb, ◌==◌,
  if◌then◌else◌, all, any, length, suc, zero,
}
use kitdev_sandboxes.Base.Errors.{ok, err, ◌>>=◌, ◌>>◌, raise_if}
use kitdev_sandboxes.Base.Strings.{codes}
use kitdev_sandboxes.Base.Dict.{Dict, lookup, insert, erase, contains}
use kitdev_sandboxes.Checks.Unquote.{within}
use kitdev_sandboxes.Checks.Patterns.{codes_eq}
use kitdev_sandboxes.Journal.Policy.{Metadata, is_directory, is_regular}
use kitdev_sandboxes.PrivateEnv.Document.{Codes, Values, Checked, Networks, value}
use kitdev_sandboxes.PrivateEnv.Operations.{
  EnvFile, absent, linked_away, present, EnvHost, read_document, Printed,
}

-- `rstrip("\n")`
unfoldable pub strip_newlines : Codes → Codes
strip_newlines [] = []
strip_newlines (c ∷ cs) = elim (strip_newlines cs) [
  | [] ↦ if c == 0x0a then [] else c ∷ []
  | d ∷ ds ↦ c ∷ d ∷ ds
]

abbrev is_key_character : ℕ → Bool
is_key_character c =
    within b'A' b'Z' c
    || within b'a' b'z' c
    || within b'0' b'9' c
    || c == b'.'
    || c == b'_'
    || c == b'-'

-- `API_KEY`
unfoldable pub is_api_key : Codes → Bool
is_api_key cs = all is_key_character cs && within 16 512 (length cs)

-- The key of a file's bytes.
unfoldable pub api_key_of : Codes → Checked Codes
unfolding strip_newlines is_api_key codes_eq
api_key_of raw = do
  raise_if (any (λ c. leb 0x80 c) raw) "e2e_api_key_invalid"
  let key = strip_newlines raw
  raise_if (not (is_api_key key)) "e2e_api_key_invalid"
  raise_if (not (codes_eq raw key || codes_eq raw (key ++ (0x0a ∷ [])))) "e2e_api_key_invalid"
  ok key

unfoldable pub read_api_key : EnvFile → Checked Codes
unfolding api_key_of
read_api_key absent = err "e2e_api_key_open_failed"
read_api_key linked_away = err "e2e_api_key_open_failed"
read_api_key (present m links raw) = do
  raise_if
      (not (is_regular m.kind)
        || not (m.uid == 0)
        || not (m.gid == 0)
        || not (m.mode == 384)
        || not (links == 1)
        || ltb 513 (length raw))
      "e2e_api_key_metadata_conflict"
  api_key_of raw

abbrev pub Entries : Type 0
Entries = Dict Codes

-- What goes wrong with a new file: nothing; it cannot be made; some bytes are written, and a write, the
-- flush or the test on the file fails for a reason; or it is written whole, and cannot be closed.
pub data Fault : Type 0 where
  unharmed uncreated : Fault
  broken : ℕ → String → Fault
  unclosed : String → Fault

abbrev pub take : ℕ → Codes → Codes
take zero cs = []
take (suc n) [] = []
take (suc n) (c ∷ cs) = c ∷ take n cs

-- `os.unlink` under `suppress(OSError)`; the Boolean says whether the name can be removed.
abbrev pub remove : Bool → String → Entries → Entries
remove true name es = erase name es
remove false name es = es

-- A new file. A failure of its writing removes it, if it can be removed; one of its closing does not.
unfoldable pub write_exclusive_at :
    Fault → Bool → String → Codes → Entries → Checked (Unit {0}) × Entries
unfolding contains insert erase
write_exclusive_at fault removable name payload es =
    if contains name es then (err "e2e_config_create_failed", es) else elim fault [
      | unharmed ↦ (ok tt, insert name payload es)
      | uncreated ↦ (err "e2e_config_create_failed", es)
      | broken n reason ↦ (err reason, remove removable name (insert name (take n payload) es))
      | unclosed reason ↦ (err reason, insert name payload es)
    ]

-- The directory of the configurations, and what happens during a run: whether it can be opened and is
-- then still the same, the faults of the two files, a failure behind them (of a flush or a test, or
-- because the directory is another one), a failure to close the directory, and which of the names
-- can be removed. A failure of the clean-up itself changes no more than the reason that is shown, and
-- is left out.
pub record Output : Type 0 where
  pub metadata : Option Metadata
  pub entries : Entries
  pub opens : Bool
  pub replaced : Bool
  pub admin_fault : Fault
  pub api_fault : Fault
  pub end_fault : Option String
  pub close_fault : Option String
  pub admin_removable : Bool
  pub api_removable : Bool

abbrev pub admin_header : Codes → Codes
admin_header token = codes "header = \"X-Admin-Token: " ++ (token ++ codes "\"\n")

abbrev pub api_header : Codes → Codes
api_header key = codes "header = \"X-API-Key: " ++ (key ++ codes "\"\n")

-- What follows the second file, where a failure removes the files that were made.
abbrev pub after_api : Output → Checked (Unit {0}) × Entries → Checked (Unit {0}) × Entries
after_api o (err e, es) = (err e, remove o.admin_removable "admin.curlrc" es)
after_api o (ok _, es) = elim o.end_fault [
  | some reason ↦
      (err reason, remove o.admin_removable "admin.curlrc" (remove o.api_removable "api.curlrc" es))
  | none ↦ (ok tt, es)
]

abbrev pub after_admin :
    Output → Codes → Checked (Unit {0}) × Entries → Checked (Unit {0}) × Entries
after_admin o key (err e, es) = (err e, es)
after_admin o key (ok _, es) =
    after_api o (write_exclusive_at o.api_fault o.api_removable "api.curlrc" (api_header key) es)

-- `os.close(parent)`
abbrev pub close_parent :
    Option String → Checked (Unit {0}) × Entries → Checked (Unit {0}) × Entries
close_parent none r = r
close_parent (some reason) r = (err reason, r.1)

-- The two files.
unfoldable pub write_files : Output → Codes → Codes → Checked (Unit {0}) × Entries
unfolding write_exclusive_at erase
write_files o token key = elim o.opens [
  | false ↦ (err "e2e_config_parent_open_failed", o.entries)
  | true ↦ close_parent o.close_fault (elim o.replaced [
    | true ↦ (err "e2e_config_parent_changed", o.entries)
    | false ↦ after_admin o key (
        write_exclusive_at o.admin_fault o.admin_removable "admin.curlrc" (admin_header token)
          o.entries)
  ])
]

unfoldable pub require_output : Output → Checked (Unit {0})
require_output o = elim o.metadata [
  | none ↦ err "e2e_config_parent_missing"
  | some m ↦
      raise_if
        (not (is_directory m.kind) || not (m.uid == 0) || not (m.gid == 0) || not (m.mode == 448))
        "e2e_config_parent_conflict"
]

abbrev pub some_values : Option Values → Checked Values
some_values none = err "private_env_missing"
some_values (some d) = ok d

-- The token of the administrator and the API key, where everything is in order.
unfoldable pub gather : Networks → EnvHost → EnvFile → Output → Checked (Codes × Codes)
unfolding read_document read_api_key require_output lookup
gather networks h key_file o = do
  found ← read_document networks h
  d ← some_values found
  require_output o
  key ← read_api_key key_file
  ok (value "ADMIN_TOKEN" d, key)

abbrev pub reported : Checked (Unit {0}) × Entries → Checked Printed × Entries
reported (err e, es) = (err e, es)
reported (ok _, es) = (ok (codes "status=pass operation=write-e2e-curl-configs" ∷ []), es)

abbrev pub gathered : Output → Checked (Codes × Codes) → Checked Printed × Entries
gathered o (err e) = (err e, o.entries)
gathered o (ok (token, key)) = reported (write_files o token key)

unfoldable pub write_e2e_configs : Networks → EnvHost → EnvFile → Output → Checked Printed × Entries
unfolding gather write_files
write_e2e_configs networks h key_file o = gathered o (gather networks h key_file o)
