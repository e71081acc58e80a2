-- ===== src/PrivateEnv/Operations.antt =====
-- `read_document`, `write_document` and the operations of `main`, but for the curl configurations.
-- The caller is root, and nothing else changes the file during a run.
use kitdev_sandboxes.Base.{
  ℕ, String, ◌<>◌, Bool, true, false, not, ◌&&◌, ◌||◌, List, [], ◌∷◌, Option, none, some, leb, ltb,
  ◌==◌, if◌then◌else◌, all, any, length, map,
}
use kitdev_sandboxes.Base.Errors.{ok, err, ◌>>=◌, ◌>>◌, raise_if}
use kitdev_sandboxes.Base.Strings.{codes}
use kitdev_sandboxes.Base.Dict.{lookup, insert, contains}
use kitdev_sandboxes.Checks.Patterns.{codes_eq}
use kitdev_sandboxes.Journal.Policy.{FileKind, Metadata, is_directory, is_regular}
use kitdev_sandboxes.PrivateEnv.Document.{
  Codes, Values, Checked, Networks, all_keys, image_keys, network_keys, postgres_url,
  clickhouse_url, value, validate, split_lines, read_lines, payload,
}

-- What stands at `ENV_PATH`: nothing, a symbolic link, or a file with its links and bytes.
pub data EnvFile : Type 0 where
  absent linked_away : EnvFile
  present : Metadata → ℕ → Codes → EnvFile

pub record EnvHost : Type 0 where
  pub parent : Option Metadata
  pub file : EnvFile

unfoldable pub require_parent : EnvHost → Checked (Unit {0})
require_parent h = elim h.parent [
  | none ↦ err "private_env_parent_missing"
  | some m ↦
      raise_if
        (not (is_directory m.kind) || not (m.uid == 0) || not (m.gid == 0) || not (m.mode == 448))
        "private_env_parent_conflict"
]

abbrev pub max_env_bytes : ℕ
max_env_bytes = 65536

-- The values of a file's bytes.
unfoldable pub parse_document : Networks → Codes → Checked Values
parse_document networks raw = do
  raise_if (ltb max_env_bytes (length raw)) "private_env_too_large"
  raise_if (any (λ c. leb 0x80 c) raw) "private_env_invalid_encoding"
  d ← read_lines (split_lines raw false []) []
  validate networks d
  ok d

unfoldable pub read_file : Networks → EnvFile → Checked (Option Values)
unfolding parse_document
read_file networks absent = ok none
read_file networks linked_away = err "private_env_open_failed"
read_file networks (present m links raw) = do
  raise_if
      (not (is_regular m.kind)
        || not (m.uid == 0)
        || not (m.gid == 0)
        || not (m.mode == 384)
        || not (links == 1))
      "private_env_metadata_conflict"
  d ← parse_document networks raw
  ok (some d)

unfoldable pub read_document : Networks → EnvHost → Checked (Option Values)
unfolding require_parent read_file
read_document networks h = do require_parent h; read_file networks h.file

abbrev pub private_file : Metadata
private_file = record { kind = FileKind.regular; uid = 0; gid = 0; mode = 384 }

abbrev pub private_directory : Metadata
private_directory = record { kind = FileKind.directory; uid = 0; gid = 0; mode = 448 }

-- A file that holds the values' lines, as `write_document` publishes it.
abbrev pub written : Values → EnvFile
written d = present private_file 1 (payload all_keys d)

-- `mkdir(mode=0o700, exist_ok=True)`
abbrev pub with_parent : EnvHost → EnvHost
with_parent h = record h {
  parent = elim h.parent [ none ↦ some private_directory | some m ↦ some m ];
}

-- The publication of the temporary file: by replacement, or by a link that fails on a name that is
-- taken.
unfoldable pub publish_env : Bool → EnvFile → EnvFile → Checked EnvFile
publish_env true new old = ok new
publish_env false new absent = ok new
publish_env false new _ = err "private_env_concurrent_creation"

-- What `write_document` checks behind `validate`. A parent that is no directory is refused as
-- `require_parent` refuses it; every operation has called that before.
unfoldable pub prepare : Values → EnvHost → Checked (Unit {0})
unfolding require_parent payload
prepare d h = do
  require_parent (with_parent h)
  raise_if (any (λ c. leb 0x80 c) (payload all_keys d)) "UnicodeEncodeError"

unfoldable pub write_document : Networks → Values → Bool → EnvHost → Checked (Unit {0}) × EnvHost
unfolding prepare publish_env validate
write_document networks d replace h = elim (validate networks d) [
  | err e ↦ (err e, h)
  | ok _ ↦ elim (prepare d h) [
    | err e ↦ (err e, with_parent h)
    | ok _ ↦ elim (publish_env replace (written d) h.file) [
      | err e ↦ (err e, with_parent h)
      | ok f ↦ (ok tt, record (with_parent h) { file = f })
    ]
  ]
]

-- `updated.update(zip(keys, arguments))`
unfoldable pub put_all : List String → List Codes → Values → Values
unfolding insert
put_all (k ∷ ks) (v ∷ vs) d = put_all ks vs (insert k v d)
put_all _ _ d = d

unfoldable pub same_values : Values → Values → Bool
unfolding codes_eq lookup contains
same_values a b =
    all (λ k. codes_eq (value k a) (value k b)) all_keys
    && all (λ k. if contains k a then contains k b else not (contains k b)) all_keys

abbrev pub Printed : Type 0
Printed = List Codes

-- A final `read_document`, and the report.
abbrev pub confirm : Networks → Printed → EnvHost → Checked Printed
confirm networks printed h = do _ ← read_document networks h; ok printed

abbrev pub after_write :
    Networks → Printed → Checked (Unit {0}) × EnvHost → Checked Printed × EnvHost
after_write networks printed (err e, h) = (err e, h)
after_write networks printed (ok _, h) = (confirm networks printed h, h)

abbrev pub report : String → String → Printed
report operation result = codes ("status=pass operation=" <> operation <> " result=" <> result) ∷ []

unfoldable pub update_values :
    Networks → List String → List Codes → String → Values → EnvHost → Checked Printed × EnvHost
unfolding put_all same_values write_document read_document
update_values networks keys arguments operation d h =
    let updated = put_all keys arguments d in
    if same_values updated d
    then (confirm networks (report operation "unchanged") h, h)
    else after_write networks (report operation "updated") (write_document networks updated true h)

abbrev pub update_read :
    Networks
    → List String
    → List Codes
    → String
    → EnvHost
    → Checked (Option Values)
    → Checked Printed × EnvHost
update_read networks keys arguments operation h (err e) = (err e, h)
update_read networks keys arguments operation h (ok none) = (err "private_env_missing", h)
update_read networks keys arguments operation h (ok (some d)) =
    update_values networks keys arguments operation d h

-- `update`
unfoldable pub update :
    Networks → List String → List Codes → String → EnvHost → Checked Printed × EnvHost
unfolding update_values read_document
update networks keys arguments operation h =
    if not (length arguments == length keys)
    then (err "invalid_arguments", h)
    else update_read networks keys arguments operation h (read_document networks h)

-- The four results of `token_hex(32)`.
pub record Tokens : Type 0 where
  pub postgres : Codes
  pub clickhouse : Codes
  pub seed : Codes
  pub admin : Codes

unfoldable pub fresh_values : Tokens → Values
unfolding postgres_url clickhouse_url
fresh_values t =
    ("POSTGRES_PASSWORD", t.postgres)
    ∷ ("POSTGRES_CONNECTION_STRING", postgres_url t.postgres)
    ∷ ("CLICKHOUSE_USER", codes "kitdev")
    ∷ ("CLICKHOUSE_PASSWORD", t.clickhouse)
    ∷ ("CLICKHOUSE_CONNECTION_STRING", clickhouse_url t.clickhouse)
    ∷ ("SANDBOX_ACCESS_TOKEN_HASH_SEED", t.seed)
    ∷ ("ADMIN_TOKEN", t.admin)
    ∷ []

abbrev pub bootstrap_read :
    Networks → Tokens → EnvHost → Checked (Option Values) → Checked Printed × EnvHost
bootstrap_read networks t h (err e) = (err e, h)
bootstrap_read networks t h (ok (some d)) = (ok (report "bootstrap-private-env" "unchanged"), h)
bootstrap_read networks t h (ok none) =
    after_write networks (report "bootstrap-private-env" "created")
      (write_document networks (fresh_values t) false h)

unfoldable pub bootstrap : Networks → Tokens → EnvHost → Checked Printed × EnvHost
unfolding read_document write_document fresh_values
bootstrap networks t h = bootstrap_read networks t h (read_document networks h)

pub data EnvCommand : Type 0 where
  bootstrap_command : Tokens → EnvCommand
  verify_command get_network get_images : EnvCommand
  set_images set_network : List Codes → EnvCommand

-- The values of the keys, if all are there.
abbrev show_values : List String → String → Option Values → Checked Printed
show_values keys reason none = err reason
show_values keys reason (some d) =
    if all (λ k. contains k d) keys then ok (map (λ k. value k d) keys) else err reason

abbrev verified : Option Values → Checked Printed
verified none = err "private_env_missing"
verified (some d) = ok (codes "status=pass operation=verify-private-env" ∷ [])

-- `main`
unfoldable pub run_command : Networks → EnvCommand → EnvHost → Checked Printed × EnvHost
unfolding bootstrap read_document update
run_command networks (bootstrap_command t) h = bootstrap networks t h
run_command networks verify_command h = ((do o ← read_document networks h; verified o), h)
run_command networks get_network h =
    ((do o ← read_document networks h; show_values network_keys "private_env_network_missing" o), h)
run_command networks get_images h =
    ((do o ← read_document networks h; show_values image_keys "private_env_images_missing" o), h)
run_command networks (set_images arguments) h = update networks image_keys arguments "set-images" h
run_command networks (set_network arguments) h =
    update networks network_keys arguments "set-network" h
