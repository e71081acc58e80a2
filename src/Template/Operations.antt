-- ===== src/Template/Operations.antt =====
-- `load`, `write` and `main`: one run of the script on the journal file. The clock is an argument.
use kitdev_sandboxes.Base.{
  ℕ, String, str_eq, Bool, true, false, not, ◌&&◌, ◌||◌, Option, none, some, List, [], ◌∷◌,
  if◌then◌else◌, ltb,
}
use kitdev_sandboxes.Base.Dict.{lookup, insert}
use kitdev_sandboxes.Base.Errors.{ok, err, ◌>>=◌, ◌>>◌, raise_if}
use kitdev_sandboxes.Base.Strings.{codes}
use kitdev_sandboxes.Template.Record.{
  Field, text, number, null, Document, state_error, invalid_json, Checked, is_template_id,
  is_build_id, is_version, is_hash, alias_of, is_text, validate_record,
}

pub data Operation : Type 0 where
  reserve candidate publish show rollback migrate_definition : Operation

-- The parsed arguments. `--product` is one of the keys of `ALIASES`, so its alias is given with it.
pub record Arguments : Type 0 where
  pub operation : Operation
  pub product : String
  pub version : String
  pub definition_sha256 : String
  pub prior_definition_sha256 : Option String
  pub template_id : Option String
  pub build_id : Option String

-- What stands at the journal's path: nothing, a file whose type, owner, mode or links fail the
-- metadata check, or a file that passes them, with text that is not JSON, JSON that is no object, or
-- an object; the size of the text is checked too.
pub data JournalFile : Type 0 where
  absent untrusted : JournalFile
  garbled scalar : ℕ → JournalFile
  holding : ℕ → Document → JournalFile

abbrev pub max_journal_size : ℕ
max_journal_size = 16384

-- The metadata check on the size.
abbrev check_size : ℕ → Checked (Unit {0})
check_size size = raise_if (ltb max_journal_size size) (state_error "journal_metadata_invalid")

unfoldable pub load : JournalFile → Checked (Option Document)
load absent = ok none
load untrusted = err (state_error "journal_metadata_invalid")
load (garbled size) = do check_size size; err invalid_json
load (scalar size) = do check_size size; err (state_error "record_not_object")
load (holding size d) = do check_size size; v ← validate_record d; ok (some v)

-- The outcome of a run: what it prints or raises, and the file that it leaves.
abbrev pub Outcome : Type 0
Outcome = Checked Document × JournalFile

-- What a run finds besides the file: whether the directory passes the metadata check, and the size of
-- a record's text, as `json.dumps` makes it, with the line feed.
pub record Place : Type 0 where
  pub is_trusted : Bool
  pub size_of : Document → ℕ

-- `write` followed by the print. The file is replaced as a whole, and only after every check; there
-- is none on the size.
unfoldable pub write : Place → JournalFile → Document → Outcome
write place file d = elim (validate_record d) [
  | err e ↦ (err e, file)
  | ok v ↦
      if place.is_trusted
      then (ok d, holding (place.size_of d) d)
      else (err (state_error "journal_directory_invalid"), file)
]

-- `expected`
unfoldable pub expected : Arguments → Checked String
expected args = elim (alias_of args.product) [
  | none ↦ err (state_error "invalid_choice")
  | some alias ↦ do
    raise_if (not (is_version (codes args.version))) (state_error "version_invalid")
    raise_if (not (is_hash (codes args.definition_sha256))) (state_error "definition_hash_invalid")
    ok alias
]

-- Product, alias and version of the record are those of the arguments.
unfoldable pub same_product : Document → Arguments → String → Bool
same_product d args alias =
    is_text (lookup "product" d) args.product
    && is_text (lookup "alias" d) alias
    && is_text (lookup "version" d) args.version

-- The test of `require_match`.
unfoldable pub matches : Document → Arguments → String → Bool
matches d args alias =
    same_product d args alias && is_text (lookup "definition_sha256" d) args.definition_sha256

-- `record.get(k) == argument`
unfoldable pub same_argument : Option Field → Option String → Bool
same_argument none none = true
same_argument (some null) none = true
same_argument (some (text t)) (some s) = str_eq t s
same_argument _ _ = false

abbrev pub codes_or_empty : Option String → List ℕ
codes_or_empty none = []
codes_or_empty (some s) = codes s

abbrev pub text_or_null : Option String → Field
text_or_null none = null
text_or_null (some s) = text s

unfoldable pub reserved_record : Arguments → String → String → Document
reserved_record args alias now =
    ("schema_version", number 1)
    ∷ ("product", text args.product)
    ∷ ("alias", text alias)
    ∷ ("version", text args.version)
    ∷ ("state", text "reserved")
    ∷ ("definition_sha256", text args.definition_sha256)
    ∷ ("created_at", text now)
    ∷ []

-- `record["state"] == s`
abbrev pub in_state : Document → String → Bool
in_state d s = is_text (lookup "state" d) s

unfoldable pub run_migrate : Arguments → String → String → Place → JournalFile → Document → Outcome
run_migrate args alias now place file d =
    let prior = args.prior_definition_sha256 in
    if not (same_product d args alias)
      || not (in_state d "qualified_private")
      || not (same_argument (lookup "definition_sha256" d) prior)
      || not (is_hash (codes_or_empty prior))
    then (err (state_error "definition_migration_not_authorized"), file)
    else write place file (
        insert "definition_migrated_at" (text now)
          (insert "definition_sha256" (text args.definition_sha256) d))

unfoldable pub run_candidate : Arguments → Place → JournalFile → Document → Outcome
run_candidate args place file d =
    if in_state d "reserved"
    then if not (is_template_id (codes_or_empty args.template_id))
        || not (is_build_id (codes_or_empty args.build_id))
      then (err (state_error "candidate_ids_invalid"), file)
      else write place file (
          insert "state" (text "qualified_private") (
            insert "build_id" (text_or_null args.build_id)
              (insert "template_id" (text_or_null args.template_id) d)))
    else if not (same_argument (lookup "template_id" d) args.template_id)
        || not (same_argument (lookup "build_id" d) args.build_id)
    then (err (state_error "candidate_ownership_conflict"), file)
    else (ok d, file)

unfoldable pub run_publish : String → Place → JournalFile → Document → Outcome
run_publish now place file d =
    if in_state d "qualified_private"
    then write place file (insert "published_at" (text now) (insert "state" (text "published") d))
    else if not (in_state d "published")
    then (err (state_error "publish_state_invalid"), file)
    else (ok d, file)

unfoldable pub run_rollback : String → Place → JournalFile → Document → Outcome
run_rollback now place file d =
    if not (in_state d "qualified_private" || in_state d "published" || in_state d "rolled_back")
    then (err (state_error "rollback_state_invalid"), file)
    else if not (in_state d "rolled_back")
    then write place file
        (insert "rolled_back_at" (text now) (insert "state" (text "rolled_back") d))
    else (ok d, file)

-- The operations on a record that matches the arguments.
unfoldable pub run_matched :
    Operation → Arguments → String → Place → JournalFile → Document → Outcome
run_matched Operation.candidate args now place file d = run_candidate args place file d
run_matched Operation.publish args now place file d = run_publish now place file d
run_matched Operation.rollback args now place file d = run_rollback now place file d
run_matched Operation.reserve args now place file d = (ok d, file)
run_matched Operation.show args now place file d = (ok d, file)
run_matched Operation.migrate_definition args now place file d =
    (err (state_error "unreachable"), file)

-- What the operation does without a record.
unfoldable pub run_missing : Operation → Arguments → String → String → Place → JournalFile → Outcome
run_missing Operation.reserve args alias now place file =
    write place file (reserved_record args alias now)
run_missing _ args alias now place file = (err (state_error "journal_missing"), file)

-- What the operation does with a record.
unfoldable pub run_present :
    Operation → Arguments → String → String → Place → JournalFile → Document → Outcome
run_present Operation.migrate_definition args alias now place file d =
    run_migrate args alias now place file d
run_present operation args alias now place file d =
    if not (matches d args alias)
    then (err (state_error "journal_ownership_conflict"), file)
    else run_matched operation args now place file d

-- `main`: one run.
unfoldable pub run : Arguments → String → Place → JournalFile → Outcome
run args now place file = elim (expected args) [
  | err e ↦ (err e, file)
  | ok alias ↦ elim (load file) [
    | err e ↦ (err e, file)
    | ok none ↦ run_missing args.operation args alias now place file
    | ok (some d) ↦ run_present args.operation args alias now place file d
  ]
]
