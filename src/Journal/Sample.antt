-- ===== src/Journal/Sample.antt =====
-- A journal of one resource, a host that parses its documents, and a directory that holds it.
use kitdev_sandboxes.Base.{ℕ, true, false, [], ◌∷◌, ◌++◌, Option, none, some}
use kitdev_sandboxes.Base.Strings.{codes}
use kitdev_sandboxes.Checks.Patterns.{codes_eq}
use kitdev_sandboxes.Journal.Texts.{Codes}
use kitdev_sandboxes.Journal.Record.{JournalState, ResourceRecord, JournalRecord}
use kitdev_sandboxes.Journal.Json.{Json, ordered}
use kitdev_sandboxes.Journal.Codec.{Bytes, as_dict, canonical}
use kitdev_sandboxes.Journal.Policy.{FileKind, Metadata, JournalSecurityPolicy}
use kitdev_sandboxes.Journal.Directory.{Directory}
use kitdev_sandboxes.Journal.Files.{filename_of}
use kitdev_sandboxes.Journal.Store.{Host, with_state}

abbrev pub state_directory : ResourceRecord
state_directory = record {
  resource_id = codes "directory.state";
  target = codes "/var/lib/kitdev-sandboxes";
  prior_state = codes "absent";
  desired_state = codes "present";
}

abbrev zeros : Codes
zeros = codes "0000000000000000000000000000000000000000000000000000000000000000"

abbrev pub demo : JournalRecord
demo = record {
  install_id = codes "demo";
  plan_id = codes "plan.demo";
  plan_hash = codes "sha256:" ++ zeros;
  resources = state_directory ∷ [];
  transitions = JournalState.planned ∷ [];
  schema_version = 1;
}

abbrev pub demo_applying : JournalRecord
demo_applying = with_state demo JournalState.applying

-- A parser of the two documents that the tests write.
unfoldable pub demo_loads : Bytes → Option Json
demo_loads raw = elim (codes_eq raw (canonical demo)) [
  | true ↦ some (ordered (as_dict demo))
  | false ↦ elim (codes_eq raw (canonical demo_applying)) [
    | true ↦ some (ordered (as_dict demo_applying))
    | false ↦ none
  ]
]

abbrev pub owned_file : Metadata
owned_file = record { kind = FileKind.regular; uid = 0; gid = 0; mode = 384 }

abbrev pub owned_directory : Metadata
owned_directory = record { kind = FileKind.directory; uid = 0; gid = 0; mode = 448 }

abbrev pub demo_policy : JournalSecurityPolicy
demo_policy = record {
  expected_owner_uid = 0;
  directory_mode = 448;
  file_mode = 384;
  stat_validator = none;
  trusted_prefix = none;
  expected_owner_gid = 0;
}

abbrev token_of : ℕ → Codes
token_of n = codes "0123456789abcdef0123456789abcdef"

abbrev pub demo_host : Host
demo_host = record {
  policy = demo_policy;
  json_loads = demo_loads;
  created = owned_file;
  token = token_of;
}

abbrev pub demo_name : Codes
demo_name = filename_of (codes "demo")

abbrev pub empty_directory : Directory
empty_directory = record {
  entries = [];
  nodes = λ i. record { metadata = owned_file; content = [] };
}

abbrev pub demo_directory : Directory
demo_directory = record {
  entries = (demo_name, 0) ∷ [];
  nodes = λ i. record { metadata = owned_file; content = canonical demo };
}
