-- ===== src/Journal/Codec.antt =====
-- `as_dict`, `_encode` and `_decode`. Bytes are numbers; the text of a record is ASCII, so that its
-- bytes are its code points. `json_loads` stands for `json.loads(raw.decode("utf-8"))`, which
-- returns nothing where one of the two raises.
use kitdev_sandboxes.Base.{
  ℕ, Bool, true, false, not, ◌||◌, List, [], ◌∷◌, ◌++◌, ltb, ◌==◌, if◌then◌else◌, Option, none,
  some, length, String, ◌<>◌,
}
use kitdev_sandboxes.Base.Errors.{Result, ok, err, ◌>>=◌, ◌>>◌, raise_if}
use kitdev_sandboxes.Base.Strings.{codes}
use kitdev_sandboxes.Checks.Patterns.{codes_eq}
use kitdev_sandboxes.Journal.Texts.{Codes, JournalError, corrupt, invalid, mistyped, Checked}
use kitdev_sandboxes.Journal.Record.{
  JournalState, state_value, ResourceRecord, resource_record, JournalRecord, journal_record,
  state_of,
}
use kitdev_sandboxes.Journal.Json.{
  Json, text, integer, array, object, Items, end, item, Members, empty, member, get_member,
  has_keys, dumps,
}

abbrev pub Bytes : Type 0
Bytes = List ℕ

abbrev pub key : String → Json → Members → Members
key k v d = member (codes k) v d

unfoldable pub resource_as_dict : ResourceRecord → Json
resource_as_dict r = object (
    key "id" (text r.resource_id) (
      key "target" (text r.target) (
        key "prior_state" (text r.prior_state) (key "desired_state" (text r.desired_state) empty))))

unfoldable pub resource_items : List ResourceRecord → Items
unfolding resource_as_dict
resource_items [] = end
resource_items (r ∷ rs) = item (resource_as_dict r) (resource_items rs)

abbrev pub state_json : JournalState → Json
state_json s = text (codes (state_value s))

unfoldable pub transition_items : List JournalState → Items
transition_items [] = end
transition_items (s ∷ ss) = item (state_json s) (transition_items ss)

unfoldable pub as_dict : JournalRecord → Json
unfolding resource_items transition_items state_of state_value
as_dict r = object (
    key "schema_version" (integer r.schema_version) (
      key "install_id" (text r.install_id) (
        key "plan_id" (text r.plan_id) (
          key "plan_hash" (text r.plan_hash) (
            key "resources" (array (resource_items r.resources)) (
              key "state" (state_json (state_of r))
                (key "transitions" (array (transition_items r.transitions)) empty)))))))

abbrev pub max_journal_bytes : ℕ
max_journal_bytes = 1048576

-- The bytes of a record, however many they are.
unfoldable pub canonical : JournalRecord → Bytes
unfolding as_dict dumps
canonical r = dumps (as_dict r) ++ codes "\n"

-- `_encode`
unfoldable pub encode : JournalRecord → Checked Bytes
unfolding canonical
encode r =
    if ltb max_journal_bytes (length (canonical r))
    then err (invalid "journal exceeds its global byte limit")
    else ok (canonical r)

-- `payload[key]`
abbrev pub required : String → Members → Checked Json
required k d = elim (get_member (codes k) d) [ none ↦ err (invalid k) | some v ↦ ok v ]

-- A value that is passed to `_text`.
abbrev pub as_text : String → Json → Checked Codes
as_text name (text s) = ok s
as_text name _ = err (mistyped (name <> " must be a string"))

abbrev pub as_version : Json → Checked ℕ
as_version (integer n) = ok n
as_version _ = err (invalid "journal schema_version must be 1")

abbrev pub resource_keys : List Codes
resource_keys = codes "id" ∷ codes "target" ∷ codes "prior_state" ∷ codes "desired_state" ∷ []

abbrev pub journal_keys : List Codes
journal_keys =
    codes "schema_version"
    ∷ codes "install_id"
    ∷ codes "plan_id"
    ∷ codes "plan_hash"
    ∷ codes "resources"
    ∷ codes "state"
    ∷ codes "transitions"
    ∷ []

-- The fields of a resource, before its constructor checks them.
unfoldable pub resource_fields : Members → Checked ResourceRecord
unfolding get_member has_keys
resource_fields d = do
  raise_if (not (has_keys resource_keys d)) (invalid "invalid resource shape")
  i ← required "id" d
  t ← required "target" d
  p ← required "prior_state" d
  q ← required "desired_state" d
  resource_id ← as_text "resource_id" i
  target ← as_text "target" t
  prior ← as_text "prior_state" p
  desired ← as_text "desired_state" q
  ok (record {
    resource_id = resource_id;
    target = target;
    prior_state = prior;
    desired_state = desired;
  })

-- One item of "resources"; anything but an object with exactly these keys fails, since the lists'
-- lengths then differ.
unfoldable pub decode_resource : Json → Checked ResourceRecord
unfolding resource_fields
decode_resource (object d) = do r ← resource_fields d; resource_record r
decode_resource _ = err (invalid "invalid resource shape")

unfoldable pub decode_resources : Items → Checked (List ResourceRecord)
unfolding decode_resource
decode_resources end = ok []
decode_resources (item x xs) = do r ← decode_resource x; rs ← decode_resources xs; ok (r ∷ rs)

abbrev pub as_items : String → Json → Checked Items
as_items message (array xs) = ok xs
as_items message _ = err (invalid message)

abbrev pub all_states : List JournalState
all_states =
    JournalState.planned ∷ JournalState.applying ∷ JournalState.applied ∷ JournalState.validated
    ∷ JournalState.rolling_back ∷ JournalState.rolled_back ∷ JournalState.failed ∷ []

-- The state whose value is the text.
unfoldable pub find_state : Codes → List JournalState → Checked JournalState
unfolding codes_eq state_value
find_state cs [] = err (invalid "not a valid JournalState")
find_state cs (s ∷ ss) = elim (codes_eq cs (codes (state_value s))) [
  | true ↦ ok s
  | false ↦ find_state cs ss
]

-- `JournalState(item)`
unfoldable pub decode_state : Json → Checked JournalState
unfolding find_state
decode_state (text cs) = find_state cs all_states
decode_state _ = err (invalid "not a valid JournalState")

unfoldable pub decode_states : Items → Checked (List JournalState)
unfolding decode_state
decode_states end = ok []
decode_states (item x xs) = do s ← decode_state x; ss ← decode_states xs; ok (s ∷ ss)

-- `payload["state"] != record.state.value`, negated.
abbrev pub is_state_text : Json → JournalState → Bool
is_state_text (text cs) s = codes_eq cs (codes (state_value s))
is_state_text _ s = false

unfoldable pub listed_resources : Members → Checked (List ResourceRecord)
unfolding decode_resources get_member
listed_resources d = do
  raw_resources ← required "resources" d
  listed ← as_items "resources is not a list" raw_resources
  decode_resources listed

unfoldable pub listed_transitions : Members → Checked (List JournalState)
unfolding decode_states get_member
listed_transitions d = do
  raw_transitions ← required "transitions" d
  history ← as_items "transitions is not a list" raw_transitions
  decode_states history

-- The arguments of `JournalRecord(…)`, but for the resources, before its constructor checks them.
unfoldable pub journal_fields : List ResourceRecord → Members → Checked JournalRecord
unfolding listed_transitions get_member
journal_fields resources d = do
  transitions ← listed_transitions d
  i ← required "install_id" d
  p ← required "plan_id" d
  h ← required "plan_hash" d
  v ← required "schema_version" d
  version ← as_version v
  install ← as_text "install_id" i
  plan ← as_text "plan_id" p
  hash ← as_text "plan_hash" h
  ok (record {
    install_id = install;
    plan_id = plan;
    plan_hash = hash;
    resources = resources;
    transitions = transitions;
    schema_version = version;
  })

-- The record of a parsed document, before it is compared with the bytes.
unfoldable pub decode_members : Members → Checked JournalRecord
unfolding listed_resources journal_fields has_keys
decode_members d = do
  raise_if (not (has_keys journal_keys d)) (invalid "invalid top-level shape")
  resources ← listed_resources d
  fields ← journal_fields resources d
  journal_record fields

unfoldable pub decode_object : Bytes → Members → Checked JournalRecord
unfolding decode_members
decode_object raw d = do
  r ← decode_members d
  state ← required "state" d
  raise_if (not (is_state_text state (state_of r)))
      (invalid "journal is not canonical or state is inconsistent")
  bytes ← encode r
  raise_if (not (codes_eq bytes raw)) (invalid "journal is not canonical or state is inconsistent")
  ok r

unfoldable pub decode_payload : Bytes → Option Json → Checked JournalRecord
unfolding decode_object
decode_payload raw (some (object d)) = decode_object raw d
decode_payload raw (some _) = err (invalid "invalid top-level shape")
decode_payload raw none = err (invalid "not JSON")

-- `except (KeyError, TypeError, ValueError, UnicodeDecodeError)`
unfoldable pub as_corrupt {ℓ} : {A : Type ℓ} → Result JournalError A → Result JournalError A
as_corrupt (ok a) = ok a
as_corrupt (err e) = err (corrupt "journal content is invalid")

-- `_decode`
unfoldable pub decode : (Bytes → Option Json) → Bytes → Checked JournalRecord
unfolding decode_payload as_corrupt
decode json_loads raw =
    if length raw == 0 || ltb max_journal_bytes (length raw)
    then err (corrupt "journal is empty or oversized")
    else as_corrupt (decode_payload raw (json_loads raw))
