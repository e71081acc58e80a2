-- ===== src/Journal/Record.antt =====
-- `JournalState`, its transitions, `ResourceRecord` and `JournalRecord`, with the checks that the
-- constructors make.
use kitdev_sandboxes.Base.{
  ℕ, ◌≡◌, String, Bool, true, false, not, ◌&&◌, ◌||◌, List, [], ◌∷◌, ltb, ◌==◌, map, if◌then◌else◌,
  any, length, All,
}
use kitdev_sandboxes.Base.Errors.{ok, ◌>>◌, raise_if}
use kitdev_sandboxes.Base.Strings.{codes, codes_leb}
use kitdev_sandboxes.Base.Sort.{sort_by}
use kitdev_sandboxes.Checks.Unquote.{unquote}
use kitdev_sandboxes.Checks.Patterns.{codes_eq}
use kitdev_sandboxes.Planning.Paths.{split_slash}
use kitdev_sandboxes.Journal.Texts.{
  Codes, Checked, invalid, checked_text, checked_hash, starts_with,
}

pub data JournalState : Type 0 where
  planned applying applied validated rolling_back rolled_back failed : JournalState

-- `state.value`
unfoldable pub state_value : JournalState → String
state_value JournalState.planned = "planned"
state_value JournalState.applying = "applying"
state_value JournalState.applied = "applied"
state_value JournalState.validated = "validated"
state_value JournalState.rolling_back = "rolling_back"
state_value JournalState.rolled_back = "rolled_back"
state_value JournalState.failed = "failed"

-- `current in _ALLOWED_TRANSITIONS[previous]`
unfoldable pub allowed : JournalState → JournalState → Bool
allowed JournalState.planned JournalState.applying = true
allowed JournalState.planned JournalState.failed = true
allowed JournalState.applying JournalState.applied = true
allowed JournalState.applying JournalState.rolling_back = true
allowed JournalState.applying JournalState.failed = true
allowed JournalState.applied JournalState.validated = true
allowed JournalState.applied JournalState.rolling_back = true
allowed JournalState.applied JournalState.failed = true
allowed JournalState.validated JournalState.rolling_back = true
allowed JournalState.rolling_back JournalState.rolled_back = true
allowed JournalState.rolling_back JournalState.failed = true
allowed JournalState.failed JournalState.rolling_back = true
allowed _ _ = false

abbrev pub is_planned : JournalState → Bool
is_planned JournalState.planned = true
is_planned _ = false

pub record ResourceRecord : Type 0 where
  pub resource_id : Codes
  pub target : Codes
  pub prior_state : Codes
  pub desired_state : Codes

-- `"//" in text`
unfoldable pub has_double_slash : Codes → Bool
has_double_slash [] = false
has_double_slash (c ∷ []) = false
has_double_slash (c ∷ d ∷ cs) = c == b'/' && d == b'/' || has_double_slash (d ∷ cs)

unfoldable pub ends_with_slash : Codes → Bool
ends_with_slash [] = false
ends_with_slash (c ∷ []) = c == b'/'
ends_with_slash (c ∷ d ∷ cs) = ends_with_slash (d ∷ cs)

abbrev is_dots : Codes → Bool
is_dots cs = codes_eq cs (codes ".") || codes_eq cs (codes "..")

-- The test on a target that has been decoded twice.
unfoldable pub ambiguous_target : Codes → Bool
unfolding has_double_slash ends_with_slash split_slash codes_eq
ambiguous_target decoded =
    starts_with (codes "//") decoded
    || has_double_slash decoded
    || (not (codes_eq decoded (codes "/")) && ends_with_slash decoded)
    || any is_dots (split_slash [] decoded)

unfoldable pub resource_record : ResourceRecord → Checked ResourceRecord
unfolding checked_text
resource_record r = do
  checked_text "resource_id" r.resource_id true
  checked_text "target" r.target false
  raise_if (ambiguous_target (unquote (unquote r.target)))
      (invalid "target contains an ambiguous or traversing path component")
  checked_text "prior_state" r.prior_state false
  checked_text "desired_state" r.desired_state false
  ok r

-- The order of the dataclass: field by field.
unfoldable pub resource_leb : ResourceRecord → ResourceRecord → Bool
unfolding codes_leb codes_eq
resource_leb a b =
    if not (codes_eq a.resource_id b.resource_id)
    then codes_leb a.resource_id b.resource_id
    else if not (codes_eq a.target b.target)
    then codes_leb a.target b.target
    else if not (codes_eq a.prior_state b.prior_state)
    then codes_leb a.prior_state b.prior_state
    else codes_leb a.desired_state b.desired_state

unfoldable pub resource_eq : ResourceRecord → ResourceRecord → Bool
unfolding codes_eq
resource_eq a b =
    codes_eq a.resource_id b.resource_id
    && codes_eq a.target b.target
    && codes_eq a.prior_state b.prior_state
    && codes_eq a.desired_state b.desired_state

unfoldable pub resources_eq : List ResourceRecord → List ResourceRecord → Bool
unfolding resource_eq
resources_eq [] [] = true
resources_eq (a ∷ as1) (b ∷ bs) = resource_eq a b && resources_eq as1 bs
resources_eq _ _ = false

-- `len(set(ids)) == len(ids)`
unfoldable pub all_distinct : List Codes → Bool
unfolding codes_eq
all_distinct [] = true
all_distinct (x ∷ xs) = not (any (codes_eq x) xs) && all_distinct xs

pub record JournalRecord : Type 0 where
  pub install_id : Codes
  pub plan_id : Codes
  pub plan_hash : Codes
  pub resources : List ResourceRecord
  pub transitions : List JournalState
  pub schema_version : ℕ

abbrev pub begins_planned : List JournalState → Bool
begins_planned [] = false
begins_planned (s ∷ ss) = is_planned s

-- The loop over neighbours.
unfoldable pub follows : List JournalState → Bool
unfolding allowed
follows [] = true
follows (a ∷ []) = true
follows (a ∷ b ∷ ss) = allowed a b && follows (b ∷ ss)

abbrev pub max_resources : ℕ
max_resources = 512

abbrev pub max_transitions : ℕ
max_transitions = 4096

unfoldable pub journal_record : JournalRecord → Checked JournalRecord
journal_record r = do
  raise_if (not (r.schema_version == 1)) (invalid "journal schema_version must be 1")
  checked_text "install_id" r.install_id true
  checked_text "plan_id" r.plan_id true
  checked_hash "plan_hash" r.plan_hash
  raise_if (length r.resources == 0 || ltb max_resources (length r.resources))
      (invalid "resources is empty or exceeds its bound")
  raise_if (not (resources_eq (sort_by resource_leb r.resources) r.resources))
      (invalid "resources must be sorted canonically")
  raise_if (not (all_distinct (map (λ x. x.resource_id) r.resources)))
      (invalid "resource identifiers must be unique")
  raise_if (not (begins_planned r.transitions)) (invalid "the first transition must be planned")
  raise_if (ltb max_transitions (length r.transitions))
      (invalid "transition history exceeds its bound")
  raise_if (not (follows r.transitions)) (invalid "invalid journal transition")
  ok r

-- The last of the states behind a first one.
unfoldable pub last_state : JournalState → List JournalState → JournalState
last_state s [] = s
last_state s (t ∷ ts) = last_state t ts

-- `record.state`; a record has a state, its history begins as planned.
unfoldable pub state_of : JournalRecord → JournalState
unfolding last_state
state_of r = elim r.transitions [ [] ↦ JournalState.planned | s ∷ ss ↦ last_state s ss ]

-- What every record that is passed around satisfies: the constructors have accepted it.
abbrev pub IsRecord : JournalRecord → Type 0
IsRecord r = (journal_record r ≡ ok r) × All (λ x. resource_record x ≡ ok x) r.resources
