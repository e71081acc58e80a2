-- ===== src/Template/Record.antt =====
-- The journal's record, as JSON gives it, and `validate_record`.
use kitdev_sandboxes.Base.{
  ℕ, zero, suc, ◌+◌, ◌/◌, ◌%◌, String, str_eq, Bool, true, false, not, ◌&&◌, ◌||◌, Option, none,
  some, List, [], ◌∷◌, ◌++◌, map, leb, ltb, ◌==◌, if◌then◌else◌, all, length,
}
use kitdev_sandboxes.Base.Dict.{Dict, lookup}
use kitdev_sandboxes.Base.Errors.{Result, ok, err, ◌>>=◌, ◌>>◌, raise_if}
use kitdev_sandboxes.Base.Strings.{codes, str_mem}
use kitdev_sandboxes.Checks.Unquote.{within}

-- A JSON value as far as the script tells values apart. `one` is a value that equals 1 and is not
-- the integer (true, 1.0); `constant` is any other scalar; `compound` is a list or an object.
pub data Field : Type 0 where
  text : String → Field
  number : ℕ → Field
  null one constant compound : Field

abbrev pub Document : Type 0
Document = Dict Field

-- A `StateError` with its reason, a `TypeError` of a set membership test on a list or an object,
-- or text that is not JSON.
pub data StateError : Type 0 where
  state_error : String → StateError
  unhashable invalid_json : StateError

abbrev pub Checked : Type 0 → Type 0
Checked = Result StateError

-- The decimal digits of a number, on fuel.
unfoldable pub decimal_digits : ℕ → ℕ → List ℕ → List ℕ
decimal_digits zero n acc = acc
decimal_digits (suc fuel) n acc =
    let here = (b'0' + n % 10) ∷ acc in
    let more = decimal_digits fuel (n / 10) here in if ltb n 10 then here else more

-- `str(value)`; the texts of other scalars and of compounds match none of the patterns below.
unfoldable pub text_of : Option Field → List ℕ
unfolding decimal_digits
text_of (some (text s)) = codes s
text_of (some (number n)) = decimal_digits (suc n) n []
text_of _ = []

abbrev is_digit : ℕ → Bool
is_digit c = within b'0' b'9' c

abbrev is_hex : ℕ → Bool
is_hex c = is_digit c || within b'a' b'f' c

-- `[a-z0-9]{16,32}`
unfoldable pub is_template_id : List ℕ → Bool
is_template_id cs =
    all (λ c. within b'a' b'z' c || is_digit c) cs && leb 16 (length cs) && leb (length cs) 32

-- The rest behind a run of `n` hexadecimal digits.
unfoldable pub hex_run : ℕ → List ℕ → Option (List ℕ)
hex_run zero cs = some cs
hex_run (suc n) [] = none
hex_run (suc n) (c ∷ cs) = let rest = hex_run n cs in if is_hex c then rest else none

-- Runs of hexadecimal digits with dashes between them.
unfoldable pub hex_groups : List ℕ → List ℕ → Bool
unfolding hex_run
hex_groups [] cs = false
hex_groups (n ∷ []) cs = elim (hex_run n cs) [ some [] ↦ true | _ ↦ false ]
hex_groups (n ∷ m ∷ ns) cs = elim (hex_run n cs) [
  | none ↦ false
  | some [] ↦ false
  | some (c ∷ rest) ↦ if c == b'-' then hex_groups (m ∷ ns) rest else false
]

-- `[0-9a-f]{8}-[0-9a-f]{4}-[0-9a-f]{4}-[0-9a-f]{4}-[0-9a-f]{12}`
unfoldable pub is_build_id : List ℕ → Bool
unfolding hex_groups
is_build_id = hex_groups (8 ∷ 4 ∷ 4 ∷ 4 ∷ 12 ∷ [])

-- `v[1-9][0-9]{0,5}`
unfoldable pub is_version : List ℕ → Bool
is_version (v ∷ d ∷ cs) = v == b'v' && within b'1' b'9' d && all is_digit cs && leb (length cs) 5
is_version _ = false

-- `[0-9a-f]{64}`
unfoldable pub is_hash : List ℕ → Bool
is_hash cs = all is_hex cs && length cs == 64

-- `ALIASES`
unfoldable pub alias_of : String → Option String
alias_of product =
    if str_eq product "coding"
    then some "kitdev-coding"
    else if str_eq product "browser-heavy"
    then some "kitdev-browser-heavy"
    else none

abbrev pub required_keys : List String
required_keys =
    "schema_version" ∷ "product" ∷ "alias" ∷ "version" ∷ "state" ∷ "definition_sha256"
    ∷ "created_at" ∷ []

abbrev pub allowed_keys : List String
allowed_keys =
    required_keys
    ++ ("template_id" ∷ "build_id" ∷ "published_at" ∷ "rolled_back_at" ∷ "definition_migrated_at"
        ∷ [])

abbrev pub keys : Document → List String
keys = map (λ e. e.0)

abbrev pub states : List String
states = "reserved" ∷ "qualified_private" ∷ "published" ∷ "rolled_back" ∷ []

-- `record[k] == s`
unfoldable pub is_text : Option Field → String → Bool
is_text (some (text t)) s = str_eq t s
is_text _ s = false

abbrev is_one : Option Field → Bool
is_one (some (number n)) = n == 1
is_one (some one) = true
is_one _ = false

-- `value in {…}` for a set of texts, which fails on what cannot be hashed.
abbrev in_set : Option Field → List String → Checked Bool
in_set (some (text t)) ss = ok (str_mem t ss)
in_set (some compound) ss = err unhashable
in_set _ ss = ok false

-- `product not in ALIASES or record["alias"] != ALIASES[product]`, negated.
abbrev owns_alias : Option Field → Option Field → Checked Bool
owns_alias (some (text p)) alias = elim (alias_of p) [
  | none ↦ ok false
  | some a ↦ ok (is_text alias a)
]
owns_alias (some compound) alias = err unhashable
owns_alias _ alias = ok false

unfoldable pub validate_record : Document → Checked Document
validate_record d = do
  raise_if
      (not
        (all (λ k. str_mem k (keys d)) required_keys && all (λ k. str_mem k allowed_keys) (keys d)))
      (state_error "record_keys_invalid")
  owned ← owns_alias (lookup "product" d) (lookup "alias" d)
  raise_if (not owned) (state_error "record_product_invalid")
  raise_if
      (not (is_one (lookup "schema_version" d)) || not (is_version (text_of (lookup "version" d))))
      (state_error "record_version_invalid")
  known ← in_set (lookup "state" d) states
  raise_if (not known) (state_error "record_state_invalid")
  raise_if (not (is_hash (text_of (lookup "definition_sha256" d))))
      (state_error "record_hash_invalid")
  let reserved = is_text (lookup "state" d) "reserved"
  raise_if (not reserved && not (is_template_id (text_of (lookup "template_id" d))))
      (state_error "record_template_id_invalid")
  raise_if (not reserved && not (is_build_id (text_of (lookup "build_id" d))))
      (state_error "record_build_id_invalid")
  ok d
