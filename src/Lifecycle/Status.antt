-- ===== src/Lifecycle/Status.antt =====
-- The line that the script prints for "status", and how `run_lifecycle` reads it. Python's tables of
-- letters and digits beyond ASCII are parameters.
use kitdev_sandboxes.Base.{
  ℕ, Bool, true, false, not, ◌&&◌, ◌||◌, List, [], ◌∷◌, ◌++◌, Option, none, some, leb, ◌==◌,
  if◌then◌else◌, all, any, length, map, String,
}
use kitdev_sandboxes.Base.Strings.{codes}
use kitdev_sandboxes.Checks.Unquote.{within}
use kitdev_sandboxes.Checks.Patterns.{codes_eq, is_space}

abbrev pub Codes : Type 0
Codes = List ℕ

-- The text without leading white space.
unfoldable pub strip_left : Codes → Codes
unfolding is_space
strip_left [] = []
strip_left (c ∷ cs) = elim (is_space c) [ true ↦ strip_left cs | false ↦ c ∷ cs ]

-- The text without trailing white space.
unfoldable pub strip_right : Codes → Codes
unfolding is_space
strip_right [] = []
strip_right (c ∷ cs) = elim (strip_right cs) [
  | [] ↦ if is_space c then [] else c ∷ []
  | d ∷ ds ↦ c ∷ d ∷ ds
]

-- `text.split(" ")`, with the token that is being read.
unfoldable pub split_space : Codes → Codes → List Codes
split_space token [] = token ∷ []
split_space token (c ∷ cs) = elim (c == b' ') [
  | true ↦ token ∷ split_space [] cs
  | false ↦ split_space (token ++ (c ∷ [])) cs
]

-- `token.split("=", 1)`, or nothing without an equals sign.
unfoldable pub split_equals : Codes → Option (Codes × Codes)
split_equals [] = none
split_equals (c ∷ cs) = elim (c == b'=') [
  | true ↦ some ([], cs)
  | false ↦ elim (split_equals cs) [ none ↦ none | some p ↦ some (c ∷ p.0, p.1) ]
]

abbrev pub Fields : Type 0
Fields = List (Codes × Codes)

unfoldable pub get_field : Codes → Fields → Option Codes
unfolding codes_eq
get_field k [] = none
get_field k ((j, v) ∷ fs) = elim (codes_eq k j) [ true ↦ some v | false ↦ get_field k fs ]

-- The value, or the empty text.
abbrev pub value_of : String → Fields → Codes
value_of k fs = elim (get_field (codes k) fs) [ none ↦ [] | some v ↦ v ]

abbrev pub one_of : Codes → List String → Bool
one_of v choices = any (λ s. codes_eq v (codes s)) choices

abbrev pub expected_keys : List String
expected_keys = "api" ∷ "compose" ∷ "firecrackers" ∷ "orchestrator" ∷ "proxy" ∷ "status" ∷ []

-- `str.isdigit` of one character.
abbrev pub is_digit : (ℕ → Bool) → ℕ → Bool
is_digit wide_digit c = within b'0' b'9' c || (leb 0x80 c && wide_digit c)

-- `sorted(expected - {"status"})`
abbrev pub health_keys : List String
health_keys = "api" ∷ "compose" ∷ "firecrackers" ∷ "orchestrator" ∷ "proxy" ∷ []

abbrev pub health_of : Fields → List (String × Codes)
health_of fs = map (λ k. (k, value_of k fs)) health_keys

module _ (wide_alnum wide_digit : ℕ → Bool) where
  -- `str.isalnum` of one character.
  abbrev is_alnum : ℕ → Bool
  is_alnum c =
      within b'0' b'9' c || within b'A' b'Z' c || within b'a' b'z' c || (leb 0x80 c && wide_alnum c)

  -- `key.replace("_", "").isalnum()`; a key of underscores alone is not.
  unfoldable pub is_key : Codes → Bool
  is_key cs = all (λ c. c == b'_' || is_alnum c) cs && not (all (λ c. c == b'_') cs)

  -- The loop over the tokens; a field that is refused ends it.
  unfoldable pub read_fields : Fields → List Codes → Option Fields
  unfolding split_equals get_field is_key
  read_fields fields [] = some fields
  read_fields fields (t ∷ ts) = elim (split_equals t) [
    | none ↦ none
    | some (key, value) ↦ elim (get_field key fields) [
      | some v ↦ none
      | none ↦
          let rest = read_fields ((key, value) ∷ fields) ts in
          if length key == 0 || length value == 0 || not (is_key key) then none else rest
    ]
  ]

  -- The keys are those expected, and each value is one that the script may print.
  unfoldable pub fields_valid : Fields → Bool
  unfolding get_field codes_eq
  fields_valid fs =
      all (λ f. one_of f.0 expected_keys) fs
      && all (λ k. any (λ f. codes_eq f.0 (codes k)) fs) expected_keys
      && one_of (value_of "status" fs) ("pass" ∷ "degraded" ∷ [])
      && one_of (value_of "orchestrator" fs) ("active" ∷ "inactive" ∷ [])
      && one_of (value_of "compose" fs) ("running" ∷ "stopped" ∷ [])
      && one_of (value_of "api" fs) ("healthy" ∷ "unreachable" ∷ [])
      && one_of (value_of "proxy" fs) ("healthy" ∷ "unreachable" ∷ [])
      && not (length (value_of "firecrackers" fs) == 0)
      && all (is_digit wide_digit) (value_of "firecrackers" fs)
      && leb (length (value_of "firecrackers" fs)) 4

  -- The health that an output shows, if it is in order.
  unfoldable pub read_status : Codes → Option (List (String × Codes))
  unfolding strip_left strip_right split_space read_fields fields_valid
  read_status output = elim (read_fields [] (split_space [] (strip_right (strip_left output)))) [
    | none ↦ none
    | some fs ↦ if fields_valid fs then some (health_of fs) else none
  ]
