-- ===== src/PrivateEnv/Document.antt =====
-- The keys of the file, `validate`, and the lines that are read and written. Texts are code points.
-- What `ipaddress` tells of the two network values is a parameter.
use kitdev_sandboxes.Base.{
  ℕ, ◌+◌, ◌-◌, ◌/◌, ◌%◌, String, Bool, true, false, not, ◌&&◌, ◌||◌, List, [], ◌∷◌, ◌++◌, Option,
  none, some, ltb, ◌==◌, if◌then◌else◌, all, any, length,
}
use kitdev_sandboxes.Base.Errors.{Result, ok, err, ◌>>=◌, ◌>>◌, raise_if}
use kitdev_sandboxes.Base.Strings.{codes}
use kitdev_sandboxes.Base.Dict.{Dict, lookup, contains}
use kitdev_sandboxes.Checks.Unquote.{within}
use kitdev_sandboxes.Checks.Patterns.{codes_eq}

abbrev pub Codes : Type 0
Codes = List ℕ

abbrev pub Values : Type 0
Values = Dict Codes

-- The exit with code 65 and the reason, or the name of an exception that is not caught.
abbrev pub Checked : Type 0 → Type 0
Checked = Result String

abbrev pub secret_keys : List String
secret_keys =
    "POSTGRES_PASSWORD" ∷ "POSTGRES_CONNECTION_STRING" ∷ "CLICKHOUSE_USER" ∷ "CLICKHOUSE_PASSWORD"
    ∷ "CLICKHOUSE_CONNECTION_STRING" ∷ "SANDBOX_ACCESS_TOKEN_HASH_SEED" ∷ "ADMIN_TOKEN" ∷ []

abbrev pub image_keys : List String
image_keys =
    "E2B_API_IMAGE_REF" ∷ "E2B_DB_MIGRATOR_IMAGE_REF" ∷ "E2B_CLICKHOUSE_MIGRATOR_IMAGE_REF"
    ∷ "E2B_CLIENT_PROXY_IMAGE_REF" ∷ []

abbrev pub network_keys : List String
network_keys = "KITDEV_CORE_SUBNET" ∷ "KITDEV_CORE_GATEWAY" ∷ []

abbrev pub all_keys : List String
all_keys = secret_keys ++ (image_keys ++ network_keys)

abbrev pub is_hex : ℕ → Bool
is_hex c = within b'0' b'9' c || within b'a' b'f' c

-- `HEX64`
unfoldable pub is_hex64 : Codes → Bool
is_hex64 cs = all is_hex cs && length cs == 64

unfoldable pub after_prefix : Codes → Codes → Option Codes
after_prefix [] cs = some cs
after_prefix (k ∷ ks) [] = none
after_prefix (k ∷ ks) (c ∷ cs) = elim (k == c) [ true ↦ after_prefix ks cs | false ↦ none ]

-- `IMAGE_REF`
unfoldable pub is_image_ref : Codes → Bool
unfolding is_hex64 after_prefix
is_image_ref cs = elim (after_prefix (codes "sha256:") cs) [ none ↦ false | some d ↦ is_hex64 d ]

abbrev pub unreserved : ℕ → Bool
unreserved c =
    within b'0' b'9' c
    || within b'A' b'Z' c
    || within b'a' b'z' c
    || c == b'_'
    || c == b'.'
    || c == b'-'
    || c == b'~'

abbrev pub hex_upper : ℕ → ℕ
hex_upper d = if ltb d 10 then b'0' + d else b'A' + (d - 10)

-- `quote(text, safe="")` of an ASCII text.
unfoldable pub quote : Codes → Codes
quote [] = []
quote (c ∷ cs) =
    (if unreserved c then c ∷ [] else b'%' ∷ hex_upper (c / 16 % 16) ∷ hex_upper (c % 16) ∷ [])
    ++ quote cs

unfoldable pub postgres_url : Codes → Codes
unfolding quote
postgres_url password =
    codes "postgres://kitdev:" ++ (quote password ++ codes "@postgres:5432/kitdev?sslmode=disable")

unfoldable pub clickhouse_url : Codes → Codes
unfolding quote
clickhouse_url password =
    codes "clickhouse://kitdev:" ++ (quote password ++ codes "@clickhouse:9000/default")

-- `values[key]`, of a key that is there.
abbrev pub value : String → Values → Codes
value k d = elim (lookup k d) [ none ↦ [] | some v ↦ v ]

-- What `ipaddress` tells of a subnet and a gateway that it can parse.
pub record Network : Type 0 where
  pub version : ℕ
  pub is_private : Bool
  pub holds_gateway : Bool
  pub gateway_is_edge : Bool
  pub overlaps_reserved : Bool

-- The keys are all there, or none of them is.
abbrev partial : List String → Values → Bool
partial keys d = any (λ k. contains k d) keys && not (all (λ k. contains k d) keys)

abbrev pub hex_keys : List String
hex_keys =
    "POSTGRES_PASSWORD" ∷ "CLICKHOUSE_PASSWORD" ∷ "SANDBOX_ACCESS_TOKEN_HASH_SEED" ∷ "ADMIN_TOKEN"
    ∷ []

abbrev pub Networks : Type 0
Networks = Codes → Codes → Option Network

-- The part of `validate` about the network.
unfoldable pub validate_network : Networks → Values → Checked (Unit {0})
unfolding contains
validate_network networks d =
    if all (λ k. contains k d) network_keys
    then elim (networks (value "KITDEV_CORE_SUBNET" d) (value "KITDEV_CORE_GATEWAY" d)) [
      | none ↦ err "private_env_invalid_network"
      | some n ↦ do
        raise_if
            (not (n.version == 4) || not n.is_private || not n.holds_gateway || n.gateway_is_edge)
            "private_env_invalid_network"
        raise_if n.overlaps_reserved "private_env_network_overlap"
    ]
    else ok tt

unfoldable pub validate : Networks → Values → Checked (Unit {0})
unfolding contains
validate networks d = do
  raise_if (any (λ k. not (contains k d)) secret_keys) "private_env_missing_secret"
  raise_if (not (all (λ k. is_hex64 (value k d)) hex_keys)) "private_env_invalid_secret"
  raise_if (not (codes_eq (value "CLICKHOUSE_USER" d) (codes "kitdev")))
      "private_env_invalid_clickhouse_user"
  raise_if
      (not (
        codes_eq (value "POSTGRES_CONNECTION_STRING" d)
          (postgres_url (value "POSTGRES_PASSWORD" d))))
      "private_env_postgres_url_mismatch"
  raise_if
      (not (
        codes_eq (value "CLICKHOUSE_CONNECTION_STRING" d)
          (clickhouse_url (value "CLICKHOUSE_PASSWORD" d))))
      "private_env_clickhouse_url_mismatch"
  raise_if (partial image_keys d) "private_env_partial_image_refs"
  raise_if (not (all (λ k. not (contains k d) || is_image_ref (value k d)) image_keys))
      "private_env_invalid_image_ref"
  raise_if (partial network_keys d) "private_env_partial_network"
  validate_network networks d

-- Where `str.splitlines` ends a line of an ASCII text.
abbrev pub is_line_break : ℕ → Bool
is_line_break c = within 0x0a 0x0d c || within 0x1c 0x1e c

-- The line that a text ends with, if its last line break has something behind it.
abbrev pub last_line : Codes → List Codes
last_line [] = []
last_line (l ∷ line) = (l ∷ line) ∷ []

-- `text.splitlines()`, with the line that is being read, and whether the last character was a
-- carriage return, which a line feed belongs to.
unfoldable pub split_lines : Codes → Bool → Codes → List Codes
split_lines [] cr line = last_line line
split_lines (c ∷ cs) cr line = elim (cr && c == 0x0a) [
  | true ↦ split_lines cs false line
  | false ↦ elim (is_line_break c) [
    | true ↦ line ∷ split_lines cs (c == 0x0d) []
    | false ↦ split_lines cs false (line ++ (c ∷ []))
  ]
]

-- `line.split("=", 1)`, or nothing without an equals sign.
unfoldable pub split_equals : Codes → Option (Codes × Codes)
split_equals [] = none
split_equals (c ∷ cs) = elim (c == b'=') [
  | true ↦ some ([], cs)
  | false ↦ elim (split_equals cs) [ none ↦ none | some p ↦ some (c ∷ p.0, p.1) ]
]

-- The key of `ALL_KEYS` that the text is.
unfoldable pub find_key : Codes → List String → Option String
unfolding codes_eq
find_key cs [] = none
find_key cs (k ∷ ks) = elim (codes_eq cs (codes k)) [ true ↦ some k | false ↦ find_key cs ks ]

abbrev pub begins_comment : Codes → Bool
begins_comment [] = true
begins_comment (c ∷ cs) = c == b'#'

-- One line: a key that is known and new, and its value.
unfoldable pub read_line : Codes → Values → Checked Values
read_line line d = elim (split_equals line) [
  | none ↦ err "private_env_invalid_line"
  | some (k, v) ↦ elim (begins_comment line) [
    | true ↦ err "private_env_invalid_line"
    | false ↦ elim (find_key k all_keys) [
      | none ↦ err "private_env_invalid_schema"
      | some key ↦
          if contains key d || length v == 0
          then err "private_env_invalid_schema"
          else ok (d ++ ((key, v) ∷ []))
    ]
  ]
]

unfoldable pub read_lines : List Codes → Values → Checked Values
read_lines [] d = ok d
read_lines (line ∷ lines) d = do d' ← read_line line d; read_lines lines d'

-- The lines of `write_document`, for the keys of a list.
unfoldable pub payload : List String → Values → Codes
payload [] d = []
payload (k ∷ ks) d =
    let rest = payload ks d in
    elim (lookup k d) [ none ↦ rest | some v ↦ codes k ++ (b'=' ∷ (v ++ (0x0a ∷ rest))) ]
