-- ===== src/Checks/Patterns.antt =====
-- The regular expressions and tests on decoded texts.
use kitdev_sandboxes.Base.{
  ℕ, ◌+◌, ◌-◌, Bool, true, false, ◌&&◌, ◌||◌, Option, none, some, List, [], ◌∷◌, ltb, ◌==◌,
  if◌then◌else◌, any, all,
}
use kitdev_sandboxes.Base.Strings.{codes}
use kitdev_sandboxes.Checks.Unquote.{within}

-- Equality of sequences of code points.
unfoldable pub codes_eq : List ℕ → List ℕ → Bool
codes_eq [] [] = true
codes_eq (x ∷ xs) (y ∷ ys) = x == y && codes_eq xs ys
codes_eq _ _ = false

-- The bytes of a text in UTF-8.
unfoldable pub utf8_size : List ℕ → ℕ
utf8_size [] = 0
utf8_size (c ∷ cs) =
    (if ltb c 0x80 then 1 else if ltb c 0x800 then 2 else if ltb c 0x10000 then 3 else 4)
    + utf8_size cs

-- `[\x00-\x1f\x7f-\x9f]`
abbrev pub is_control : ℕ → Bool
is_control c = ltb c 0x20 || within 0x7f 0x9f c

-- What a letter is compared as under `re.IGNORECASE`.
abbrev pub fold_case : ℕ → ℕ
fold_case c =
    if within b'A' b'Z' c
    then c + 32
    else if c == 0x130 || c == 0x131
    then b'i'
    else if c == 0x17f
    then b's'
    else if c == 0x212a
    then b'k'
    else c

-- `\s`
unfoldable pub is_space : ℕ → Bool
is_space c =
    within 9 13 c
    || within 28 32 c
    || c == 0x85
    || c == 0xa0
    || c == 0x1680
    || within 0x2000 0x200a c
    || within 0x2028 0x2029 c
    || c == 0x202f
    || c == 0x205f
    || c == 0x3000

-- What is left behind a literal that the text begins with, letters compared by `fold`.
pub strip_prefix : (ℕ → ℕ) → List ℕ → List ℕ → Option (List ℕ)
strip_prefix fold [] cs = some cs
strip_prefix fold (k ∷ ks) [] = none
strip_prefix fold (k ∷ ks) (c ∷ cs) =
    let rest = strip_prefix fold ks cs in if fold c == k then rest else none

-- `\s*[:=]`
pub assigns : List ℕ → Bool
unfolding is_space
assigns [] = false
assigns (c ∷ cs) = let rest = assigns cs in if is_space c then rest else c == b':' || c == b'='

abbrev pub secret_words : List (List ℕ)
secret_words =
    codes "authorization"
    ∷ codes "cookie"
    ∷ codes "password"
    ∷ codes "secret"
    ∷ codes "token"
    ∷ codes "apikey"
    ∷ codes "api_key"
    ∷ codes "api-key"
    ∷ codes "accesskey"
    ∷ codes "access_key"
    ∷ codes "access-key"
    ∷ codes "credential"
    ∷ codes "x-amz-signature"
    ∷ codes "x-amz-credential"
    ∷ codes "x-amz-security-token"
    ∷ []

secret_here : List ℕ → List ℕ → Bool
unfolding strip_prefix assigns
secret_here cs word = elim (strip_prefix fold_case word cs) [
  | none ↦ false
  | some rest ↦ assigns rest
]

-- The search for a secret-shaped assignment.
unfoldable pub contains_secret : List ℕ → Bool
unfolding secret_here
contains_secret [] = false
contains_secret (c ∷ cs) = any (secret_here (c ∷ cs)) secret_words || contains_secret cs

-- `str.upper`, as far as it makes a letter of "BEGIN".
abbrev upper : ℕ → ℕ
upper c = if within b'a' b'z' c then c - 32 else if c == 0x131 then b'I' else c

-- `"-----BEGIN " in decoded.upper()`
unfoldable pub contains_pem : List ℕ → Bool
unfolding strip_prefix
contains_pem [] = false
contains_pem (c ∷ cs) =
    elim (strip_prefix upper (codes "-----BEGIN ") (c ∷ cs)) [ none ↦ false | some _ ↦ true ]
    || contains_pem cs

abbrev pub is_id_head : ℕ → Bool
is_id_head c = within b'a' b'z' c

-- `[a-z0-9_.-]`
abbrev pub is_id_part : ℕ → Bool
is_id_part c = within b'a' b'z' c || within b'0' b'9' c || c == b'_' || c == b'.' || c == b'-'

-- `^[a-z][a-z0-9_.-]*$`
unfoldable pub is_stable_id : List ℕ → Bool
is_stable_id [] = false
is_stable_id (c ∷ cs) = is_id_head c && all is_id_part cs
