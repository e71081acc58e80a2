-- ===== src/Journal/Texts.antt =====
-- The journal's errors, and its checks of texts (`_text`, `_hash`). A text is the sequence of its
-- code points here, with lone surrogates if it holds some.
use kitdev_sandboxes.Base.{
  ℕ, String, ◌<>◌, Bool, true, false, not, ◌&&◌, ◌||◌, List, [], ◌∷◌, leb, ltb, ◌==◌, any, all,
  length, Option, none, some,
}
use kitdev_sandboxes.Base.Errors.{Result, ◌>>◌, raise_if}
use kitdev_sandboxes.Base.Strings.{codes}
use kitdev_sandboxes.Checks.Unquote.{within}
use kitdev_sandboxes.Checks.Patterns.{
  codes_eq, utf8_size, is_control, contains_secret, contains_pem, is_stable_id,
}
use kitdev_sandboxes.Planning.Checked.{decoded_twice}

-- A Python text.
abbrev pub Codes : Type 0
Codes = List ℕ

-- `JournalConflict`, `JournalSecurityError`, `JournalCorrupt`, and the exceptions of Python's own.
pub data JournalError : Type 0 where
  conflict security corrupt invalid mistyped : String → JournalError

abbrev pub Checked : Type 0 → Type 0
Checked = Result JournalError

abbrev pub is_surrogate : ℕ → Bool
is_surrogate c = within 0xd800 0xdfff c

-- `unicodedata.category(c) == "Cf"`, by the tables of Unicode 15.
unfoldable pub is_format : ℕ → Bool
is_format c =
    c == 0xad
    || within 0x600 0x605 c
    || c == 0x61c
    || c == 0x6dd
    || c == 0x70f
    || within 0x890 0x891 c
    || c == 0x8e2
    || c == 0x180e
    || within 0x200b 0x200f c
    || within 0x202a 0x202e c
    || within 0x2060 0x2064 c
    || within 0x2066 0x206f c
    || c == 0xfeff
    || within 0xfff9 0xfffb c
    || c == 0x110bd
    || c == 0x110cd
    || within 0x13430 0x1343f c
    || within 0x1bca0 0x1bca3 c
    || within 0x1d173 0x1d17a c
    || c == 0xe0001
    || within 0xe0020 0xe007f c

abbrev pub max_journal_text_bytes : ℕ
max_journal_text_bytes = 4096

-- `_ID_RE`
unfoldable pub is_journal_id : Codes → Bool
is_journal_id cs = is_stable_id cs && leb (length cs) 128

-- `_text`
unfoldable pub checked_text : String → Codes → Bool → Checked (Unit {0})
unfolding is_format is_journal_id
checked_text name value stable_id = do
  raise_if (any is_surrogate value) (invalid (name <> " is not valid UTF-8"))
  let decoded = decoded_twice value
  raise_if
      (length value == 0
        || ltb max_journal_text_bytes (utf8_size value)
        || any is_control decoded
        || any is_format decoded
        || contains_secret decoded
        || contains_pem decoded)
      (invalid (name <> " is empty, oversized, contains controls, or resembles secret material"))
  raise_if (stable_id && not (is_journal_id value))
      (invalid (name <> " is not a stable identifier"))

abbrev is_hex : ℕ → Bool
is_hex c = within b'0' b'9' c || within b'a' b'f' c

abbrev is_digest : Codes → Bool
is_digest cs = all is_hex cs && length cs == 64

abbrev after_prefix : Codes → Codes → Option Codes
after_prefix [] cs = some cs
after_prefix (k ∷ ks) [] = none
after_prefix (k ∷ ks) (c ∷ cs) = elim (k == c) [ true ↦ after_prefix ks cs | false ↦ none ]

-- `_HASH_RE`
unfoldable pub is_journal_hash : Codes → Bool
is_journal_hash cs = elim (after_prefix (codes "sha256:") cs) [
  | none ↦ false
  | some digest ↦ is_digest digest
]

-- `_hash`
unfoldable pub checked_hash : String → Codes → Checked (Unit {0})
checked_hash name value =
    raise_if (not (is_journal_hash value)) (invalid (name <> " must be a lowercase sha256 digest"))

-- The text begins with a literal.
unfoldable pub starts_with : Codes → Codes → Bool
starts_with [] cs = true
starts_with (k ∷ ks) [] = false
starts_with (k ∷ ks) (c ∷ cs) = k == c && starts_with ks cs

-- `_safe_path_component`
unfoldable pub safe_path_component : Codes → Bool
unfolding is_format codes_eq utf8_size
safe_path_component cs =
    not (any is_surrogate cs)
    && not (codes_eq cs [])
    && not (codes_eq cs (codes "."))
    && not (codes_eq cs (codes ".."))
    && leb (utf8_size cs) 255
    && not (any is_control cs)
    && not (any is_format cs)
