-- ===== src/Journal/Json.antt =====
-- JSON values, and `json.dumps(value, sort_keys=True, separators=(",", ":"), ensure_ascii=True)`.
use kitdev_sandboxes.Base.{
  ℕ, suc, ◌+◌, ◌-◌, ◌/◌, ◌%◌, Bool, true, false, ◌&&◌, List, [], ◌∷◌, ◌++◌, ltb, ◌==◌,
  if◌then◌else◌, Option, none, some, any, all,
}
use kitdev_sandboxes.Base.Strings.{codes, codes_leb}
use kitdev_sandboxes.Checks.Patterns.{codes_eq}
use kitdev_sandboxes.Checks.Unquote.{within}
use kitdev_sandboxes.Template.Record.{decimal_digits}
use kitdev_sandboxes.Journal.Texts.{Codes}

-- A value that `json.loads` returns. `constant` is a value of any other type: true, false, null, a
-- number that is negative or no integer, by its text.
mutual
  pub data Json : Type 0 where
    text constant : Codes → Json
    integer : ℕ → Json
    array : Items → Json
    object : Members → Json

  pub data Items : Type 0 where
    end : Items
    item : Json → Items → Items

  pub data Members : Type 0 where
    empty : Members
    member : Codes → Json → Members → Members

-- A dict's members by their keys: `d.get(k)`.
unfoldable pub get_member : Codes → Members → Option Json
unfolding codes_eq
get_member k empty = none
get_member k (member j v d) = elim (codes_eq k j) [ true ↦ some v | false ↦ get_member k d ]

unfoldable pub member_keys : Members → List Codes
member_keys empty = []
member_keys (member j v d) = j ∷ member_keys d

-- `set(d) == set(keys)`
unfoldable pub has_keys : List Codes → Members → Bool
unfolding member_keys codes_eq
has_keys keys d =
    all (λ k. any (codes_eq k) (member_keys d)) keys
    && all (λ k. any (codes_eq k) keys) (member_keys d)

unfoldable pub insert_member : Codes → Json → Members → Members
unfolding codes_leb
insert_member k v empty = member k v empty
insert_member k v (member j w d) = elim (codes_leb k j) [
  | true ↦ member k v (member j w d)
  | false ↦ member j w (insert_member k v d)
]

-- The value with the members of every object in the order of their keys.
unfoldable mutual
  unfolding insert_member

  pub ordered : Json → Json
  ordered (text s) = text s
  ordered (constant s) = constant s
  ordered (integer n) = integer n
  ordered (array xs) = array (ordered_items xs)
  ordered (object d) = object (ordered_members d)

  pub ordered_items : Items → Items
  ordered_items end = end
  ordered_items (item x xs) = item (ordered x) (ordered_items xs)

  pub ordered_members : Members → Members
  ordered_members empty = empty
  ordered_members (member k v d) = insert_member k (ordered v) (ordered_members d)

abbrev hex_digit : ℕ → ℕ
hex_digit d = if ltb d 10 then b'0' + d else b'a' + (d - 10)

-- `\uXXXX`
abbrev unicode_escape : ℕ → Codes
unicode_escape c =
    codes "\\u"
    ++ (hex_digit (c / 4096 % 16)
        ∷ hex_digit (c / 256 % 16)
        ∷ hex_digit (c / 16 % 16)
        ∷ hex_digit (c % 16)
        ∷ [])

-- How one character of a text is written: in ASCII, with a pair of surrogates above U+FFFF.
unfoldable pub escaped : ℕ → Codes
escaped c =
    if c == b'"'
    then codes "\\\""
    else if c == 0x5c
    then codes "\\\\"
    else if c == 0x0a
    then codes "\\n"
    else if c == 0x0d
    then codes "\\r"
    else if c == 0x09
    then codes "\\t"
    else if c == 0x0c
    then codes "\\f"
    else if c == 0x08
    then codes "\\b"
    else if within 0x20 0x7e c
    then c ∷ []
    else if ltb c 0x10000
    then unicode_escape c
    else unicode_escape (0xd800 + (c - 0x10000) / 1024)
      ++ unicode_escape (0xdc00 + (c - 0x10000) % 1024)

unfoldable pub escaped_all : Codes → Codes
unfolding escaped
escaped_all [] = []
escaped_all (c ∷ cs) = escaped c ++ escaped_all cs

unfoldable pub quoted : Codes → Codes
unfolding escaped_all
quoted cs = codes "\"" ++ (escaped_all cs ++ codes "\"")

-- The text of a value, without spaces.
unfoldable mutual
  unfolding quoted decimal_digits

  pub render : Json → Codes
  render (text s) = quoted s
  render (constant s) = s
  render (integer n) = decimal_digits (suc n) n []
  render (array xs) = codes "[" ++ (render_items xs ++ codes "]")
  render (object d) = codes "{" ++ (render_members d ++ codes "}")

  pub render_items : Items → Codes
  render_items end = []
  render_items (item x end) = render x
  render_items (item x (item y xs)) = render x ++ (codes "," ++ render_items (item y xs))

  pub render_members : Members → Codes
  render_members empty = []
  render_members (member k v empty) = quoted k ++ (codes ":" ++ render v)
  render_members (member k v (member j w d)) =
      quoted k ++ (codes ":" ++ (render v ++ (codes "," ++ render_members (member j w d))))

unfoldable pub dumps : Json → Codes
unfolding ordered render
dumps j = render (ordered j)
