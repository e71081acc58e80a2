-- ===== src/Capacity/Pool.antt =====
-- `parse_meminfo`, `validate_capacity`, `required_hugepages_2m` and `main`. The text is ASCII, which
-- `read_text` has checked, with numbers of as many digits as `int` takes. Negative arguments, which fail every range test, are left out.
use kitdev_sandboxes.Base.{
  ℕ, ◌+◌, ◌-◌, ◌*◌, ◌/◌, String, Bool, true, false, not, ◌||◌, List, [], ◌∷◌, ◌++◌, Option, none,
  some, ltb, ◌==◌, if◌then◌else◌, all,
}
use kitdev_sandboxes.Base.Errors.{Result, ok, err, Exception, value_error, ◌>>=◌, ◌>>◌, raise_if}
use kitdev_sandboxes.Base.Strings.{codes}
use kitdev_sandboxes.Checks.Unquote.{within}
use kitdev_sandboxes.Checks.Patterns.{codes_eq}

abbrev pub Checked : Type 0 → Type 0
Checked = Result Exception

abbrev pub Codes : Type 0
Codes = List ℕ

-- Where `str.splitlines` ends a line of an ASCII text; a carriage return before a line feed makes one
-- more, empty line here, which no line of facts is.
abbrev is_line_break : ℕ → Bool
is_line_break c = within 0x0a 0x0d c || within 0x1c 0x1e c

-- `str.split()` of an ASCII line: at tabs, line breaks and blanks.
abbrev is_blank : ℕ → Bool
is_blank c = within 9 13 c || within 0x1c 0x20 c

-- The pieces between separators, with the piece that is being read.
unfoldable pub split_at : (ℕ → Bool) → Codes → Codes → List Codes
split_at sep piece [] = piece ∷ []
split_at sep piece (c ∷ cs) = elim (sep c) [
  | true ↦ piece ∷ split_at sep [] cs
  | false ↦ split_at sep (piece ++ (c ∷ [])) cs
]

unfoldable pub nonempty : List Codes → List Codes
nonempty [] = []
nonempty ([] ∷ ps) = nonempty ps
nonempty ((c ∷ cs) ∷ ps) = (c ∷ cs) ∷ nonempty ps

-- `name[:-1]` of a name that ends with a colon.
unfoldable pub before_colon : Codes → Option Codes
before_colon [] = none
before_colon (c ∷ []) = if c == b':' then some [] else none
before_colon (c ∷ d ∷ cs) = elim (before_colon (d ∷ cs)) [
  | none ↦ none
  | some name ↦ some (c ∷ name)
]

abbrev is_digit : ℕ → Bool
is_digit c = within b'0' b'9' c

-- `int(text)` of decimal digits.
unfoldable pub number_of : ℕ → Codes → ℕ
number_of acc [] = acc
number_of acc (c ∷ cs) = number_of (acc * 10 + (c - 48)) cs

abbrev pub Values : Type 0
Values = List (Codes × ℕ)

-- `result[name] = value`, the latest first.
abbrev fact : Codes → Codes → Values → Values
fact name digits values = elim (before_colon name) [
  | none ↦ values
  | some n ↦ if all is_digit digits then (n, number_of 0 digits) ∷ values else values
]

unfoldable pub read_line : List Codes → Values → Values
unfolding before_colon number_of codes_eq
read_line (name ∷ digits ∷ []) values = fact name digits values
read_line (name ∷ digits ∷ unit ∷ []) values =
    if codes_eq unit (codes "kB") then fact name digits values else values
read_line _ values = values

unfoldable pub read_lines : List Codes → Values → Values
unfolding read_line split_at nonempty
read_lines [] values = values
read_lines (line ∷ lines) values =
    read_lines lines (read_line (nonempty (split_at is_blank [] line)) values)

unfoldable pub parse_meminfo : Codes → Values
unfolding read_lines
parse_meminfo text = read_lines (split_at is_line_break [] text) []

unfoldable pub get_value : Codes → Values → Option ℕ
unfolding codes_eq
get_value k [] = none
get_value k ((j, v) ∷ d) = elim (codes_eq k j) [ true ↦ some v | false ↦ get_value k d ]

abbrev pub fact_of : String → Values → Checked ℕ
fact_of k d = elim (get_value (codes k) d) [
  | none ↦ err (value_error "required 2 MiB hugepage memory facts unavailable")
  | some v ↦ ok v
]

-- The part of `validate_capacity` behind the look-ups.
unfoldable pub check_capacity : ℕ → ℕ → ℕ → ℕ → ℕ → ℕ → ℕ → Checked (Unit {0})
check_capacity total available pages size requested_pages max_ram_percent reserve_mb = do
  raise_if (not (size == 2048)) (value_error "required 2 MiB hugepage memory facts unavailable")
  let requested_kb = requested_pages * size
  raise_if (ltb (total * max_ram_percent) (requested_kb * 100))
      (value_error "requested hugepage pool exceeds total-RAM budget")
  let additional_kb = (requested_pages - pages) * size
  raise_if (ltb available (additional_kb + reserve_mb * 1024))
      (value_error "insufficient currently available memory for hugepage allocation")

unfoldable pub validate_capacity : Values → ℕ → ℕ → ℕ → Checked (Unit {0})
unfolding get_value check_capacity
validate_capacity values requested_pages max_ram_percent reserve_mb = do
  total ← fact_of "MemTotal" values
  available ← fact_of "MemAvailable" values
  pages ← fact_of "HugePages_Total" values
  size ← fact_of "Hugepagesize" values
  check_capacity total available pages size requested_pages max_ram_percent reserve_mb

unfoldable pub required_hugepages_2m : ℕ → ℕ → ℕ → Checked (ℕ × ℕ)
required_hugepages_2m sandbox_mib concurrent headroom_mib = do
  raise_if (not (within 512 262144 sandbox_mib))
      (value_error "maximum sandbox memory is outside the supported policy")
  raise_if (not (within 1 32 concurrent)) (value_error "invalid sandbox capacity policy")
  raise_if (not (within sandbox_mib 262144 headroom_mib))
      (value_error "build/snapshot headroom must cover one maximum sandbox")
  let pool_mib = sandbox_mib * concurrent + headroom_mib
  ok (pool_mib, (pool_mib + 1) / 2)

-- `main`: the pool and its pages, where everything is in order.
unfoldable pub capacity : Codes → ℕ → ℕ → ℕ → ℕ → ℕ → Checked (ℕ × ℕ)
unfolding required_hugepages_2m parse_meminfo validate_capacity
capacity meminfo sandbox_mib concurrent headroom_mib max_ram_percent reserve_mb = do
  raise_if (not (within 1 50 max_ram_percent) || ltb reserve_mb 4096)
      (value_error "invalid capacity policy")
  pool ← required_hugepages_2m sandbox_mib concurrent headroom_mib
  validate_capacity (parse_meminfo meminfo) pool.1 max_ram_percent reserve_mb
  ok pool
