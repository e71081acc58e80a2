-- ===== src/Checks/Unquote.antt =====
-- `urllib.parse.unquote` of the standard library, on code points: each `%XY` with two hexadecimal
-- digits is a byte, an ASCII character is its byte, runs of bytes are decoded as UTF-8 with
-- U+FFFD for each maximal ill-formed part, and other characters are kept.
use kitdev_sandboxes.Base.{
  ℕ, zero, suc, ◌+◌, ◌-◌, ◌*◌, ◌%◌, Bool, ◌&&◌, Option, none, some, List, [], ◌∷◌, ◌++◌, ltb, leb,
  ◌==◌, if◌then◌else◌,
}

-- `lo <= c <= hi`
abbrev pub within : ℕ → ℕ → ℕ → Bool
within lo hi c = leb lo c && leb c hi

unfoldable pub hex_value : ℕ → Option ℕ
hex_value c =
    if within b'0' b'9' c
    then some (c - 48)
    else if within b'a' b'f' c
    then some (c - 87)
    else if within b'A' b'F' c
    then some (c - 55)
    else none

pub data Item : Type 0 where
  byte char : ℕ → Item

-- The byte that `%` and the two characters behind it stand for.
unfoldable pub escape : ℕ → List ℕ → Option ℕ
unfolding hex_value
escape c (h ∷ l ∷ rest) =
    if c == b'%'
    then elim (hex_value h) [
      | none ↦ none
      | some x ↦ elim (hex_value l) [ none ↦ none | some y ↦ some (x * 16 + y) ]
    ]
    else none
escape c _ = none

abbrev pub plain : ℕ → Item
plain c = if ltb c 0x80 then byte c else char c

-- The text in pieces; the number counts the characters that an escape has used up.
unfoldable pub scan : ℕ → List ℕ → List Item
unfolding escape
scan skip [] = []
scan (suc skip) (c ∷ cs) = scan skip cs
scan zero (c ∷ cs) = elim (escape c cs) [ some b ↦ byte b ∷ scan 2 cs | none ↦ plain c ∷ scan 0 cs ]

-- A sequence that has begun: how many bytes are wanted, the range of the next, and the bits so far.
pub record Pending : Type 0 where
  pub need : ℕ
  pub lo : ℕ
  pub hi : ℕ
  pub bits : ℕ

abbrev pub replacement : ℕ
replacement = 0xfffd

abbrev pub Decoded : Type 0
Decoded = List ℕ × Option Pending

abbrev pending : ℕ → ℕ → ℕ → ℕ → Decoded
pending need lo hi bits = ([], some (record { need = need; lo = lo; hi = hi; bits = bits }))

-- A byte where a character begins.
unfoldable pub lead : ℕ → Decoded
lead b =
    if ltb b 0x80
    then (b ∷ [], none)
    else if within 0xc2 0xdf b
    then pending 1 0x80 0xbf (b - 0xc0)
    else if b == 0xe0
    then pending 2 0xa0 0xbf 0
    else if b == 0xed
    then pending 2 0x80 0x9f 13
    else if within 0xe1 0xef b
    then pending 2 0x80 0xbf (b - 0xe0)
    else if b == 0xf0
    then pending 3 0x90 0xbf 0
    else if b == 0xf4
    then pending 3 0x80 0x8f 4
    else if within 0xf1 0xf3 b
    then pending 3 0x80 0xbf (b - 0xf0)
    else (replacement ∷ [], none)

abbrev flush : Option Pending → List ℕ
flush none = []
flush (some p) = replacement ∷ []

-- A byte inside a sequence.
unfoldable pub follow : Pending → ℕ → Decoded
unfolding lead
follow p b =
    if within p.lo p.hi b
    then if p.need == 1
      then ((p.bits * 64 + b % 64) ∷ [], none)
      else pending (p.need - 1) 0x80 0xbf (p.bits * 64 + b % 64)
    else let (out, q) = lead b in (replacement ∷ out, q)

unfoldable pub feed : Item → Option Pending → Decoded
unfolding follow
feed (byte b) none = lead b
feed (byte b) (some p) = follow p b
feed (char c) p = (flush p ++ (c ∷ []), none)

unfoldable pub decode : List Item → Option Pending → List ℕ
unfolding feed
decode [] p = flush p
decode (i ∷ is) p = let (out, q) = feed i p in out ++ decode is q

unfoldable pub unquote : List ℕ → List ℕ
unfolding scan decode
unquote cs = decode (scan 0 cs) none
