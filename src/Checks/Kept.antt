-- ===== src/Checks/Kept.antt =====
-- Percent decoding hides no control character, and leaves a text without `%` as it is.
use kitdev_sandboxes.Base.{
  ℕ, ◌≤◌, ◌≡◌, refl, Bool, true, false, ◌||◌, Option, none, some, List, [], ◌∷◌, arith, ltb, ◌==◌,
  any, all, any-append, Option-cases, inl, inr, not,
}
use kitdev_sandboxes.Checks.Unquote.{
  hex_value, Item, byte, char, escape, plain, scan, Pending, lead, follow, feed, decode, unquote,
}
use kitdev_sandboxes.Checks.Patterns.{is_control}

abbrev item_control : Item → Bool
item_control (byte b) = ltb b 0x20 || b == 0x7f
item_control (char c) = is_control c

-- A continuation byte is never ASCII.
abbrev IsHigh : Option Pending → Type 0
IsHigh none = Unit
IsHigh (some p) = 0x80 ≤ p.lo

feed-IsHigh : (i : Item) (p : Option Pending) → IsHigh p → IsHigh (feed i p).1
unfolding feed follow lead
feed-IsHigh (byte b) none h = ground arith
feed-IsHigh (byte b) (some p) h = ground arith
feed-IsHigh (char c) p h = tt

feed-control :
    (i : Item) (p : Option Pending)
    → IsHigh p
    → item_control i ≡ true
    → any is_control (feed i p).0 ≡ true
unfolding feed follow lead
feed-control (byte b) none h e = ground arith
feed-control (byte b) (some p) h e = ground arith
feed-control (char c) none h e = ground arith
feed-control (char c) (some p) h e = ground arith

decode-control :
    (is : List Item) (p : Option Pending)
    → IsHigh p
    → any item_control is ≡ true
    → any is_control (decode is p) ≡ true
unfolding decode
decode-control [] p h e = cc
decode-control (i ∷ is) p h e =
    rw (any-append is_control (feed i p).0 (decode is (feed i p).1))
      (ground (arith, feed-control i p h, decode-control is (feed i p).1 (feed-IsHigh i p h)))

escape-not_control :
    (c h l : ℕ) (rest : List ℕ) {b : ℕ}
    → escape c (h ∷ l ∷ rest) ≡ some b
    → (is_control c ≡ false) × (is_control h ≡ false) × (is_control l ≡ false)
unfolding escape hex_value
escape-not_control c h l rest e = ground arith

plain-control : (c : ℕ) → is_control c ≡ true → item_control (plain c) ≡ true
plain-control c e = ground arith

scan-control : (cs : List ℕ) → any is_control cs ≡ true → any item_control (scan 0 cs) ≡ true
unfolding scan
scan-control [] e = cc
scan-control (c ∷ []) e = ground (arith, plain-control c)
scan-control (c ∷ h ∷ []) e = ground (arith, plain-control c, plain-control h)
scan-control (c ∷ h ∷ l ∷ rest) e = elim (Option-cases (escape c (h ∷ l ∷ rest))) [
  | inl p ↦ rw (p, scan) (ground (arith, plain-control c, scan-control (h ∷ l ∷ rest)))
  | inr (b, p) ↦ rw (p, scan) (ground (arith, escape-not_control c h l rest p, scan-control rest))
]

-- A control character stays in the decoded text.
pub unquote-control : (cs : List ℕ) → any is_control cs ≡ true → any is_control (unquote cs) ≡ true
unfolding unquote
unquote-control cs e = decode-control (scan 0 cs) none tt (scan-control cs e)

abbrev not_percent : ℕ → Bool
not_percent c = not (c == b'%')

escape-none : (c : ℕ) (cs : List ℕ) → not_percent c ≡ true → escape c cs ≡ none
unfolding escape
escape-none c [] e = refl
escape-none c (h ∷ []) e = refl
escape-none c (h ∷ l ∷ cs) e = ground arith

decode-scan : (cs : List ℕ) → all not_percent cs ≡ true → decode (scan 0 cs) none ≡ cs
unfolding scan decode feed lead
decode-scan [] e = refl
decode-scan (c ∷ cs) e =
    let p : escape c cs ≡ none = escape-none c cs (ground arith) in
    rw (p, scan) (ground (arith, decode-scan cs))

-- A text without `%` is left as it is.
pub unquote_plain : (cs : List ℕ) → all not_percent cs ≡ true → unquote cs ≡ cs
unfolding unquote
unquote_plain cs e = decode-scan cs e
