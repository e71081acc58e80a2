-- ===== src/PrivateEnv/Token.antt =====
-- Tokens of 64 hex digits, and their quoted texts.
use kitdev_sandboxes.Base.{
  ℕ, ◌+◌, ◌*◌, ◌/◌, ◌%◌, ◌≤◌, ◌≡◌, refl, ◌∙◌, inl, inr, Bool, true, false, [], ◌∷◌, ◌++◌, all, any,
  any-append, length-append, length, leb, arith, Bool-cases,
}
use kitdev_sandboxes.Checks.Patterns.{codes_eq}
use kitdev_sandboxes.PrivateEnv.Document.{
  Codes, is_hex, is_hex64, unreserved, hex_upper, is_line_break, quote,
}
use kitdev_sandboxes.PrivateEnv.Lines.{IsLineValue}
use kitdev_sandboxes.PrivateEnv.Operations.{Tokens}

pub codes_eq_refl : (cs : Codes) → codes_eq cs cs ≡ true
unfolding codes_eq
codes_eq_refl [] = refl
codes_eq_refl (c ∷ cs) = ground (arith, codes_eq_refl cs)

-- The tokens are what `token_hex(32)` gives.
pub record AreTokens (t : Tokens) : Type 0 where
  pub postgres : is_hex64 t.postgres ≡ true
  pub clickhouse : is_hex64 t.clickhouse ≡ true
  pub seed : is_hex64 t.seed ≡ true
  pub admin : is_hex64 t.admin ≡ true

abbrev pub is_wide : ℕ → Bool
is_wide c = leb 0x80 c

-- A test that no character of a token or of its quoted text passes.
module _ (p : ℕ → Bool) (on_hex : (c : ℕ) → is_hex c ≡ true → p c ≡ false)
    (on_unreserved : (c : ℕ) → unreserved c ≡ true → p c ≡ false)
    (on_digit : (d : ℕ) → p (hex_upper (d % 16)) ≡ false) (on_percent : p b'%' ≡ false) where
  all_hex_clear : (cs : Codes) → all is_hex cs ≡ true → any p cs ≡ false
  all_hex_clear [] h = refl
  all_hex_clear (c ∷ cs) h = ground (arith, all_hex_clear cs, on_hex c)

  is_hex64_clear : (cs : Codes) → is_hex64 cs ≡ true → any p cs ≡ false
  unfolding is_hex64
  is_hex64_clear cs h = all_hex_clear cs (ground arith)

  quote_clear : (cs : Codes) → any p (quote cs) ≡ false
  unfolding quote
  quote_clear [] = refl
  quote_clear (c ∷ cs) = elim (Bool-cases (unreserved c)) [
    | inl plain ↦ rw (plain, quote) (rw (on_unreserved c plain, quote_clear cs) refl)
    | inr escaped ↦
        rw (escaped, quote) (rw (on_percent, on_digit (c / 16), on_digit c, quote_clear cs) refl)
  ]

pub is_hex64_narrow : (cs : Codes) → is_hex64 cs ≡ true → any is_wide cs ≡ false
is_hex64_narrow =
    is_hex64_clear is_wide (λ c h. ground arith) (λ c h. ground arith) (λ d. ground arith) refl

pub quote_narrow : (cs : Codes) → any is_wide (quote cs) ≡ false
quote_narrow =
    quote_clear is_wide (λ c h. ground arith) (λ c h. ground arith) (λ d. ground arith) refl

pub is_hex64_one_line : (cs : Codes) → is_hex64 cs ≡ true → any is_line_break cs ≡ false
is_hex64_one_line =
    is_hex64_clear is_line_break (λ c h. ground arith) (λ c h. ground arith) (λ d. ground arith)
      refl

pub quote_one_line : (cs : Codes) → any is_line_break (quote cs) ≡ false
quote_one_line =
    quote_clear is_line_break (λ c h. ground arith) (λ c h. ground arith) (λ d. ground arith) refl

pub is_hex64-IsLineValue : (cs : Codes) → is_hex64 cs ≡ true → IsLineValue cs
unfolding is_hex64
is_hex64-IsLineValue cs h = (ground arith, is_hex64_one_line cs h)

quote-length : (cs : Codes) → length (quote cs) ≤ 3 * length cs
unfolding quote
quote-length [] = omega arith
quote-length (c ∷ cs) = elim (Bool-cases (unreserved c)) [
  | inl plain ↦ rw (plain, quote) (ground (arith, quote-length cs))
  | inr escaped ↦ rw (escaped, quote) (ground (arith, quote-length cs))
]

-- Texts of at most 300 characters make a text that is not much longer.
pub short : (xs ys : Codes) (n : ℕ) → length xs ≤ 300 → length ys ≤ n → length (xs ++ ys) ≤ n + 300
short xs ys n h k = ground (arith, length-append xs ys)

pub token_short : (cs : Codes) → is_hex64 cs ≡ true → length cs ≤ 300
unfolding is_hex64
token_short cs h = ground arith

pub quoted_short :
    (cs tail : Codes) → is_hex64 cs ≡ true → length tail ≤ 50 → length (quote cs ++ tail) ≤ 300
unfolding is_hex64
quoted_short cs tail h k =
    let bound = quote-length cs in
    let size : length cs ≡ 64 = ground arith in ground (arith, length-append (quote cs) tail)

pub after_narrow :
    (xs ys : Codes) → any is_wide xs ≡ false → any is_wide (xs ++ ys) ≡ any is_wide ys
after_narrow xs ys h = any-append is_wide xs ys ∙ ground arith
