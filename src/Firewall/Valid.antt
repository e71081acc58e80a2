-- ===== src/Firewall/Valid.antt =====
-- Valid manifests, and that `validate_document` accepts only these.
use kitdev_sandboxes.Base.{
  ◌≡◌, refl, inl, inr, sym, subst, String, str_eq_iff, Bool, true, false, not, ◌&&◌, Option, none,
  some, List, [], ◌∷◌, ◌++◌, ◌==◌, arith, Bool-cases, Option-cases, ◌∙◌, ap, All, All-append,
}
use kitdev_sandboxes.Base.Errors.{ok, err, ok_inj, ◌>>◌, raise_if, >>=-eq-ok}
use kitdev_sandboxes.Base.Strings.{str_mem}
use kitdev_sandboxes.Firewall.Networks.{
  Network, Parser, overlaps, Key, key, key_leb, is_non_public, is_broad, Source, differ, modes,
  stop,
}
use kitdev_sandboxes.Firewall.Manifest.{
  Manifest, invalid, normalize_cidr, network_of, overlaps_any, clashes, enter, check_source,
  normalize_network,
}

pub key_leb_trans : (a b c : Key) → key_leb a b ≡ true → key_leb c b ≡ false → key_leb c a ≡ false
unfolding key_leb
key_leb_trans a b c h n = ground arith

normalize_network-ok :
    (value : String) (a b : Bool) (n : Network) {c : String × Bool × Bool}
    → normalize_network value a b n ≡ ok c
    → (n.text ≡ value) × ((n.prefixlen == 0) ≡ false) × (c ≡ (n.text, is_non_public n, is_broad n))
unfolding normalize_network
normalize_network-ok value a b n e = ground (arith, str_eq_iff value n.text)

pub raise_if-ok : (b : Bool) {u : Unit {0}} → raise_if b invalid ≡ ok u → b ≡ false
raise_if-ok true h = cc
raise_if-ok false h = refl

-- The key is greater than the one before.
abbrev pub after : Option Key → Key → Bool
after none k = true
after (some p) k = not (key_leb k p)

differ-false : (a b : Bool) → differ a b ≡ false → a ≡ b
differ-false true b e = ground arith
differ-false false b e = ground arith

clashes-false :
    (p : Option Key) (s : Source) (n : Network)
    → n.text ≡ s.cidr
    → clashes p s (n.text, is_non_public n, is_broad n) n ≡ false
    → (s.non_public_override ≡ is_non_public n)
      × (s.broad_range_override ≡ is_broad n)
      × (after p (key n) ≡ true)
unfolding clashes
clashes-false none s n t e =
    (differ-false _ _ (ground arith), differ-false _ _ (ground arith), refl)
clashes-false (some p) s n t e =
    (differ-false _ _ (ground arith), differ-false _ _ (ground arith), ground arith)

module _ (ip_network : Parser) where
  -- The entry's text is the canonical text of a network, whose properties its flags state.
  abbrev pub Describes : Network → Source → Type 0
  Describes n s =
      (ip_network s.cidr ≡ some n)
      × (n.text ≡ s.cidr)
      × ((n.prefixlen == 0) ≡ false)
      × (s.non_public_override ≡ is_non_public n)
      × (s.broad_range_override ≡ is_broad n)

  abbrev pub IsCanonical : Source → Type 0
  IsCanonical s = (n : Network) × Describes n s

  -- A later entry: its key is greater, and the networks do not overlap.
  abbrev pub later : Network → Network → Bool
  later m n = not (key_leb (key n) (key m)) && not (overlaps n m)

  abbrev pub follows : Source → Source → Bool
  follows s t = elim (ip_network s.cidr) [
    | none ↦ false
    | some m ↦ elim (ip_network t.cidr) [ none ↦ false | some n ↦ later m n ]
  ]

  -- Every entry stands before all that follow it.
  abbrev pub IsOrdered : List Source → Type 0
  IsOrdered [] = Unit
  IsOrdered (s ∷ ss) = All (λ t. follows s t ≡ true) ss × IsOrdered ss

  abbrev pub IsValid : Manifest → Type 0
  IsValid m = (str_mem m.mode modes ≡ true) × All IsCanonical m.sources × IsOrdered m.sources

  pub IsOrdered-snoc :
      (ss : List Source) (t : Source)
      → IsOrdered ss
      → All (λ s. follows s t ≡ true) ss
      → IsOrdered (ss ++ (t ∷ []))
  IsOrdered-snoc [] t o h = (tt, tt)
  IsOrdered-snoc (s ∷ ss) t (a, o) (f, h) = (All-append _ ss _ a (f, tt), IsOrdered-snoc ss t o h)

  abbrev pub Below : Key → Option Network → Type 0
  Below k none = ⊥
  Below k (some m) = key_leb (key m) k ≡ true

  -- `previous` is a bound of the keys so far.
  abbrev pub Bounded : Option Key → List Source → Type 0
  Bounded none ss = ss ≡ []
  Bounded (some k) ss = All (λ s. Below k (ip_network s.cidr)) ss

  normalize_cidr-none :
      (value : String) (a b : Bool)
      → ip_network value ≡ none
      → normalize_cidr ip_network value a b ≡ err (stop "source_cidr_invalid" 64)
  unfolding normalize_cidr
  normalize_cidr-none value a b q = rw (q, normalize_cidr) refl

  normalize_cidr-some :
      (value : String) (a b : Bool) {n : Network}
      → ip_network value ≡ some n
      → normalize_cidr ip_network value a b ≡ normalize_network value a b n
  unfolding normalize_cidr
  normalize_cidr-some value a b q = rw (q, normalize_cidr) refl

  pub normalize_cidr-ok :
      (value : String) (a b : Bool) {c : String × Bool × Bool}
      → normalize_cidr ip_network value a b ≡ ok c
      → (n : Network) × (ip_network value ≡ some n)
        × (n.text ≡ value)
        × ((n.prefixlen == 0) ≡ false)
        × (c ≡ (n.text, is_non_public n, is_broad n))
  normalize_cidr-ok value a b {c} e = elim (Option-cases (ip_network value)) [
    | inl q ↦ let f = normalize_cidr-none value a b q in cc
    | inr (n, q) ↦
        let (t, p, r) =
          normalize_network-ok value a b n (sym (normalize_cidr-some value a b q) ∙ e) in
        (n, q, t, p, r)
  ]

  entered :
      (o : Bool) (k : Key) (s : Source) (c : String) {r : Key × Source}
      → (raise_if o (stop "source_manifest_overlapping_cidrs" 65) >> ok (k, record s { cidr = c }))
        ≡ ok r
      → (o ≡ false) × (r ≡ (k, record s { cidr = c }))
  entered o k s c e = ground arith

  enter-ok :
      (p : Option Key) (ss : List Source) (s : Source) (c : String × Bool × Bool) (n : Network)
      {r : Key × Source}
      → enter ip_network p ss s c n ≡ ok r
      → (clashes p s c n ≡ false)
        × (overlaps_any ip_network n ss ≡ ok false)
        × (r ≡ (key n, record s { cidr = c.0 }))
  unfolding enter
  enter-ok p ss s c n e =
      let (u, e1, f1) = >>=-eq-ok (raise_if (clashes p s c n) invalid) _ e in
      let (o, e2, f2) = >>=-eq-ok (overlaps_any ip_network n ss) _ f1 in
      let (a, b) = entered o (key n) s c.0 f2 in (raise_if-ok (clashes p s c n) e1, rw a at e2, b)

  network_of-some :
      (value : String) {n : Network}
      → ip_network value ≡ some n
      → network_of ip_network value ≡ ok n
  unfolding network_of
  network_of-some value q = rw (q, network_of) refl

  described :
      (p : Option Key) (ss : List Source) (s : Source) (n m : Network) {r : Key × Source}
      → ip_network s.cidr ≡ some n
      → n.text ≡ s.cidr
      → (n.prefixlen == 0) ≡ false
      → network_of ip_network n.text ≡ ok m
      → enter ip_network p ss s (n.text, is_non_public n, is_broad n) m ≡ ok r
      → Describes n s
        × (r ≡ (key n, s))
        × (after p (key n) ≡ true)
        × (overlaps_any ip_network n ss ≡ ok false)
  described p ss s n m {r} q t z e f =
      let same : m ≡ n =
        ok_inj (
          sym e ∙ subst (λ v. network_of ip_network v ≡ ok n) (sym t) (network_of-some s.cidr q)) in
      let (c, o, k) = enter-ok p ss s _ n (
        subst (λ x. enter ip_network p ss s (n.text, is_non_public n, is_broad n) x ≡ ok r) same
          f) in
      let (a, b, l) = clashes-false p s n t c in
      ((q, t, z, a, b), k ∙ ap (λ v. (key n, record s { cidr = v })) t, l, o)

  pub check_source-ok :
      (p : Option Key) (ss : List Source) (s : Source) {r : Key × Source}
      → check_source ip_network p ss s ≡ ok r
      → (n : Network) × Describes n s
        × (r ≡ (key n, s))
        × (after p (key n) ≡ true)
        × (overlaps_any ip_network n ss ≡ ok false)
  unfolding check_source
  check_source-ok p ss s {r} e =
      let (c, e1, f1) =
        >>=-eq-ok (normalize_cidr ip_network s.cidr s.non_public_override s.broad_range_override) _
          e in
      let (n, q, t, z, h) =
        normalize_cidr-ok s.cidr s.non_public_override s.broad_range_override e1 in
      let (m, e2, f2) = >>=-eq-ok (network_of ip_network c.0) _ f1 in
      let (d, k, l, o) =
        described p ss s n m q t z (subst (λ x. network_of ip_network x.0 ≡ ok m) h e2)
          (subst (λ x. enter ip_network p ss s x m ≡ ok r) h f2) in
      (n, d, k, l, o)

  overlaps_any-cons :
      (n m : Network) (s : Source) (ss : List Source)
      → ip_network s.cidr ≡ some m
      → overlaps_any ip_network n (s ∷ ss) ≡ ok false
      → (overlaps n m ≡ false) × (overlaps_any ip_network n ss ≡ ok false)
  unfolding overlaps_any
  overlaps_any-cons n m s ss q o =
      let h = rw (network_of-some s.cidr q) at o in
      elim (Bool-cases (overlaps n m)) [
        | inl v ↦ let g = rw v at h in absurd cc
        | inr v ↦ (v, rw v at h)
      ]

  follows-some :
      (s t : Source) (m n : Network)
      → ip_network s.cidr ≡ some m
      → ip_network t.cidr ≡ some n
      → later m n ≡ true
      → follows s t ≡ true
  follows-some s t m n q r l = rw (q, follows, r) l

  pub follows-All :
      (ss : List Source) (k : Key) (t : Source) (n : Network)
      → ip_network t.cidr ≡ some n
      → All IsCanonical ss
      → Bounded (some k) ss
      → key_leb (key n) k ≡ false
      → overlaps_any ip_network n ss ≡ ok false
      → All (λ s. follows s t ≡ true) ss
  follows-All [] k t n q g b l o = tt
  follows-All (s ∷ ss) k t n q ((m, (u, _, _, _, _)), g) (b, bs) l o =
      let (v, w) = overlaps_any-cons n m s ss u o in
      let c = key_leb_trans (key m) k (key n) (rw u at b) l in
      (follows-some s t m n u q (rw (c, v) refl), follows-All ss k t n q g bs l w)
