-- ===== src/Firewall/Reads.antt =====
-- What `validate_document` accepts is valid.
use kitdev_sandboxes.Base.{
  ◌≡◌, refl, sym, ap, ◌∙◌, subst, inl, inr, String, Bool, true, false, not, Option, none, some,
  List, [], ◌∷◌, ◌++◌, arith, Option-cases, All, All-append, All-map,
}
use kitdev_sandboxes.Base.Dict.{lookup}
use kitdev_sandboxes.Base.Errors.{ok, ok_inj, ok_of, raise_if, >>=-eq-ok}
use kitdev_sandboxes.Base.Strings.{str_mem}
use kitdev_sandboxes.Firewall.Networks.{
  Network, Parser, Key, key, key_leb, Item, Json, object, Source, has_keys, equals, modes, Failure,
  Value, items, scalar, text, bool, number, other, compound,
}
use kitdev_sandboxes.Firewall.Manifest.{
  Manifest, invalid, in_texts, text_of, fields_of, check_source, read_sources, check_item,
  check_items, overlaps_any, validate_document,
}
use kitdev_sandboxes.Firewall.Valid.{
  Describes, IsCanonical, follows, IsOrdered, IsValid, IsOrdered-snoc, Below, Bounded, after,
  raise_if-ok, check_source-ok, follows-All,
}

key_leb-weaken : (a b c : Key) → key_leb a b ≡ true → key_leb c b ≡ false → key_leb a c ≡ true
unfolding key_leb
key_leb-weaken a b c h n = ground arith

key_leb_refl : (a : Key) → key_leb a a ≡ true
unfolding key_leb
key_leb_refl a = ground arith

module _ (ip_network : Parser) where
  check_item-ok :
      (p : Option Key) (ss : List Source) (i : Item) {r : Key × Source}
      → check_item ip_network p ss i ≡ ok r
      → (s : Source) × (check_source ip_network p ss s ≡ ok r)
  unfolding check_item
  check_item-ok p ss i {r} e = elim (Option-cases (fields_of i)) [
    | inl q ↦ let h = rw (q, check_item) at e in absurd cc
    | inr (s, q) ↦ (s, rw (q, check_item) at e)
  ]

  Bounded-weaken :
      (ss : List Source) (k c : Key)
      → key_leb c k ≡ false
      → Bounded ip_network (some k) ss
      → Bounded ip_network (some c) ss
  Bounded-weaken ss k c l = All-map ss (λ s. go (ip_network s.cidr))
    where
      go : (o : Option Network) → Below ip_network k o → Below ip_network c o
      go none h = h
      go (some m) h = key_leb-weaken (key m) k c h l

  Bounded-step :
      (p : Option Key) (ss : List Source) (s : Source) (n : Network)
      → Describes ip_network n s
      → after p (key n) ≡ true
      → Bounded ip_network p ss
      → Bounded ip_network (some (key n)) (ss ++ (s ∷ []))
  Bounded-step p ss s n (q, _, _, _, _) l b =
      All-append _ ss (s ∷ []) (old p l b) (rw q (key_leb_refl (key n)), tt)
    where
      old :
          (p : Option Key)
          → after p (key n) ≡ true
          → Bounded ip_network p ss
          → Bounded ip_network (some (key n)) ss
      old none l b = subst (Bounded ip_network (some (key n))) (sym b) tt
      old (some k) l b = Bounded-weaken ss k (key n) (ground arith) b

  followed :
      (p : Option Key) (ss : List Source) (s : Source) (n : Network)
      → Describes ip_network n s
      → after p (key n) ≡ true
      → overlaps_any ip_network n ss ≡ ok false
      → All (IsCanonical ip_network) ss
      → Bounded ip_network p ss
      → All (λ t. follows ip_network t s ≡ true) ss
  followed none ss s n d l o g b = subst (All _) (sym b) tt
  followed (some k) ss s n (q, _, _, _, _) l o g b =
      follows-All ip_network ss k s n q g b (ground arith) o

  check_items-IsOrdered :
      (p : Option Key) (ss : List Source) (is : List Item) {out : List Source}
      → check_items ip_network p ss is ≡ ok out
      → All (IsCanonical ip_network) ss
      → IsOrdered ip_network ss
      → Bounded ip_network p ss
      → All (IsCanonical ip_network) out × IsOrdered ip_network out
  unfolding check_items
  check_items-IsOrdered p ss [] e g o b =
      let same = ok_inj e in
      (subst (All (IsCanonical ip_network)) same g, subst (IsOrdered ip_network) same o)
  check_items-IsOrdered p ss (i ∷ is) {out} e g o b =
      let (r, e1, f1) = >>=-eq-ok (check_item ip_network p ss i) _ e in
      let (s, c) = check_item-ok p ss i e1 in
      let (n, d, k, l, v) = check_source-ok ip_network p ss s c in
      check_items-IsOrdered (some (key n)) (ss ++ (s ∷ [])) is
        (subst (λ x. check_items ip_network (some x.0) (ss ++ (x.1 ∷ [])) is ≡ ok out) k f1)
        (All-append _ ss (s ∷ []) g ((n, d), tt))
        (IsOrdered-snoc ip_network ss s o (followed p ss s n d l v g b))
        (Bounded-step p ss s n d l b)

  in_texts-text_of :
      (v : Option Value) (ts : List String)
      → in_texts v ts ≡ ok true
      → str_mem (text_of v) ts ≡ true
  in_texts-text_of (some (scalar (text t))) ts e = ok_inj e
  in_texts-text_of (some (scalar (bool t))) ts e = cc
  in_texts-text_of (some (scalar (number t))) ts e = cc
  in_texts-text_of (some (scalar other)) ts e = cc
  in_texts-text_of (some (scalar compound)) ts e = cc
  in_texts-text_of (some (items is)) ts e = cc
  in_texts-text_of none ts e = cc

  not-false : (b : Bool) → not b ≡ false → b ≡ true
  not-false b h = ground arith

  read_sources-IsValid :
      (mode : String) (v : Option Value) {m : Manifest}
      → str_mem mode modes ≡ true
      → read_sources ip_network mode v ≡ ok m
      → IsValid ip_network m
  unfolding read_sources
  read_sources-IsValid mode (some (items is)) k e =
      let (ss, e1, f1) = >>=-eq-ok (check_items ip_network none [] is) _ e in
      let (g, o) = check_items-IsOrdered none [] is e1 tt tt refl in
      subst (IsValid ip_network) (ok_inj f1) (k, g, o)
  read_sources-IsValid mode none k e = cc
  read_sources-IsValid mode (some (scalar s)) k e = cc

  -- A document that the script accepts is a valid manifest: its mode is known; the text of every
  -- entry is the canonical text of a network other than that of all addresses, and its flags say
  -- whether that network is not public and whether it is broad; the keys of the entries increase,
  -- and no two of the networks overlap.
  pub validate_document-IsValid :
      (j : Json) (m : Manifest) → validate_document ip_network j ≡ ok m → IsValid ip_network m
  unfolding validate_document
  validate_document-IsValid Json.no_object m e = cc
  validate_document-IsValid (object d) m e =
      let ks = "schema_version" ∷ "mode" ∷ "sources" ∷ [] in
      let (_, e1, f1) = >>=-eq-ok (raise_if (not (has_keys d ks)) invalid) _ e in
      let (_, e2, f2) =
        >>=-eq-ok (raise_if (not (equals (lookup "schema_version" d) 2)) invalid) _ f1 in
      let (known, e3, f3) = >>=-eq-ok (in_texts (lookup "mode" d) modes) _ f2 in
      let (_, e4, f4) = >>=-eq-ok (raise_if (not known) invalid) _ f3 in
      read_sources-IsValid (text_of (lookup "mode" d)) (lookup "sources" d)
        (in_texts-text_of (lookup "mode" d) modes
          (e3 ∙ ap (ok_of Failure) (not-false known (raise_if-ok (not known) e4))))
        f4
