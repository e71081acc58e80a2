-- ===== src/Firewall/Changes.antt =====
-- What a change of the allowlist does to the set of its entries.
use kitdev_sandboxes.Base.{
  ◌≡◌, refl, sym, ap, ◌∙◌, subst, inl, inr, String, str_eq, str_eq_iff, Bool, true, false, not,
  ◌&&◌, ◌||◌, Option, none, some, List, [], ◌∷◌, ◌++◌, map, if◌then◌else◌, all, any, arith,
  Bool-cases, All,
}
use kitdev_sandboxes.Base.Dict.{Dict, lookup, insert, erase}
use kitdev_sandboxes.Base.Errors.{ok, ok_inj, raise_if, >>=-eq-ok}
use kitdev_sandboxes.Base.Sort.{any-sort_by}
use kitdev_sandboxes.Base.Strings.{str_mem}
use kitdev_sandboxes.Firewall.Networks.{Parser, Key, key, Source, modes, source_keys}
use kitdev_sandboxes.Firewall.Manifest.{
  Manifest, invalid, normalize_cidr, fields_of, read_sources, check_source, check_item, check_items,
  validate_document, item_of, document_of,
}
use kitdev_sandboxes.Firewall.State.{
  StateFile, secure_read, parses, sorted_sources, entries_of, values, candidate,
}
use kitdev_sandboxes.Firewall.Valid.{IsValid, check_source-ok, normalize_cidr-ok}
use kitdev_sandboxes.Firewall.Reads.{validate_document-IsValid}

-- An entry with this text stands in the list.
unfoldable pub listed : String → List Source → Bool
listed x = any (λ s. str_eq x s.cidr)

abbrev Keyed : Dict Source → Type 0
Keyed = All (λ e. e.1.cidr ≡ e.0)

abbrev in_keys : String → Dict Source → Bool
in_keys x = any (λ e. str_eq x e.0)

module _ (x : String) where
  in_keys-insert :
      (k : String) (v : Source) (d : Dict Source)
      → in_keys x (insert k v d) ≡ (str_eq x k || in_keys x d)
  unfolding insert
  in_keys-insert k v [] = refl
  in_keys-insert k v ((j, w) ∷ d) =
      ground (arith, str_eq_iff k j, str_eq_iff x j, str_eq_iff x k, in_keys-insert k v d)

  in_keys-erase :
      (k : String) (d : Dict Source) → in_keys x (erase k d) ≡ (not (str_eq x k) && in_keys x d)
  unfolding erase
  in_keys-erase k [] = ground arith
  in_keys-erase k ((j, w) ∷ d) =
      ground (arith, str_eq_iff k j, str_eq_iff x j, str_eq_iff x k, in_keys-erase k d)

  listed-values : (d : Dict Source) → Keyed d → listed x (values d) ≡ in_keys x d
  unfolding listed
  listed-values [] h = refl
  listed-values ((j, w) ∷ d) (e, h) = rw (e, listed-values d h) refl

  in_keys-entries_of :
      (ss : List Source) (d : Dict Source)
      → in_keys x (entries_of ss d) ≡ (listed x ss || in_keys x d)
  unfolding entries_of listed
  in_keys-entries_of [] d = refl
  in_keys-entries_of (s ∷ ss) d =
      ground (arith, in_keys-insert s.cidr s d, in_keys-entries_of ss (insert s.cidr s d))

insert-Keyed :
    (k : String) (v : Source) (d : Dict Source) → v.cidr ≡ k → Keyed d → Keyed (insert k v d)
unfolding insert
insert-Keyed k v [] e h = (e, tt)
insert-Keyed k v ((j, w) ∷ d) e (a, h) = elim (Bool-cases (str_eq k j)) [
  | inl q ↦ rw q (e ∙ ((str_eq_iff k j).0 q), h)
  | inr q ↦ rw q (a, insert-Keyed k v d e h)
]

erase-Keyed : (k : String) (d : Dict Source) → Keyed d → Keyed (erase k d)
unfolding erase
erase-Keyed k [] h = tt
erase-Keyed k ((j, w) ∷ d) (a, h) = elim (Bool-cases (str_eq k j)) [
  | inl q ↦ rw q (erase-Keyed k d h)
  | inr q ↦ rw q (a, erase-Keyed k d h)
]

entries_of-Keyed : (ss : List Source) (d : Dict Source) → Keyed d → Keyed (entries_of ss d)
unfolding entries_of
entries_of-Keyed [] d h = h
entries_of-Keyed (s ∷ ss) d h = entries_of-Keyed ss _ (insert-Keyed s.cidr s d refl h)

append-nil : (ss : List Source) → (ss ++ []) ≡ ss
append-nil [] = refl
append-nil (s ∷ ss) = rw (append-nil ss) refl

append_assoc :
    (ss : List Source) (s : Source) (ts : List Source) → ((ss ++ (s ∷ [])) ++ ts) ≡ (ss ++ (s ∷ ts))
append_assoc [] s ts = refl
append_assoc (r ∷ ss) s ts = rw (append_assoc ss s ts) refl

pub fields_of-item_of : (s : Source) → fields_of (item_of s) ≡ some s
unfolding fields_of lookup str_eq str_mem source_keys
fields_of-item_of s = refl

module _ (ip_network : Parser) where
  sorted_sources-listed :
      (x : String) (ss : List Source) {out : List Source}
      → sorted_sources ip_network ss ≡ ok out
      → listed x out ≡ listed x ss
  unfolding sorted_sources listed
  sorted_sources-listed x ss e = elim (Bool-cases (all (parses ip_network) ss)) [
    | inl p ↦
        let h = ok_inj (rw (p, sorted_sources) at e) in
        subst (λ o. listed x o ≡ listed x ss) h (any-sort_by _ (λ s. str_eq x s.cidr) ss)
    | inr p ↦ let h = rw (p, sorted_sources) at e in cc
  ]

  check_item-item_of :
      (p : Option Key) (ss : List Source) (s : Source)
      → check_item ip_network p ss (item_of s) ≡ check_source ip_network p ss s
  unfolding check_item
  check_item-item_of p ss s = rw (fields_of-item_of s, check_item) refl

  check_items-item_of :
      (p : Option Key) (seen ss : List Source) {out : List Source}
      → check_items ip_network p seen (map item_of ss) ≡ ok out
      → out ≡ seen ++ ss
  unfolding check_items
  check_items-item_of p seen [] e = sym (ok_inj e) ∙ sym (append-nil seen)
  check_items-item_of p seen (s ∷ ss) {out} e =
      let (r, e1, f1) = >>=-eq-ok (check_item ip_network p seen (item_of s)) _ e in
      let (n, d, k, _, _) =
        check_source-ok ip_network p seen s (sym (check_item-item_of p seen s) ∙ e1) in
      check_items-item_of (some (key n)) (seen ++ (s ∷ [])) ss (
        subst
          (λ x. check_items ip_network (some x.0) (seen ++ (x.1 ∷ [])) (map item_of ss) ≡ ok out) k
          f1)
      ∙ append_assoc seen s ss

  validate_document-document_of :
      (m m' : Manifest) → validate_document ip_network (document_of m) ≡ ok m' → m' ≡ m
  unfolding validate_document document_of lookup str_eq str_mem read_sources
  validate_document-document_of m m' e =
      let (_, _, f4) = >>=-eq-ok (raise_if (not (str_mem m.mode modes)) invalid) _ e in
      let (ss, e5, f5) = >>=-eq-ok (check_items ip_network none [] (map item_of m.sources)) _ f4 in
      sym (ok_inj f5)
      ∙ ap (λ x. record m { sources = x }) (check_items-item_of none [] m.sources e5)

  -- The entries of a candidate before sorting.
  changed : Bool → String × Bool × Bool → List Source → List Source
  changed add c ss = values (
      if add
      then insert c.0 (record { cidr = c.0; non_public_override = c.1; broad_range_override = c.2 })
          (entries_of ss [])
      else erase c.0 (entries_of ss []))

  changed-listed :
      (x : String) (add : Bool) (c : String × Bool × Bool) (ss : List Source)
      → listed x (changed add c ss) ≡ (if str_eq x c.0 then add else listed x ss)
  unfolding changed
  changed-listed x true c ss =
      let k = entries_of-Keyed ss [] tt in
      rw (listed-values x _ (insert-Keyed c.0 _ _ refl k)) (
        ground (
          arith,
          in_keys-insert x c.0
              (record { cidr = c.0; non_public_override = c.1; broad_range_override = c.2 })
              (entries_of ss []),
          in_keys-entries_of x ss [],
        ))
  changed-listed x false c ss =
      let k = entries_of-Keyed ss [] tt in
      rw (listed-values x _ (erase-Keyed c.0 _ k))
        (ground (arith, in_keys-erase x c.0 (entries_of ss []), in_keys-entries_of x ss []))

  -- A change that succeeds makes a valid manifest with the mode of the one that stands at `STATE`.
  -- A text is listed in it as it was before, but for the text of the change, which is listed after
  -- an addition and not after a removal.
  pub candidate-listed :
      (state : StateFile) (add : Bool) (cidr : String) (allow_non_public allow_broad_range : Bool)
      (m' : Manifest) (x : String)
      → candidate ip_network state add cidr allow_non_public allow_broad_range ≡ ok m'
      → (m : Manifest) × (secure_read ip_network state true ≡ ok m)
        × IsValid ip_network m'
        × (m'.mode ≡ m.mode)
        × (listed x m'.sources ≡ (if str_eq x cidr then add else listed x m.sources))
  unfolding candidate changed
  candidate-listed state add cidr a b m' x e =
      let (m, e1, f1) = >>=-eq-ok (secure_read ip_network state true) _ e in
      let (c, e2, f2) =
        >>=-eq-ok
          (normalize_cidr ip_network cidr (if add then a else true) (if add then b else true)) _
          f1 in
      let (ss, e3, f3) = >>=-eq-ok (sorted_sources ip_network (changed add c m.sources)) _ f2 in
      let same = validate_document-document_of (record { mode = m.mode; sources = ss }) m' f3 in
      let (n, q, t, z, h) = normalize_cidr-ok ip_network cidr _ _ e2 in
      let named : c.0 ≡ cidr = ap (λ v. v.0) h ∙ t in
      (
        m,
        e1,
        validate_document-IsValid ip_network _ m' f3,
        ap (λ v. v.mode) same,
        ap (λ v. listed x v.sources) same
            ∙ sorted_sources-listed x _ e3
            ∙ changed-listed x add c m.sources
            ∙ ap (λ v. if str_eq x v then add else listed x m.sources) named,
      )
