-- ===== src/Identity/Reuse.antt =====
-- The allocations that an accepted manifest gives back.
use kitdev_sandboxes.Base.{
  ◌≡◌, ◌≤◌, refl, sym, subst, inl, inr, String, str_eq, str_eq_iff, true, false, not, Option, none,
  some, List, [], ◌∷◌, ◌++◌, map, any, all, length, arith, Bool-cases, Option-cases, All, ◌==◌,
}
use kitdev_sandboxes.Identity.Types.{IdentityAllocation, IdentityIssue, service_names}
use kitdev_sandboxes.Identity.Mapping.{
  entry_invalid, entries_invalid, find_allocation, ordered, manifest_mapping,
}

some_inj : {x y : IdentityAllocation} → some x ≡ some y → x ≡ y
some_inj h = cc

-- Both numbers lie in the project's band.
abbrev pub IsReserved : IdentityAllocation → Type 0
IsReserved a = (61000 ≤ a.uid) × (a.uid ≤ 61999) × (61000 ≤ a.gid) × (a.gid ≤ 61999)

entry_invalid-IsReserved :
    (before : List IdentityAllocation) (a : IdentityAllocation)
    → entry_invalid before a ≡ false
    → IsReserved a
unfolding entry_invalid
entry_invalid-IsReserved before a e = (ground arith, ground arith, ground arith, ground arith)

entries_invalid-IsReserved :
    (before value : List IdentityAllocation)
    → entries_invalid before value ≡ false
    → All IsReserved value
unfolding entries_invalid
entries_invalid-IsReserved before [] e = tt
entries_invalid-IsReserved before (a ∷ rest) e = (
  entry_invalid-IsReserved before a (ground arith),
  entries_invalid-IsReserved (before ++ (a ∷ [])) rest (ground arith),
)

find_allocation-All :
    (P : IdentityAllocation → Type 0) (name : String) (value : List IdentityAllocation)
    {a : IdentityAllocation}
    → All P value
    → find_allocation name value ≡ some a
    → P a × (a.name ≡ name)
unfolding find_allocation
find_allocation-All P name [] h e = cc
find_allocation-All P name (b ∷ value) (p, h) e = elim (Bool-cases (str_eq b.name name)) [
  | inl q ↦
      let same = some_inj (rw q at e) in
      (subst P same p, subst (λ a. a.name ≡ name) same ((str_eq_iff b.name name).0 q))
  | inr q ↦ find_allocation-All P name value h (rw q at e)
]

find_allocation-none :
    (name : String) (value : List IdentityAllocation)
    → find_allocation name value ≡ none
    → any (λ a. str_eq a.name name) value ≡ false
unfolding find_allocation
find_allocation-none name [] e = refl
find_allocation-none name (b ∷ value) e = elim (Bool-cases (str_eq b.name name)) [
  | inl q ↦ let f = rw q at e in cc
  | inr q ↦ rw q (find_allocation-none name value (rw q at e))
]

ordered-some :
    (value : List IdentityAllocation) (n : String) (ns : List String) {a : IdentityAllocation}
    → find_allocation n value ≡ some a
    → ordered value (n ∷ ns) ≡ a ∷ ordered value ns
unfolding ordered
ordered-some value n ns q = rw (q, ordered) refl

ordered-All :
    (P : IdentityAllocation → Type 0) (value : List IdentityAllocation) (names : List String)
    → All P value
    → all (λ n. any (λ a. str_eq a.name n) value) names ≡ true
    → All P (ordered value names) × (map (λ a. a.name) (ordered value names) ≡ names)
unfolding ordered
ordered-All P value [] h c = (tt, refl)
ordered-All P value (n ∷ ns) h c =
    let (k, m) = ordered-All P value ns h (ground arith) in
    elim (Option-cases (find_allocation n value)) [
      | inl q ↦ let f = find_allocation-none n value q in absurd (ground arith)
      | inr (a, q) ↦
          let (p, s) = find_allocation-All P n value h q in
          subst (λ as_found. All P as_found × (map (λ a. a.name) as_found ≡ n ∷ ns))
            (sym (ordered-some value n ns q)) ((p, k), rw (m, s) refl)
    ]

-- The allocations of a manifest that is accepted are those of the services, one for each and in the
-- order of the code, with UIDs and GIDs in the project's band, and there is no issue.
pub manifest_mapping-IsReserved :
    (value m : List IdentityAllocation) (issue : Option IdentityIssue)
    → manifest_mapping (some value) ≡ (some m, issue)
    → All IsReserved m × (map (λ a. a.name) m ≡ service_names) × (issue ≡ none)
unfolding manifest_mapping
manifest_mapping-IsReserved value m issue e =
    elim (Bool-cases (not (length value == length service_names))) [
      | inl a ↦ let f = rw a at e in absurd cc
      | inr a ↦ elim (Bool-cases (entries_invalid [] value)) [
        | inl b ↦ let f = rw (a, b) at e in absurd cc
        | inr b ↦
            elim (Bool-cases (not (all (λ n. any (λ a. str_eq a.name n) value) service_names))) [
              | inl c ↦ let f = rw (a, b, c) at e in absurd cc
              | inr c ↦
                  let f = rw (a, b, c) at e in
                  let (k, n) =
                    ordered-All IsReserved value service_names
                      (entries_invalid-IsReserved [] value b) (ground arith) in
                  let same : ordered value service_names ≡ m = cc in
                  let none_left : issue ≡ none = cc in
                  (
                    subst (All IsReserved) same k,
                    subst (λ x. map (λ a. a.name) x ≡ service_names) same n,
                    none_left,
                  )
            ]
      ]
    ]
