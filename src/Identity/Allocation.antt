-- ===== src/Identity/Allocation.antt =====
-- The numbers that `_allocate` finds: the first that are free.
use kitdev_sandboxes.Base.{
  ℕ, zero, suc, ◌+◌, ◌-◌, ◌≡◌, ◌≤◌, ◌<◌, refl, sym, subst, ◌∙◌, inl, inr, true, false, Option, none,
  some, List, [], ◌∷◌, ◌++◌, length, leb, if◌then◌else◌, arith, All, length-append, Bool-cases,
  All-map,
}
use kitdev_sandboxes.Identity.Types.{has}
use kitdev_sandboxes.Identity.Mapping.{allocate_from, allocate}

some_inj : {x y : List ℕ} → some x ≡ some y → x ≡ y
some_inj h = cc

-- The free numbers among the `n` from `first` on.
unfoldable pub free : ℕ → ℕ → List ℕ → List ℕ
free zero first occupied = []
free (suc n) first occupied =
    let rest = free n (first + 1) occupied in if has first occupied then rest else first ∷ rest

unfoldable pub take : ℕ → List ℕ → List ℕ
take zero xs = []
take (suc n) [] = []
take (suc n) (x ∷ xs) = x ∷ take n xs

append_assoc : (xs : List ℕ) (y : ℕ) (zs : List ℕ) → ((xs ++ (y ∷ [])) ++ zs) ≡ (xs ++ (y ∷ zs))
append_assoc [] y zs = refl
append_assoc (x ∷ xs) y zs = rw (append_assoc xs y zs) refl

-- What the loop returns, `missing` numbers short of the count, after `available`.
abbrev found : List ℕ → ℕ → List ℕ → Option (List ℕ)
found available missing frees =
    if leb missing (length frees) then some (available ++ take missing frees) else none

found-cons :
    (available : List ℕ) (x missing : ℕ) (frees : List ℕ)
    → found (available ++ (x ∷ [])) (suc missing) frees
      ≡ found available (suc (suc missing)) (x ∷ frees)
unfolding take
found-cons available x missing frees =
    rw (append_assoc available x (take (suc missing) frees)) (ground arith)

length-snoc : (xs : List ℕ) (x : ℕ) → length (xs ++ (x ∷ [])) ≡ length xs + 1
length-snoc xs x = length-append xs (x ∷ [])

allocate_from-taken :
    (n first : ℕ) (occupied available : List ℕ) (count : ℕ)
    → has first occupied ≡ true
    → allocate_from (suc n) first occupied available count
      ≡ allocate_from n (first + 1) occupied available count
unfolding allocate_from
allocate_from-taken n first occupied available count q = rw q refl

allocate_from-last :
    (n first : ℕ) (occupied available : List ℕ)
    → has first occupied ≡ false
    → allocate_from (suc n) first occupied available (length available + 1)
      ≡ some (available ++ (first ∷ []))
unfolding allocate_from
allocate_from-last n first occupied available q = rw q (ground (arith, length-snoc available first))

allocate_from-more :
    (n first : ℕ) (occupied available : List ℕ) (missing : ℕ)
    → has first occupied ≡ false
    → allocate_from (suc n) first occupied available (length available + suc (suc missing))
      ≡ allocate_from n
          (first + 1)
          occupied
          (available ++ (first ∷ []))
          (length (available ++ (first ∷ [])) + suc missing)
unfolding allocate_from
allocate_from-more n first occupied available missing q =
    let same : length available + suc (suc missing)
        ≡ length (available ++ (first ∷ [])) + suc missing =
      omega (arith, length-snoc available first) in
    rw (q, same) (ground arith)

found-one :
    (available : List ℕ) (x : ℕ) (frees : List ℕ)
    → some (available ++ (x ∷ [])) ≡ found available 1 (x ∷ frees)
unfolding take
found-one available x frees = ground arith

found-nothing :
    (first : ℕ) (occupied available : List ℕ) (missing : ℕ)
    → allocate_from 0 first occupied available (length available + suc missing)
      ≡ found available (suc missing) []
unfolding allocate_from take
found-nothing first occupied available missing = ground arith

allocate_from-found :
    (n first : ℕ) (occupied available : List ℕ) (missing : ℕ)
    → allocate_from n first occupied available (length available + suc missing)
      ≡ found available (suc missing) (free n first occupied)
unfolding free
allocate_from-found zero first occupied available missing =
    found-nothing first occupied available missing
allocate_from-found (suc n) first occupied available zero = elim (Bool-cases (has first occupied)) [
  | inl q ↦
      rw (q, allocate_from-taken n first occupied available (length available + 1) q)
        (allocate_from-found n (first + 1) occupied available zero)
  | inr q ↦ rw q (
      allocate_from-last n first occupied available q
      ∙ found-one available first (free n (first + 1) occupied))
]
allocate_from-found (suc n) first occupied available (suc m) =
    elim (Bool-cases (has first occupied)) [
      | inl q ↦
          rw (q, allocate_from-taken n first occupied available (length available + suc (suc m)) q)
            (allocate_from-found n (first + 1) occupied available (suc m))
      | inr q ↦ rw q (
          allocate_from-more n first occupied available m q
          ∙ allocate_from-found n (first + 1) occupied (available ++ (first ∷ [])) m
          ∙ found-cons available first m (free n (first + 1) occupied))
    ]

-- With a positive count the result of `_allocate` is the first free numbers of the range, as many
-- as were asked for and in order, or nothing when the range has fewer.
pub allocate-first :
    (first last : ℕ) (occupied : List ℕ) (count : ℕ)
    → 0 < count
    → allocate first last occupied count ≡ (
        if leb count (length (free (last + 1 - first) first occupied))
        then some (take count (free (last + 1 - first) first occupied))
        else none)
unfolding allocate
allocate-first first last occupied zero h = absurd (omega arith)
allocate-first first last occupied (suc m) h =
    let same : 0 + suc m ≡ suc m = omega arith in
    subst
      (λ c.
        allocate_from (last + 1 - first) first occupied [] c
        ≡ found [] (suc m) (free (last + 1 - first) first occupied))
      same (allocate_from-found (last + 1 - first) first occupied [] m)

pub free-lem :
    (n first : ℕ) (occupied : List ℕ)
    → All (λ x. (first ≤ x) × (x < first + n) × (has x occupied ≡ false)) (free n first occupied)
unfolding free
free-lem zero first occupied = tt
free-lem (suc n) first occupied =
    let rest : All (λ x. (first ≤ x) × (x < first + suc n) × (has x occupied ≡ false))
        (free n (first + 1) occupied) =
      All-map (free n (first + 1) occupied) (λ x (a, b, c). (omega arith, omega arith, c))
        (free-lem n (first + 1) occupied) in
    elim (Bool-cases (has first occupied)) [
      | inl q ↦ rw q rest
      | inr q ↦ rw q ((omega arith, omega arith, q), rest)
    ]

take-All : (P : ℕ → Type 0) (n : ℕ) (xs : List ℕ) → All P xs → All P (take n xs)
unfolding take
take-All P zero xs h = tt
take-All P (suc n) [] h = tt
take-All P (suc n) (x ∷ xs) (p, h) = (p, take-All P n xs h)

pub allocate-free :
    (first last : ℕ) (occupied : List ℕ) (count : ℕ) {ids : List ℕ}
    → 0 < count
    → allocate first last occupied count ≡ some ids
    → All (λ x. (first ≤ x) × (x ≤ last) × (has x occupied ≡ false)) ids
allocate-free first last occupied count h e =
    let frees = free (last + 1 - first) first occupied in
    let good : All (λ x. (first ≤ x) × (x ≤ last) × (has x occupied ≡ false)) frees =
      All-map frees (λ x (a, b, c). (a, omega arith, c))
        (free-lem (last + 1 - first) first occupied) in
    let f = sym (allocate-first first last occupied count h) ∙ e in
    elim (Bool-cases (leb count (length frees))) [
      | inl q ↦ subst (All _) (some_inj (rw q at f)) (take-All _ count frees good)
      | inr q ↦ let g = rw q at f in absurd cc
    ]
