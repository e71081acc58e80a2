-- ===== src/Base/Sort.antt =====
-- `sorted(xs, key=...)`: a stable sort by an order on the elements.
use mathlib.Core.Path.{◌≡◌, refl}
use mathlib.Core.Bool.{Bool, true, false, ◌||◌}
use mathlib.Core.List.{List, [], ◌∷◌}
use native.Mathlib.Omega.{arith}
use mathlib.Core.Logic.{◌⊎◌, inl, inr}
use kitdev_sandboxes.Base.Tests.{if◌then◌else◌, Bool-cases}
use kitdev_sandboxes.Base.Lists.{any, All, Among}

module _ {ℓ} {A : Type ℓ} (le : A → A → Bool) where
  unfoldable pub insert_by : A → List A → List A
  insert_by x [] = x ∷ []
  insert_by x (y ∷ ys) = let rest = insert_by x ys in if le x y then x ∷ y ∷ ys else y ∷ rest

  unfoldable pub sort_by : List A → List A
  unfolding insert_by
  sort_by [] = []
  sort_by (x ∷ xs) = insert_by x (sort_by xs)

  -- Neighbours are in order.
  abbrev pub AllBelow : A → List A → Type 0
  AllBelow x [] = Unit
  AllBelow x (y ∷ ys) = le x y ≡ true

  abbrev pub IsSorted : List A → Type 0
  IsSorted [] = Unit
  IsSorted (x ∷ xs) = AllBelow x xs × IsSorted xs

module _ {ℓ} {A : Type ℓ} (le : A → A → Bool) where
  any-insert_by :
      (p : A → Bool) (x : A) (xs : List A) → any p (insert_by le x xs) ≡ (p x || any p xs)
  unfolding insert_by
  any-insert_by p x [] = refl
  any-insert_by p x (y ∷ ys) = ground (arith, any-insert_by p x ys)

  pub any-sort_by : (p : A → Bool) (xs : List A) → any p (sort_by le xs) ≡ any p xs
  unfolding sort_by
  any-sort_by p [] = refl
  any-sort_by p (x ∷ xs) = ground (arith, any-insert_by p x (sort_by le xs), any-sort_by p xs)

  All-insert_by {κ} :
      (P : A → Type κ) (x : A) (xs : List A) → P x → All P xs → All P (insert_by le x xs)
  unfolding insert_by
  All-insert_by P x [] h hs = (h, tt)
  All-insert_by P x (y ∷ ys) h hs = elim (Bool-cases (le x y)) [
    | inl e ↦ rw e (h, hs)
    | inr e ↦ rw e (hs.0, All-insert_by P x ys h hs.1)
  ]

  pub All-sort_by {κ} : (P : A → Type κ) (xs : List A) → All P xs → All P (sort_by le xs)
  unfolding sort_by
  All-sort_by P [] h = tt
  All-sort_by P (x ∷ xs) h = All-insert_by P x (sort_by le xs) h.0 (All-sort_by P xs h.1)

  module _ (total : (x y : A) → le x y ≡ false → le y x ≡ true) where
    AllBelow-insert_by :
        (x y : A) (ys : List A)
        → le y x ≡ true
        → AllBelow le y ys
        → AllBelow le y (insert_by le x ys)
    unfolding insert_by
    AllBelow-insert_by x y [] h b = h
    AllBelow-insert_by x y (z ∷ zs) h b = ground arith

    insert_by-IsSorted : (x : A) (xs : List A) → IsSorted le xs → IsSorted le (insert_by le x xs)
    unfolding insert_by
    insert_by-IsSorted x [] s = (tt, tt)
    insert_by-IsSorted x (y ∷ ys) s = elim (Bool-cases (le x y)) [
      | inl e ↦ rw e (e, s)
      | inr e ↦ rw e (AllBelow-insert_by x y ys (total x y e) s.0, insert_by-IsSorted x ys s.1)
    ]

    pub sort_by-IsSorted : (xs : List A) → IsSorted le (sort_by le xs)
    unfolding sort_by
    sort_by-IsSorted [] = tt
    sort_by-IsSorted (x ∷ xs) = insert_by-IsSorted x (sort_by le xs) (sort_by-IsSorted xs)

module _ {A : Type 0} (le : A → A → Bool) where
  Among-insert_by : (x a : A) (xs : List A) → (x ≡ a) ⊎ Among x xs → Among x (insert_by le a xs)
  unfolding insert_by
  Among-insert_by x a [] h = h
  Among-insert_by x a (y ∷ ys) h = elim (Bool-cases (le a y)) [
    | inl e ↦ rw e h
    | inr e ↦ rw e (later (Among-insert_by x a ys) h)
  ]
    where
      later :
          ((x ≡ a) ⊎ Among x ys → Among x (insert_by le a ys))
          → (x ≡ a) ⊎ ((x ≡ y) ⊎ Among x ys)
          → (x ≡ y) ⊎ Among x (insert_by le a ys)
      later keep (inl p) = inr (keep (inl p))
      later keep (inr (inl p)) = inl p
      later keep (inr (inr m)) = inr (keep (inr m))

  pub Among-sort_by : (x : A) (xs : List A) → Among x xs → Among x (sort_by le xs)
  unfolding sort_by
  Among-sort_by x [] m = m
  Among-sort_by x (y ∷ ys) (inl e) = Among-insert_by x y (sort_by le ys) (inl e)
  Among-sort_by x (y ∷ ys) (inr m) =
      Among-insert_by x y (sort_by le ys) (inr (Among-sort_by x ys m))
