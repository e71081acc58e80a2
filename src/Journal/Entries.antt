-- ===== src/Journal/Entries.antt =====
-- Lemmas on the directory's entries: which inode a name leads to, and how many names lead to one.
use kitdev_sandboxes.Base.{
  ℕ, ◌≤◌, ◌<◌, ◌≡◌, refl, ap, inl, inr, true, false, [], ◌∷◌, ◌++◌, none, some, length,
  length-append, arith, Bool-cases,
}
use kitdev_sandboxes.Base.Strings.{codes}
use kitdev_sandboxes.Checks.Patterns.{codes_eq}
use kitdev_sandboxes.Journal.Texts.{Codes, starts_with}
use kitdev_sandboxes.Journal.Directory.{Entries, find_entry, link_count, remove_entry, fresh_inode}
use kitdev_sandboxes.Journal.Files.{temp_prefix}
use kitdev_sandboxes.Journal.Roundtrip.{codes_eq_iff}

pub find_entry-lt-fresh_inode :
    (name : Codes) (es : Entries) {i : ℕ} → find_entry name es ≡ some i → i < fresh_inode es
unfolding find_entry fresh_inode
find_entry-lt-fresh_inode name [] h = cc
find_entry-lt-fresh_inode name ((n, j) ∷ es) {i} h =
    let later : find_entry name es ≡ some i → i < fresh_inode es =
      find_entry-lt-fresh_inode name es in
    ground (arith, later)

pub link_count_above : (i : ℕ) (es : Entries) → fresh_inode es ≤ i → link_count i es ≡ 0
unfolding link_count fresh_inode
link_count_above i [] h = refl
link_count_above i ((n, j) ∷ es) h = ground (arith, link_count_above i es)

pub link_count-remove_entry :
    (i : ℕ) (name : Codes) (es : Entries)
    → link_count i es ≡ 0
    → link_count i (remove_entry name es) ≡ 0
unfolding link_count remove_entry
link_count-remove_entry i name [] h = refl
link_count-remove_entry i name ((n, j) ∷ es) h = ground (arith, link_count-remove_entry i name es)

pub find_entry-remove_entry :
    (name other : Codes) (es : Entries)
    → codes_eq name other ≡ false
    → find_entry name (remove_entry other es) ≡ find_entry name es
unfolding find_entry remove_entry
find_entry-remove_entry name other [] h = refl
find_entry-remove_entry name other ((n, j) ∷ es) h = ground (
  arith,
  find_entry-remove_entry name other es h,
  codes_eq_iff other n,
  codes_eq_iff name n,
  codes_eq_iff name other,
)

-- A name that nothing stands at need not be removed.
pub remove_entry_absent :
    (name : Codes) (es : Entries) → find_entry name es ≡ none → remove_entry name es ≡ es
unfolding find_entry remove_entry
remove_entry_absent name [] h = refl
remove_entry_absent name ((n, j) ∷ es) h = ground (arith, remove_entry_absent name es)

pub codes_eq_longer :
    (name other : Codes) → length name < length other → codes_eq name other ≡ false
codes_eq_longer name other h = elim (Bool-cases (codes_eq name other)) [
  | inl e ↦ absurd (longer ((codes_eq_iff name other).0 e))
  | inr e ↦ e
]
  where
    longer : name ≡ other → ⊥
    longer e = absurd (omega (arith, ap length e))

pub codes_eq_sym : (xs ys : Codes) → codes_eq xs ys ≡ codes_eq ys xs
unfolding codes_eq
codes_eq_sym [] [] = refl
codes_eq_sym [] (y ∷ ys) = refl
codes_eq_sym (x ∷ xs) [] = refl
codes_eq_sym (x ∷ xs) (y ∷ ys) = ground (arith, codes_eq_sym xs ys)

pub temp-longer : (name token : Codes) → length name < length (temp_prefix name ++ token)
temp-longer name token = omega (
  arith,
  length-append name (codes ".tmp." ++ token),
  length-append (name ++ codes ".tmp.") token,
  length-append name (codes ".tmp."),
)

pub starts_with-append : (xs ys : Codes) → starts_with xs (xs ++ ys) ≡ true
unfolding starts_with
starts_with-append [] ys = refl
starts_with-append (x ∷ xs) ys = ground (arith, starts_with-append xs ys)

pub starts_with-length : (xs ys : Codes) → starts_with xs ys ≡ true → length xs ≤ length ys
unfolding starts_with
starts_with-length [] ys h = omega arith
starts_with-length (x ∷ xs) [] h = cc
starts_with-length (x ∷ xs) (y ∷ ys) h = ground (arith, starts_with-length xs ys)
