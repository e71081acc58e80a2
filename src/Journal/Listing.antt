-- ===== src/Journal/Listing.antt =====
-- The temporary files that a directory lists.
use kitdev_sandboxes.Base.{
  ℕ, ◌+◌, ◌≡◌, ◌≢◌, refl, sym, ap, subst, ◌∙◌, inl, inr, Bool, false, not, List, [], ◌∷◌, ◌++◌, ltb,
  ◌||◌, length-append, arith, Bool-cases,
}
use kitdev_sandboxes.Base.Errors.{ok, raise_if-eq-ok, >>=-eq-ok, ok_inj}
use kitdev_sandboxes.Base.Strings.{codes, codes_leb}
use kitdev_sandboxes.Base.Sort.{sort_by, insert_by}
use kitdev_sandboxes.Checks.Patterns.{utf8_size}
use kitdev_sandboxes.Journal.Texts.{Codes, security, starts_with, safe_path_component}
use kitdev_sandboxes.Journal.Codec.{max_journal_bytes}
use kitdev_sandboxes.Journal.Directory.{Directory, names_of}
use kitdev_sandboxes.Journal.Files.{
  scan_names, directory_entries, candidates, keep_if, temp_prefix, is_temp, is_token, rest_after,
  max_directory_entries,
}
use kitdev_sandboxes.Journal.Store.{temp_name}
use kitdev_sandboxes.Journal.Entries.{starts_with-append, starts_with-length}

scan_names-eq :
    (count total : ℕ) (names : List Codes) {ns : List Codes}
    → scan_names count total names ≡ ok ns
    → names ≡ ns
unfolding scan_names
scan_names-eq count total [] e = ok_inj e
scan_names-eq count total (n ∷ names) e =
    let (_, e1) =
      raise_if-eq-ok (not (safe_path_component n))
        (security "journal directory contains an unsafe entry name") _ e in
    let (_, e2) =
      raise_if-eq-ok
        (ltb max_directory_entries (count + 1) || ltb max_journal_bytes (total + utf8_size n))
        (security "journal directory contains too many entries") _ e1 in
    let (rest, scanned, e3) = >>=-eq-ok (scan_names (count + 1) (total + utf8_size n) names) _ e2 in
    ap (λ x. n ∷ x) (scan_names-eq (count + 1) (total + utf8_size n) names scanned) ∙ ok_inj e3

insert_by-ne-nil : {A : Type 0} (le : A → A → Bool) (x : A) (xs : List A) → insert_by le x xs ≢ []
unfolding insert_by
insert_by-ne-nil le x [] e = cc
insert_by-ne-nil le x (y ∷ ys) e = elim (Bool-cases (le x y)) [
  | inl b ↦ cc (rw (b, insert_by) at e)
  | inr b ↦ cc (rw (b, insert_by) at e)
]

sort_by-nil : {A : Type 0} (le : A → A → Bool) (xs : List A) → sort_by le xs ≡ [] → xs ≡ []
unfolding sort_by
sort_by-nil le [] e = refl
sort_by-nil le (x ∷ xs) e = absurd (insert_by-ne-nil le x (sort_by le xs) e)

-- A directory without candidates lists no name with the prefix.
pub candidates-none :
    (name : Codes) (d : Directory)
    → candidates name d ≡ ok []
    → keep_if (starts_with (temp_prefix name)) (names_of d) ≡ []
unfolding candidates directory_entries
candidates-none name d e =
    let (ns, listed, e1) = >>=-eq-ok (directory_entries d) _ e in
    let empty = sort_by-nil codes_leb (keep_if (starts_with (temp_prefix name)) ns) (ok_inj e1) in
    subst (λ x. keep_if (starts_with (temp_prefix name)) x ≡ [])
      (sym (scan_names-eq 0 0 (names_of d) listed)) empty

name-unprefixed : (name : Codes) → starts_with (temp_prefix name) name ≡ false
name-unprefixed name = elim (Bool-cases (starts_with (temp_prefix name) name)) [
  | inl e ↦ absurd (
      omega
        (arith, starts_with-length (temp_prefix name) name e, length-append name (codes ".tmp.")))
  | inr e ↦ e
]

-- A directory that lists the journal, its temporary file, and no other such file has that file as
-- its one candidate.
pub candidates-one :
    (name token : Codes) (d : Directory) (rest : List Codes) {ns : List Codes}
    → names_of d ≡ name ∷ temp_name name token ∷ rest
    → keep_if (starts_with (temp_prefix name)) rest ≡ []
    → directory_entries d ≡ ok ns
    → candidates name d ≡ ok (temp_name name token ∷ [])
unfolding candidates directory_entries keep_if sort_by insert_by
candidates-one name token d rest {ns} names empty listed =
    let same = sym (scan_names-eq 0 0 (names_of d) listed) ∙ names in
    rw (listed, same, name-unprefixed name, starts_with-append (temp_prefix name) token, empty) refl

rest_after-append : (xs ys : Codes) → rest_after xs (xs ++ ys) ≡ ys
rest_after-append [] ys = refl
rest_after-append (x ∷ xs) ys = rest_after-append xs ys

pub is_temp-temp_name : (name token : Codes) → is_temp name (temp_name name token) ≡ is_token token
unfolding is_temp
is_temp-temp_name name token =
    rw (starts_with-append (temp_prefix name) token, rest_after-append (temp_prefix name) token)
      refl
