-- ===== src/Journal/Walk.antt =====
-- Which directories the walk of `_open_root` has passed.
use kitdev_sandboxes.Base.{
  ℕ, ◌≡◌, refl, subst, inl, inr, true, false, not, List, [], ◌∷◌, ◌++◌, all, none, some, arith,
  Bool-cases, Option-cases,
}
use kitdev_sandboxes.Base.Errors.{ok, raise_if-eq-ok, >>=-eq-ok, ok_inj, not-eq-false}
use kitdev_sandboxes.Checks.Patterns.{codes_eq}
use kitdev_sandboxes.Planning.Paths.{posix_root, posix_parts}
use kitdev_sandboxes.Journal.Texts.{Codes, security, safe_path_component}
use kitdev_sandboxes.Journal.Policy.{
  Metadata, JournalSecurityPolicy, Tree, accepts, accepts_ancestor, is_directory, is_shared_mode,
  is_safe_path, passes, open_parts, open_root, trusted_parts, parts_of, slash, is_trusted,
  outside_prefix, unsafe_ancestry,
}

-- A directory that only root can change.
abbrev pub IsRootOwned : Metadata → Type 0
IsRootOwned m =
    (is_directory m.kind ≡ true) × (m.uid ≡ 0) × (m.gid ≡ 0) × (is_shared_mode m.mode ≡ false)

-- Every part leads, from the directory before it, to a directory that only root can change; the
-- last of them is `final`.
abbrev pub Walked : Tree → List Codes → Metadata → List Codes → Metadata → Type 0
Walked tree opened here [] final = here ≡ final
Walked tree opened here (c ∷ cs) final =
    (m : Metadata) × (tree (opened ++ (c ∷ [])) ≡ some m)
    × IsRootOwned m
    × Walked tree (opened ++ (c ∷ [])) m cs final

accepts_ancestor-IsRootOwned :
    (p : JournalSecurityPolicy) (m : Metadata) → accepts_ancestor p m false ≡ true → IsRootOwned m
unfolding accepts_ancestor
accepts_ancestor-IsRootOwned p m h = ground arith

module _ (p : JournalSecurityPolicy) (tree : Tree) where
  open_parts-Walked :
      (opened : List Codes) (here : Metadata) (parts : List Codes) {final : Metadata}
      → open_parts p tree none opened here parts ≡ ok final
      → Walked tree opened here parts final
  unfolding open_parts passes
  open_parts-Walked opened here [] e = ok_inj e
  open_parts-Walked opened here (c ∷ cs) {final} e =
      elim (Option-cases (tree (opened ++ (c ∷ [])))) [
        | inl gone ↦ cc (rw (gone, open_parts) at e)
        | inr (m, here') ↦ elim (Bool-cases (accepts_ancestor p m false)) [
          | inl fine ↦ (
            m,
            here',
            accepts_ancestor-IsRootOwned p m fine,
            open_parts-Walked (opened ++ (c ∷ [])) m cs (rw (here', open_parts, fine) at e),
          )
          | inr bad ↦ cc (rw (here', open_parts, bad) at e)
        ]
      ]

  all_safe :
      (path : Codes) → is_safe_path path ≡ true → all safe_path_component (posix_parts path) ≡ true
  unfolding is_safe_path
  all_safe path h = ground arith

  -- Without a trusted prefix, the directory that is opened as the journal's root is reached from "/"
  -- through directories that only root can change, "/" and itself included; its owner and mode are
  -- those of the policy, and the components of its path are safe.
  pub open_root-Walked :
      (top : Metadata) (links : ℕ) (root : Codes) (opened : Metadata)
      → p.trusted_prefix ≡ none
      → open_root p tree top links root ≡ ok opened
      → IsRootOwned top
        × Walked tree slash top (posix_parts root) opened
        × (accepts p opened links true [] ≡ true)
        × (all safe_path_component (posix_parts root) ≡ true)
  unfolding open_root
  open_root-Walked top links root opened h e =
      let (_, e1) =
        raise_if-eq-ok (codes_eq (posix_root root) []) (security "journal root must be absolute") _
          e in
      let (unsafe, e2) =
        raise_if-eq-ok (not (is_safe_path root))
          (security "journal root must be a safe non-root path") _ e1 in
      let (_, e3) =
        raise_if-eq-ok (outside_prefix (trusted_parts p) (parts_of root))
          (security "trusted prefix is not an ancestor of journal root") _ e2 in
      let (shut, e4) =
        raise_if-eq-ok (not (accepts_ancestor p top (is_trusted (trusted_parts p) slash)))
          (security unsafe_ancestry) _ e3 in
      let (m, walked, e5) =
        >>=-eq-ok (open_parts p tree (trusted_parts p) slash top (posix_parts root)) _ e4 in
      let (rejected, e6) =
        raise_if-eq-ok (not (accepts p m links true []))
          (security "journal root owner, mode, or type is unsafe") _ e5 in
      let same = ok_inj e6 in
      let untrusted : trusted_parts p ≡ none = rw h refl in
      (
        accepts_ancestor-IsRootOwned p top (
            subst (λ t. accepts_ancestor p top (is_trusted t slash) ≡ true) untrusted
              (not-eq-false _ shut)),
        subst (Walked tree slash top (posix_parts root)) same (
            open_parts-Walked slash top (posix_parts root) (
              subst (λ t. open_parts p tree t slash top (posix_parts root) ≡ ok m) untrusted
                walked)),
        subst (λ x. accepts p x links true [] ≡ true) same (not-eq-false _ rejected),
        all_safe root (not-eq-false _ unsafe),
      )
