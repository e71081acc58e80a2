-- ===== src/PrivateEnv/Attempts.antt =====
-- What the two attempts to write a curl configuration leave, and what is taken away again.
use kitdev_sandboxes.Base.{
  ◌≡◌, refl, sym, ◌∙◌, inl, inr, String, str_eq, str_eq_iff, Bool, true, false, none, some, arith,
  Bool-cases, Option-cases,
}
use kitdev_sandboxes.Base.Errors.{ok, err}
use kitdev_sandboxes.Base.Dict.{lookup, insert, erase, contains, lookup-insert, lookup-erase}
use kitdev_sandboxes.PrivateEnv.Document.{Codes, Checked}
use kitdev_sandboxes.PrivateEnv.Curl.{
  Entries, Fault, unharmed, uncreated, broken, unclosed, Output, remove, write_files, take,
  write_exclusive_at, after_admin, after_api, admin_header, api_header,
}

-- Every name leads to what it led to.
abbrev pub Same : Entries → Entries → Type 0
Same before after = (name : String) → lookup name after ≡ lookup name before

-- Every name but the two leads to what it led to.
abbrev pub Beside : Entries → Entries → Type 0
Beside before after =
    (name : String)
    → str_eq name "admin.curlrc" ≡ false
    → str_eq name "api.curlrc" ≡ false
    → lookup name after ≡ lookup name before

contains-eq-false : (k : String) (es : Entries) → contains k es ≡ false → lookup k es ≡ none
unfolding contains
contains-eq-false k es h = ground arith

-- What is put at a name that was free, and taken away, leaves nothing.
erase-insert :
    (k : String) (v : Codes) (es : Entries)
    → contains k es ≡ false
    → Same es (erase k (insert k v es))
erase-insert k v es free name =
    lookup-erase k name (insert k v es)
    ∙ ground (arith, lookup-insert k name v es, contains-eq-false k es free, str_eq_iff name k)

-- A new file is written whole, at a name that was free, or nothing is.
pub data Written (name : String) (payload : Codes) (es : Entries)
    : Checked (Unit {0}) × Entries → Type 0 where
  failed :
      (reason : String) (after : Entries)
      → Same es after
      → Written name payload es (err reason, after)
  created : contains name es ≡ false → Written name payload es (ok tt, insert name payload es)

abbrev pub is_closed : Fault → Bool
is_closed (unclosed reason) = false
is_closed _ = true

write_exclusive_at-Written :
    (fault : Fault) (removable : Bool) (name : String) (payload : Codes) (es : Entries)
    → is_closed fault ≡ true
    → removable ≡ true
    → Written name payload es (write_exclusive_at fault removable name payload es)
unfolding write_exclusive_at
write_exclusive_at-Written fault removable name payload es closes removes =
    elim (Bool-cases (contains name es)) [
      | inl taken ↦
          rw (taken, write_exclusive_at) (Written.failed "e2e_config_create_failed" es (λ n. refl))
      | inr free ↦ rw (free, write_exclusive_at) (by_fault fault removable free closes removes)
    ]
  where
    by_fault :
        (f : Fault) (r : Bool)
        → contains name es ≡ false
        → is_closed f ≡ true
        → r ≡ true
        → Written name payload es (elim f [
          | unharmed ↦ (ok tt, insert name payload es)
          | uncreated ↦ (err "e2e_config_create_failed", es)
          | broken n reason ↦ (err reason, remove r name (insert name (take n payload) es))
          | unclosed reason ↦ (err reason, insert name payload es)
        ])
    by_fault unharmed r free c q = Written.created free
    by_fault uncreated r free c q = Written.failed "e2e_config_create_failed" es (λ n. refl)
    by_fault (broken n reason) true free c q =
        Written.failed reason (erase name (insert name (take n payload) es))
          (erase-insert name (take n payload) es free)
    by_fault (broken n reason) false free c q = absurd (cc q)
    by_fault (unclosed reason) r free c q = absurd (cc c)

-- What `write_files` leaves: what was there, or both files besides.
pub data Outcome (token key : Codes) (before : Entries)
    : Checked (Unit {0}) × Entries → Type 0 where
  restored :
      (reason : String) (after : Entries)
      → Same before after
      → Outcome token key before (err reason, after)
  both :
      (after : Entries)
      → lookup "admin.curlrc" before ≡ none
      → lookup "api.curlrc" before ≡ none
      → lookup "admin.curlrc" after ≡ some (admin_header token)
      → lookup "api.curlrc" after ≡ some (api_header key)
      → Beside before after
      → Outcome token key before (ok tt, after)

-- The first file is taken away again.
erase-first :
    (v : Codes) (before after : Entries)
    → contains "admin.curlrc" before ≡ false
    → Same (insert "admin.curlrc" v before) after
    → Same before (erase "admin.curlrc" after)
erase-first v before after free same name =
    lookup-erase "admin.curlrc" name after
    ∙ ground (
      arith,
      same name,
      lookup-insert "admin.curlrc" name v before,
      contains-eq-false "admin.curlrc" before free,
      str_eq_iff name "admin.curlrc",
    )

both_written :
    (token key : Codes) (before : Entries)
    → contains "admin.curlrc" before ≡ false
    → contains "api.curlrc" (insert "admin.curlrc" (admin_header token) before) ≡ false
    → Outcome token key before (
      ok tt,
      insert "api.curlrc" (api_header key) (insert "admin.curlrc" (admin_header token) before),
    )
unfolding lookup str_eq
both_written token key before free free' =
    let first = insert "admin.curlrc" (admin_header token) before in
    Outcome.both (insert "api.curlrc" (api_header key) first)
      (contains-eq-false "admin.curlrc" before free)
      (sym (lookup-insert "admin.curlrc" "api.curlrc" (admin_header token) before)
        ∙ contains-eq-false "api.curlrc" first free')
      (lookup-insert "api.curlrc" "admin.curlrc" (api_header key) first
        ∙ lookup-insert "admin.curlrc" "admin.curlrc" (admin_header token) before)
      (lookup-insert "api.curlrc" "api.curlrc" (api_header key) first)
      (λ name other other'.
        lookup-insert "api.curlrc" name (api_header key) first
        ∙ ground (arith, lookup-insert "admin.curlrc" name (admin_header token) before))

-- The files that are written and the directory can be closed, and what was made can be removed.
pub record IsOrderly (o : Output) : Type 0 where
  pub admin_closes : is_closed o.admin_fault ≡ true
  pub api_closes : is_closed o.api_fault ≡ true
  pub parent_closes : o.close_fault ≡ none
  pub removes_admin : o.admin_removable ≡ true
  pub removes_api : o.api_removable ≡ true

module _ (o : Output) (orderly : IsOrderly o) (token key : Codes) where
  after_api-Outcome :
      (r : Checked (Unit {0}) × Entries)
      → contains "admin.curlrc" o.entries ≡ false
      → Written "api.curlrc"
          (api_header key)
          (insert "admin.curlrc" (admin_header token) o.entries)
          r
      → Outcome token key o.entries (after_api o r)
  after_api-Outcome _ free (Written.failed reason after same) = rw orderly.removes_admin (
      Outcome.restored reason (erase "admin.curlrc" after)
        (erase-first (admin_header token) o.entries after free same))
  after_api-Outcome _ free (Written.created free') = elim (Option-cases o.end_fault) [
    | inl fine ↦ rw fine (both_written token key o.entries free free')
    | inr (reason, late) ↦
        let first = insert "admin.curlrc" (admin_header token) o.entries in
        let second = erase "api.curlrc" (insert "api.curlrc" (api_header key) first) in
        rw (late, orderly.removes_admin, orderly.removes_api)
          (Outcome.restored reason (erase "admin.curlrc" second) (
            erase-first (admin_header token) o.entries second free
              (erase-insert "api.curlrc" (api_header key) first free')))
  ]

  after_admin-Outcome :
      (r : Checked (Unit {0}) × Entries)
      → Written "admin.curlrc" (admin_header token) o.entries r
      → Outcome token key o.entries (after_admin o key r)
  after_admin-Outcome _ (Written.failed reason after same) = Outcome.restored reason after same
  after_admin-Outcome _ (Written.created free) =
      after_api-Outcome
        (write_exclusive_at o.api_fault o.api_removable "api.curlrc" (api_header key)
          (insert "admin.curlrc" (admin_header token) o.entries))
        free
        (write_exclusive_at-Written o.api_fault o.api_removable "api.curlrc" (api_header key)
          (insert "admin.curlrc" (admin_header token) o.entries) orderly.api_closes
          orderly.removes_api)

  pub write_files-Outcome : Outcome token key o.entries (write_files o token key)
  unfolding write_files
  write_files-Outcome = elim (Bool-cases o.opens) [
    | inr shut ↦
        rw (shut, write_files)
          (Outcome.restored "e2e_config_parent_open_failed" o.entries (λ n. refl))
    | inl opened ↦ elim (Bool-cases o.replaced) [
      | inl other ↦
          rw (opened, orderly.parent_closes, other, write_files)
            (Outcome.restored "e2e_config_parent_changed" o.entries (λ n. refl))
      | inr same ↦
          rw (opened, orderly.parent_closes, same, write_files)
            (after_admin-Outcome
              (write_exclusive_at o.admin_fault o.admin_removable "admin.curlrc"
                (admin_header token) o.entries)
              (write_exclusive_at-Written o.admin_fault o.admin_removable "admin.curlrc"
                (admin_header token) o.entries orderly.admin_closes orderly.removes_admin))
    ]
  ]
