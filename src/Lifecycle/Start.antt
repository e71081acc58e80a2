-- ===== src/Lifecycle/Start.antt =====
-- What the subprocess of `run_lifecycle` is started with.
use kitdev_sandboxes.Base.{
  str_eq, ◌≡◌, ◌≢◌, [], refl, sym, ap, subst, Bool, true, false, not, ◌++◌, Option, none, some, any,
  All, All-append, String, arith,
}
use kitdev_sandboxes.Base.Errors.{ok, >>=-eq-ok, raise_if-eq-ok, ok_inj, not-eq-false}
use kitdev_sandboxes.Base.Strings.{codes, str_mem}
use kitdev_sandboxes.Config.{LifecycleMode, DeploymentProfile}
use kitdev_sandboxes.Planning.Paths.{posix_root, posix_text}
use kitdev_sandboxes.Lifecycle.Status.{Codes}
use kitdev_sandboxes.Lifecycle.Run.{
  Invocation, Environment, operations, mode_value, profile_value, is_terminal_control, path_refused,
  file_entry, fixed_environment, invocation, value_error, runtime_error,
}

-- What may be passed to the script: the fixed variables, the two of the configuration, and the paths
-- that were given, each of them absolute.
pub data Passed (mode : LifecycleMode) (profile : DeploymentProfile)
    (api_key_file template_id_file : Option Codes) : String × Codes → Type 0 where
  search_path :
      Passed mode profile api_key_file template_id_file
        ("PATH", codes "/usr/sbin:/usr/bin:/sbin:/bin")
  lang : Passed mode profile api_key_file template_id_file ("LANG", codes "C")
  language : Passed mode profile api_key_file template_id_file ("LANGUAGE", codes "C")
  lc_all : Passed mode profile api_key_file template_id_file ("LC_ALL", codes "C")
  tz : Passed mode profile api_key_file template_id_file ("TZ", codes "UTC")
  home : Passed mode profile api_key_file template_id_file ("HOME", codes "/root")
  lifecycle :
      Passed mode profile api_key_file template_id_file
        ("KITDEV_LIFECYCLE", codes (mode_value mode))
  deployment :
      Passed mode profile api_key_file template_id_file
        ("KITDEV_PROFILE", codes (profile_value profile))
  api_key :
      (path : Codes)
      → api_key_file ≡ some path
      → posix_root path ≢ []
      → Passed mode profile api_key_file template_id_file
          ("KITDEV_E2E_API_KEY_FILE", posix_text path)
  template_id :
      (path : Codes)
      → template_id_file ≡ some path
      → posix_root path ≢ []
      → Passed mode profile api_key_file template_id_file
          ("KITDEV_E2E_TEMPLATE_ID_FILE", posix_text path)

-- An entry of the environment is one of those, and its text holds no control character.
abbrev pub IsPlain :
    LifecycleMode → DeploymentProfile → Option Codes → Option Codes → String × Codes → Type 0
IsPlain mode profile api_key_file template_id_file entry =
    Passed mode profile api_key_file template_id_file entry
    × (any is_terminal_control entry.1 ≡ false)

path_refused-eq-false :
    (path : Codes)
    → path_refused path ≡ false
    → (posix_root path ≢ []) × (any is_terminal_control (posix_text path) ≡ false)
unfolding path_refused
path_refused-eq-false path fine = (λ relative. absurd (cc (rw relative at fine)), ground arith)

file_entry-All :
    (P : String × Codes → Type 0) (message name : String) (path : Option Codes)
    {entries : Environment}
    → ((p : Codes) → path ≡ some p → path_refused p ≡ false → P (name, posix_text p))
    → file_entry message name path ≡ ok entries
    → All P entries
unfolding file_entry
file_entry-All P message name none each e = subst (All P) (ok_inj e) tt
file_entry-All P message name (some path) each e =
    let (fine, e') = raise_if-eq-ok (path_refused path) (value_error message) _ e in
    subst (All P) (ok_inj e') (each path refl fine, tt)

mode_value-plain :
    (mode : LifecycleMode) → any is_terminal_control (codes (mode_value mode)) ≡ false
unfolding mode_value
mode_value-plain LifecycleMode.production = refl
mode_value-plain LifecycleMode.development = refl
mode_value-plain LifecycleMode.migration = refl

profile_value-plain :
    (profile : DeploymentProfile) → any is_terminal_control (codes (profile_value profile)) ≡ false
unfolding profile_value
profile_value-plain DeploymentProfile.minimal = refl
profile_value-plain DeploymentProfile.standard = refl
profile_value-plain DeploymentProfile.full = refl

module _ (mode : LifecycleMode) (profile : DeploymentProfile)
    (api_key_file template_id_file : Option Codes) where
  fixed_environment-IsPlain :
      All (IsPlain mode profile api_key_file template_id_file) (fixed_environment mode profile)
  fixed_environment-IsPlain = (
    (Passed.search_path, refl),
    (
      (Passed.lang, refl),
      (
        (Passed.language, refl),
        (
          (Passed.lc_all, refl),
          (
            (Passed.tz, refl),
            (
              (Passed.home, refl),
              (
                (Passed.lifecycle, mode_value-plain mode),
                ((Passed.deployment, profile_value-plain profile), tt),
              ),
            ),
          ),
        ),
      ),
    ),
  )

  -- Only an operation of the list is started, and the output of "status" alone is captured. Nothing
  -- is passed to it but the eight fixed variables and the two paths that were given, which are
  -- absolute; no value holds a control character.
  pub invocation-IsPlain :
      (operation : String) (available : Bool) (i : Invocation)
      → invocation operation mode profile api_key_file template_id_file available ≡ ok i
      → (str_mem operation operations ≡ true)
        × (i.operation ≡ operation)
        × (available ≡ true)
        × (i.capture ≡ str_eq operation "status")
        × All (IsPlain mode profile api_key_file template_id_file) i.environment
  unfolding invocation
  invocation-IsPlain op available i e =
      let (known, e1) =
        raise_if-eq-ok (not (str_mem op operations)) (value_error "unsupported lifecycle operation")
          _ e in
      let (there, e2) =
        raise_if-eq-ok (not available) (runtime_error "lifecycle entrypoint is unavailable") _ e1 in
      let (key, key_ok, e3) =
        >>=-eq-ok
          (file_entry "API key file path must be an absolute control-free path"
            "KITDEV_E2E_API_KEY_FILE" api_key_file)
          _ e2 in
      let (template, template_ok, e4) =
        >>=-eq-ok
          (file_entry "template ID file path must be an absolute control-free path"
            "KITDEV_E2E_TEMPLATE_ID_FILE" template_id_file)
          _ e3 in
      let same = ok_inj e4 in
      let P = IsPlain mode profile api_key_file template_id_file in
      let plain =
        All-append P (fixed_environment mode profile) (key ++ template) fixed_environment-IsPlain (
          All-append P key template
            (file_entry-All P _ _ api_key_file
              (λ p given fine.
                let facts = path_refused-eq-false p fine in
                (Passed.api_key p given facts.0, facts.1))
              key_ok)
            (file_entry-All P _ _ template_id_file
              (λ p given fine.
                let facts = path_refused-eq-false p fine in
                (Passed.template_id p given facts.0, facts.1))
              template_ok)) in
      (
        not-eq-false _ known,
        sym (ap (λ x. x.operation) same),
        not-eq-false _ there,
        sym (ap (λ x. x.capture) same),
        subst (All P) (ap (λ x. x.environment) same) plain,
      )
