-- ===== src/Lifecycle/Run.antt =====
-- `run_lifecycle`: the checks, the arguments of the subprocess, and the result.
use kitdev_sandboxes.Base.{
  ℕ, ◌+◌, Bool, true, false, not, ◌||◌, List, [], ◌∷◌, ◌++◌, Option, none, some, ltb, ◌==◌,
  if◌then◌else◌, any, String, str_eq,
}
use kitdev_sandboxes.Base.Errors.{Result, ok, raise_if, ◌>>=◌, ◌>>◌}
use kitdev_sandboxes.Base.Strings.{codes, str_mem}
use kitdev_sandboxes.Checks.Patterns.{utf8_size}
use kitdev_sandboxes.Config.{LifecycleMode, DeploymentProfile}
use kitdev_sandboxes.Planning.Paths.{posix_root, posix_text}
use kitdev_sandboxes.Lifecycle.Status.{Codes, read_status}

pub data RunError : Type 0 where
  value_error runtime_error : String → RunError

abbrev pub Checked : Type 0 → Type 0
Checked = Result RunError

-- `OPERATIONS`
abbrev pub operations : List String
operations =
    "install" ∷ "up" ∷ "down" ∷ "restart" ∷ "status" ∷ "test-core" ∷ "test-sdk" ∷ "test-smoke" ∷ []

pub record LifecycleResult : Type 0 where
  pub operation : String
  pub exit_code : ℕ
  pub health : List (String × Codes)

-- "status" in `as_dict`
unfoldable pub result_status : LifecycleResult → String
result_status r = if r.exit_code == 0 then "pass" else "fail"

unfoldable pub mode_value : LifecycleMode → String
mode_value LifecycleMode.production = "production"
mode_value LifecycleMode.development = "development"
mode_value LifecycleMode.migration = "migration"

unfoldable pub profile_value : DeploymentProfile → String
profile_value DeploymentProfile.minimal = "minimal"
profile_value DeploymentProfile.standard = "standard"
profile_value DeploymentProfile.full = "full"

abbrev pub is_terminal_control : ℕ → Bool
is_terminal_control c = ltb c 32 || c == 127

-- The test on the path of a file that is passed on.
unfoldable pub path_refused : Codes → Bool
path_refused path =
    elim (posix_root path) [ [] ↦ true | _ ∷ _ ↦ false ]
    || any is_terminal_control (posix_text path)

abbrev pub Environment : Type 0
Environment = List (String × Codes)

-- What the subprocess is started with, besides the fixed interpreter and script.
pub record Invocation : Type 0 where
  pub operation : String
  pub environment : Environment
  pub capture : Bool

-- How a process ended: with an exit code, or by a signal, which `returncode` shows as negative.
pub data ReturnCode : Type 0 where
  exited signalled : ℕ → ReturnCode

pub record Completed : Type 0 where
  pub returncode : ReturnCode
  pub stdout : Option Codes

abbrev pub fixed_environment : LifecycleMode → DeploymentProfile → Environment
fixed_environment mode profile =
    ("PATH", codes "/usr/sbin:/usr/bin:/sbin:/bin")
    ∷ ("LANG", codes "C")
    ∷ ("LANGUAGE", codes "C")
    ∷ ("LC_ALL", codes "C")
    ∷ ("TZ", codes "UTC")
    ∷ ("HOME", codes "/root")
    ∷ ("KITDEV_LIFECYCLE", codes (mode_value mode))
    ∷ ("KITDEV_PROFILE", codes (profile_value profile))
    ∷ []

-- The entry of an optional file.
unfoldable pub file_entry : String → String → Option Codes → Checked Environment
unfolding path_refused
file_entry message name none = ok []
file_entry message name (some path) = do
  raise_if (path_refused path) (value_error message)
  ok ((name, posix_text path) ∷ [])

-- Everything up to the subprocess. The Boolean says that the script is a file and no link.
unfoldable pub invocation :
    String
    → LifecycleMode
    → DeploymentProfile
    → Option Codes
    → Option Codes
    → Bool
    → Checked Invocation
unfolding file_entry mode_value profile_value str_mem
invocation operation mode profile api_key_file template_id_file available = do
  raise_if (not (str_mem operation operations)) (value_error "unsupported lifecycle operation")
  raise_if (not available) (runtime_error "lifecycle entrypoint is unavailable")
  key ←
      file_entry "API key file path must be an absolute control-free path" "KITDEV_E2E_API_KEY_FILE"
        api_key_file
  template ←
      file_entry "template ID file path must be an absolute control-free path"
        "KITDEV_E2E_TEMPLATE_ID_FILE" template_id_file
  ok (record {
    operation = operation;
    environment = fixed_environment mode profile ++ (key ++ template);
    capture = str_eq operation "status";
  })

-- `min(code, 255)`, with 128 and the number of the signal for a signal.
unfoldable pub exit_code_of : ReturnCode → ℕ
exit_code_of (exited n) = if ltb 255 n then 255 else n
exit_code_of (signalled n) = if ltb 255 (128 + n) then 255 else 128 + n

abbrev refused_output : String → LifecycleResult
refused_output operation = record { operation = operation; exit_code = 70; health = [] }

-- `print(output, end="" if output.endswith("\n") else "\n")`
unfoldable pub with_newline : Codes → Codes
with_newline [] = codes "\n"
with_newline (c ∷ []) = if c == 10 then c ∷ [] else c ∷ codes "\n"
with_newline (c ∷ d ∷ cs) = c ∷ with_newline (d ∷ cs)

module _ (wide_alnum wide_digit : ℕ → Bool) where
  -- What is made of the subprocess: the result, and the output that is printed.
  unfoldable pub finish : Invocation → Bool → Completed → LifecycleResult × Option Codes
  unfolding read_status exit_code_of utf8_size
  finish i quiet c = elim i.capture [
    | false ↦ (
      record { operation = i.operation; exit_code = exit_code_of c.returncode; health = [] },
      none,
    )
    | true ↦ elim c.stdout [
      | none ↦ (refused_output i.operation, none)
      | some output ↦ elim (ltb 4096 (utf8_size output)) [
        | true ↦ (refused_output i.operation, none)
        | false ↦ elim (read_status wide_alnum wide_digit output) [
          | none ↦ (refused_output i.operation, none)
          | some health ↦ (
            record {
              operation = i.operation;
              exit_code = exit_code_of c.returncode;
              health = health;
            },
            if quiet then none else some (with_newline output),
          )
        ]
      ]
    ]
  ]

  -- `run_lifecycle`, with the subprocess as a parameter.
  unfoldable pub run_lifecycle :
      (Invocation → Completed)
      → String
      → LifecycleMode
      → DeploymentProfile
      → Bool
      → Option Codes
      → Option Codes
      → Bool
      → Checked (LifecycleResult × Option Codes)
  unfolding invocation finish
  run_lifecycle run operation mode profile quiet api_key_file template_id_file available = do
    i ← invocation operation mode profile api_key_file template_id_file available
    ok (finish i quiet (run i))
