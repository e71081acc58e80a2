-- ===== src/Preflight/Checks.antt =====
-- Checks and their exit codes: `CheckResult`, `_check` and `DoctorReport.exit_code`.
use Prim.Native.Char.{code, Char}
use kitdev_sandboxes.Base.{
  ℕ, String, Bool, true, false, Option, none, some, List, [], ◌∷◌, leb, ◌==◌, if◌then◌else◌,
}
use kitdev_sandboxes.Checks.Patterns.{is_control}
use kitdev_sandboxes.Config.{LifecycleMode}

pub data CheckStatus : Type 0 where
  pass warn fail unknown skipped : CheckStatus

pub data Severity : Type 0 where
  info warning blocking : Severity

pub data FailureCategory : Type 0 where
  platform conflict unknown unhealthy : FailureCategory

-- `FailureCategory.exit_code`
abbrev pub category_code : FailureCategory → ℕ
category_code FailureCategory.platform = 3
category_code FailureCategory.conflict = 4
category_code FailureCategory.unknown = 5
category_code FailureCategory.unhealthy = 6

-- The facts that the evaluation reads; `evidence` is left out, since only the collector uses it.
pub record HostFacts : Type 0 where
  pub os_id : Option String
  pub os_name : Option String
  pub os_version_id : Option String
  pub architecture : Option String
  pub pid1_comm : Option String
  pub cgroup_v2 : Option Bool
  pub cpu_virtualization : Option String
  pub kvm_device_exists : Bool
  pub kvm_device_is_character : Bool
  pub kvm_device_accessible : Bool
  pub nested_guest_support : Option Bool

pub record CheckResult : Type 0 where
  pub check_id : String
  pub status : CheckStatus
  pub severity : Severity
  pub explanation : String
  pub remediation : Option String
  pub installer_can_remediate : Bool
  pub failure_category : Option FailureCategory
  pub evidence : Option String

pub record DoctorReport : Type 0 where
  pub generated_at : String
  pub lifecycle_mode : LifecycleMode
  pub dry_run : Bool
  pub facts : HostFacts
  pub checks : List CheckResult

-- `status in {CheckStatus.FAIL, CheckStatus.UNKNOWN}`
abbrev pub is_bad : CheckStatus → Bool
is_bad CheckStatus.fail = true
is_bad CheckStatus.unknown = true
is_bad CheckStatus.pass = false
is_bad CheckStatus.warn = false
is_bad CheckStatus.skipped = false

abbrev pub severity_of : CheckStatus → Severity
severity_of CheckStatus.fail = Severity.blocking
severity_of CheckStatus.unknown = Severity.blocking
severity_of CheckStatus.warn = Severity.warning
severity_of CheckStatus.pass = Severity.info
severity_of CheckStatus.skipped = Severity.info

-- The category that a status implies where none is given.
abbrev pub category_of : CheckStatus → Option FailureCategory → Option FailureCategory
category_of status (some c) = some c
category_of CheckStatus.unknown none = some FailureCategory.unknown
category_of CheckStatus.fail none = some FailureCategory.platform
category_of CheckStatus.pass none = none
category_of CheckStatus.warn none = none
category_of CheckStatus.skipped none = none

-- `_check` with all its keyword arguments.
unfoldable pub full_check :
    String
    → CheckStatus
    → String
    → Option String
    → Bool
    → Option FailureCategory
    → Option String
    → CheckResult
full_check check_id status explanation remediation remediable category evidence = record {
  check_id = check_id;
  status = status;
  severity = severity_of status;
  explanation = explanation;
  remediation = remediation;
  installer_can_remediate = remediable;
  failure_category = category_of status category;
  evidence = evidence;
}

-- `min(codes, default=0)`
abbrev pub min_code : List ℕ → ℕ
min_code [] = 0
min_code (c ∷ []) = c
min_code (c ∷ d ∷ cs) = let rest = min_code (d ∷ cs) in if leb c rest then c else rest

-- The code of one check, if it counts.
abbrev pub code_of : CheckResult → Option ℕ
code_of c = elim c.failure_category [
  | none ↦ none
  | some f ↦ if is_bad c.status then some (category_code f) else none
]

abbrev pub codes_of : List CheckResult → List ℕ
codes_of [] = []
codes_of (c ∷ cs) = elim (code_of c) [ none ↦ codes_of cs | some n ↦ n ∷ codes_of cs ]

-- `DoctorReport.exit_code`: the lowest code of the failed and unknown checks.
unfoldable pub exit_code : DoctorReport → ℕ
exit_code r = min_code (codes_of r.checks)

-- `safe_text`: control characters become question marks.
unfoldable pub safe_characters : String → String
safe_characters String.[] = ""
safe_characters (String.◌∷◌ c s) =
    String.◌∷◌ (if is_control (code c) then "?" else c) (safe_characters s)

unfoldable pub safe_text : Option String → String
unfolding safe_characters
safe_text none = "unknown"
safe_text (some s) = safe_characters s

-- The character of the second text that stands where `c` stands in the first.
unfoldable pub translate : String → String → Char → Char
translate (String.◌∷◌ a lower) (String.◌∷◌ b upper) c =
    let rest = translate lower upper c in if code a == code c then b else rest
translate _ _ c = c

-- `str.upper` on ASCII text, which is all that the collector reports here.
unfoldable pub upper_text : String → String
unfolding translate
upper_text String.[] = ""
upper_text (String.◌∷◌ c s) =
    String.◌∷◌ (translate "abcdefghijklmnopqrstuvwxyz" "ABCDEFGHIJKLMNOPQRSTUVWXYZ" c)
      (upper_text s)
