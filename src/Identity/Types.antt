-- ===== src/Identity/Types.antt =====
-- The observations, prerequisites, allocations, issues and plans of the identity phase.
use kitdev_sandboxes.Base.{
  ℕ, String, str_eq, Bool, true, false, Option, none, some, List, [], ◌∷◌, any, ◌==◌, if◌then◌else◌,
}
use kitdev_sandboxes.Config.{LifecycleMode}

pub data FactStatus : Type 0 where
  fact_ok fact_absent fact_unknown : FactStatus

pub data IdentityOrigin : Type 0 where
  local nss no_origin unknown_origin : IdentityOrigin

pub data GateState : Type 0 where
  verified unresolved failed : GateState

pub record AccountFact : Type 0 where
  pub name : String
  pub status : FactStatus
  pub origin : IdentityOrigin
  pub uid : Option ℕ
  pub gid : Option ℕ
  pub home : Option String
  pub shell : Option String
  pub supplementary_gids : List ℕ

pub record GroupFact : Type 0 where
  pub name : String
  pub status : FactStatus
  pub origin : IdentityOrigin
  pub gid : Option ℕ
  pub members : List String

pub record PathFact : Type 0 where
  pub path : String
  pub status : FactStatus
  pub kind : Option String

pub record AllocationRange : Type 0 where
  pub status : FactStatus
  pub uid_min : Option ℕ
  pub uid_max : Option ℕ
  pub gid_min : Option ℕ
  pub gid_max : Option ℕ

pub record LxdPrerequisite : Type 0 where
  pub non_use : GateState
  pub reason : String

pub record IdentityFacts : Type 0 where
  pub accounts : List AccountFact
  pub groups : List GroupFact
  pub occupied_uids : List ℕ
  pub occupied_gids : List ℕ
  pub allocation_range : AllocationRange
  pub nologin : PathFact
  pub nonexistent : PathFact
  pub lxd : LxdPrerequisite

pub record IdentityPrerequisites : Type 0 where
  pub host_key : GateState
  pub recovery : GateState
  pub second_session : GateState
  pub sudo_policy : GateState
  pub operator_ssh_key : GateState
  pub bootstrap : GateState
  pub journal : GateState

pub record IdentityAllocation : Type 0 where
  pub name : String
  pub uid : ℕ
  pub gid : ℕ

pub record IdentityIssue : Type 0 where
  pub issue_id : String
  pub code : String
  pub explanation : String

pub record IdentityAction : Type 0 where
  pub action_id : String
  pub category : String
  pub target : String
  pub desired_state : String
  pub privilege : String
  pub rollback : String

pub record IdentityPlan : Type 0 where
  pub lifecycle_mode : LifecycleMode
  pub blocking : Bool
  pub allocations : List IdentityAllocation
  pub actions : List IdentityAction
  pub issues : List IdentityIssue
  pub plan_hash : String

abbrev pub service_id_min : ℕ
service_id_min = 61000

abbrev pub service_id_max : ℕ
service_id_max = 61999

abbrev pub container_runtime_ids : List ℕ
container_runtime_ids = 101 ∷ 999 ∷ 10001 ∷ []

abbrev pub service_names : List String
service_names = "kitdev-e2b" ∷ "kitdev-proxy" ∷ "kitdev-worker" ∷ []

-- Tests of the members of the enumerations.
abbrev pub is_ok : FactStatus → Bool
is_ok fact_ok = true
is_ok fact_absent = false
is_ok fact_unknown = false

abbrev pub is_absent : FactStatus → Bool
is_absent fact_ok = false
is_absent fact_absent = true
is_absent fact_unknown = false

abbrev pub is_unknown : FactStatus → Bool
is_unknown fact_ok = false
is_unknown fact_absent = false
is_unknown fact_unknown = true

abbrev pub is_local : IdentityOrigin → Bool
is_local local = true
is_local nss = false
is_local no_origin = false
is_local unknown_origin = false

abbrev pub is_verified : GateState → Bool
is_verified verified = true
is_verified unresolved = false
is_verified failed = false

abbrev pub issue : String → String → String → IdentityIssue
issue issue_id code explanation = record {
  issue_id = issue_id;
  code = code;
  explanation = explanation;
}

-- `[…]` with one issue if the test holds, else nothing.
abbrev pub issue_if : Bool → String → String → String → List IdentityIssue
issue_if test issue_id code explanation = if test then issue issue_id code explanation ∷ [] else []

-- `n in xs`
abbrev pub has : ℕ → List ℕ → Bool
has n = any (λ m. m == n)

-- `value == n` for an optional number.
abbrev pub is_number : Option ℕ → ℕ → Bool
is_number none n = false
is_number (some m) n = m == n

abbrev pub is_string : Option String → String → Bool
is_string none s = false
is_string (some t) s = str_eq t s
