-- ===== src/Identity/Build.antt =====
-- `build_identity_plan`. The SHA-256 of what the plan is hashed from is a parameter.
use kitdev_sandboxes.Base.{
  ℕ, String, ◌<>◌, Bool, true, false, not, ◌&&◌, Option, none, some, List, [], ◌∷◌, ◌++◌, map,
  if◌then◌else◌,
}
use kitdev_sandboxes.Base.Dict.{Dict, lookup}
use kitdev_sandboxes.Base.Errors.{Result, ok, Exception, ◌>>=◌}
use kitdev_sandboxes.Base.Sort.{sort_by}
use kitdev_sandboxes.Base.Strings.{str_leb, str_mem}
use kitdev_sandboxes.Config.{Configuration, LifecycleMode}
use kitdev_sandboxes.Preflight.Checks.{HostFacts}
use kitdev_sandboxes.Identity.Types.{
  AccountFact, GroupFact, IdentityFacts, IdentityPrerequisites, IdentityAllocation, IdentityIssue,
  IdentityAction, IdentityPlan, AllocationRange, issue, is_number, is_ok, service_id_min,
  service_id_max, container_runtime_ids, service_names,
}
use kitdev_sandboxes.Identity.Inputs.{runtime_inputs_valid}
use kitdev_sandboxes.Identity.Mapping.{allocate, find_allocation, manifest_mapping}
use kitdev_sandboxes.Identity.Actions.{zip_allocations, build_actions}
use kitdev_sandboxes.Identity.Services.{
  platform_issues, prerequisite_issues, index_named, relevant_accounts, relevant_groups,
  service_issues, operator_issues, place_issues, occupied_issues,
}

-- What a plan's hash is computed from; the contract's and the preconditions' constants are left out.
pub data HashInput : Type 0 where
  invalid_input : HashInput
  planned :
      LifecycleMode
      → Option String
      → String
      → List IdentityAllocation
      → List IdentityAction
      → List IdentityIssue
      → HashInput

-- The allocations of a plan without a manifest, and the issue if the band is exhausted.
unfoldable pub first_free : IdentityFacts → List IdentityAllocation × List IdentityIssue
first_free facts =
    elim (allocate service_id_min service_id_max (facts.occupied_uids ++ container_runtime_ids) 3) [
      | none ↦ exhausted
      | some uids ↦
          elim (allocate service_id_min service_id_max
            (facts.occupied_gids ++ container_runtime_ids) 3) [
              | none ↦ exhausted
              | some gids ↦ (zip_allocations service_names uids gids, [])
            ]
    ]
  where
    exhausted : List IdentityAllocation × List IdentityIssue
    exhausted = (
      [],
      issue "identity.allocation.exhausted" "conflict"
            "The reserved project UID/GID band cannot satisfy the phase."
          ∷ [],
    )

abbrev is_given : Option ℕ → Bool
is_given none = false
is_given (some n) = true

abbrev pub range_complete : AllocationRange → Bool
range_complete r =
    is_ok r.status
    && is_given r.uid_min
    && is_given r.uid_max
    && is_given r.gid_min
    && is_given r.gid_max

abbrev pub range_expected : AllocationRange → Bool
range_expected r =
    is_number r.uid_min service_id_min
    && is_number r.uid_max service_id_max
    && is_number r.gid_min service_id_min
    && is_number r.gid_max service_id_max

-- The allocations and their issues: under a manifest that was accepted, under one that was
-- refused, and without one.
unfoldable pub allocations_of :
    IdentityFacts
    → Dict AccountFact
    → Dict GroupFact
    → Option (List IdentityAllocation)
    → Bool
    → List IdentityAllocation × List IdentityIssue
allocations_of facts accounts groups prior supplied =
    if not (range_complete facts.allocation_range)
    then (
      [],
      issue "identity.allocation.range" "unknown"
            "Complete UID/GID occupancy evidence for the reserved project band is unavailable."
          ∷ [],
    )
    else if not (range_expected facts.allocation_range)
    then (
      [],
      issue "identity.allocation.range" "conflict"
            "The identity facts do not carry the exact reserved project UID/GID band."
          ∷ [],
    )
    else elim prior [
      | some m ↦ (m, occupied_issues facts accounts groups m)
      | none ↦ if supplied then ([], []) else first_free facts
    ]

abbrev issue_list : Option IdentityIssue → List IdentityIssue
issue_list none = []
issue_list (some i) = i ∷ []

abbrev duplicate_issues : List String → List IdentityIssue
duplicate_issues = map (λ name.
    issue ("identity.discovery.duplicate." <> name) "unknown"
      "Duplicate desired identity observations are invalid.")

-- The loop over the services.
unfoldable pub services_loop :
    Dict AccountFact
    → Dict GroupFact
    → List IdentityAllocation
    → Option ℕ
    → List String
    → List IdentityIssue
services_loop accounts groups mapping kvm [] = []
services_loop accounts groups mapping kvm (s ∷ ss) =
    service_issues s (lookup s accounts) (lookup s groups) (find_allocation s mapping) kvm
    ++ services_loop accounts groups mapping kvm ss

abbrev source_of : Option (List IdentityAllocation) → Bool → String
source_of (some m) supplied = "authenticated-manifest"
source_of none supplied = if supplied then "invalid-manifest" else "first-free"

abbrev items_of : {A : Type 0} → Option (List A) → List A
items_of none = []
items_of (some m) = m

abbrev pub no_issue : List IdentityIssue → Bool
no_issue [] = true
no_issue (i ∷ is) = false

abbrev pub operator_name : Option String → String
operator_name none = ""
operator_name (some name) = name

abbrev pub group_id : Option GroupFact → Option ℕ
group_id none = none
group_id (some g) = g.gid

-- `sorted(xs | ys)` of two sets of names.
unfoldable pub union : List String → List String → List String
union [] ys = ys
union (x ∷ xs) ys = let rest = union xs ys in if str_mem x ys then rest else x ∷ rest

-- The issues in front of the allocation, in the order of the code.
unfoldable pub early_issues :
    Configuration
    → HostFacts
    → IdentityFacts
    → IdentityPrerequisites
    → Option (List IdentityAllocation)
    → Option IdentityIssue
    → Dict AccountFact × List String
    → Dict GroupFact × List String
    → List IdentityIssue
early_issues config host facts prerequisites prior manifest_issue accounts groups =
    let kvm = lookup "kvm" groups.0 in
    issue_list manifest_issue
    ++ platform_issues config host
    ++ prerequisite_issues prerequisites facts.lxd.non_use
    ++ duplicate_issues (sort_by str_leb (union accounts.1 groups.1))
    ++ services_loop accounts.0 groups.0 (items_of prior) (group_id kvm) service_names
    ++ operator_issues config.identity.operator
        (lookup (operator_name config.identity.operator) accounts.0) (lookup "sudo" groups.0)
    ++ place_issues facts kvm

module _ (plan_hash : HashInput → String) where
  -- The plan of input that fails `_runtime_inputs_valid`.
  unfoldable pub invalid_input_plan : Configuration → IdentityPlan
  invalid_input_plan config = record {
    lifecycle_mode = config.deployment.lifecycle_mode;
    blocking = true;
    allocations = [];
    actions = [];
    issues =
        issue "identity.discovery.invalid" "unknown"
          "Identity discovery or prerequisite facts are malformed."
        ∷ [];
    plan_hash = plan_hash invalid_input;
  }

  -- The end of the function: an issue suppresses every action.
  unfoldable pub finish :
      Configuration
      → String
      → Option AccountFact
      → Option GroupFact
      → List IdentityAllocation
      → List IdentityIssue
      → Result Exception IdentityPlan
  finish config source operator lxd allocations issues = do
    actions ←
        if no_issue issues
        then build_actions config.identity.operator operator lxd allocations
        else ok []
    let sorted_issues = sort_by (λ a b. str_leb a.issue_id b.issue_id) issues
    ok (record {
      lifecycle_mode = config.deployment.lifecycle_mode;
      blocking = not (no_issue issues);
      allocations = allocations;
      actions = actions;
      issues = sorted_issues;
      plan_hash = plan_hash (
          planned config.deployment.lifecycle_mode config.identity.operator source allocations
            actions sorted_issues);
    })

  unfoldable pub build_identity_plan :
      Configuration
      → HostFacts
      → IdentityFacts
      → IdentityPrerequisites
      → Option (List IdentityAllocation)
      → Result Exception IdentityPlan
  build_identity_plan config host facts prerequisites manifest =
      let prior = manifest_mapping manifest in
      let supplied : Bool = elim manifest [ none ↦ false | some _ ↦ true ] in
      let accounts =
        index_named (λ a. a.name) (relevant_accounts config.identity.operator) [] []
          facts.accounts in
      let groups = index_named (λ g. g.name) relevant_groups [] [] facts.groups in
      let allocated = allocations_of facts accounts.0 groups.0 prior.0 supplied in
      if not (runtime_inputs_valid facts)
      then ok (invalid_input_plan config)
      else finish config (source_of prior.0 supplied)
          (lookup (operator_name config.identity.operator) accounts.0) (lookup "lxd" groups.0)
          allocated.0
          (early_issues config host facts prerequisites prior.0 prior.1 accounts groups
            ++ allocated.1)
