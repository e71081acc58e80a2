-- ===== src/Identity/Services.antt =====
-- The issues of `build_identity_plan`: prerequisites, observations of accounts and groups, the
-- operator, paths, and the allocation.
use kitdev_sandboxes.Base.{
  ℕ, String, str_eq, ◌<>◌, Bool, true, false, not, ◌&&◌, ◌||◌, Option, none, some, List, [], ◌∷◌,
  ◌++◌, all, if◌then◌else◌,
}
use kitdev_sandboxes.Base.Dict.{Dict, lookup, insert, contains}
use kitdev_sandboxes.Base.Strings.{str_mem}
use kitdev_sandboxes.Config.{Configuration, is_production}
use kitdev_sandboxes.Preflight.Checks.{HostFacts}
use kitdev_sandboxes.Identity.Types.{
  GateState, verified, unresolved, failed, AccountFact, GroupFact, IdentityFacts,
  IdentityPrerequisites, IdentityAllocation, IdentityIssue, issue, issue_if, has, is_number,
  is_string, is_ok, is_absent, is_unknown, is_local, is_verified, service_names,
}

unfoldable pub platform_issues : Configuration → HostFacts → List IdentityIssue
platform_issues config host =
    issue_if
      (not (is_string host.os_id "ubuntu")
        || not (is_string host.architecture "x86_64" || is_string host.architecture "amd64"))
      "identity.platform" "unsupported" "Identity phase requires supported Ubuntu x86-64."
    ++ issue_if
        (not (is_string host.os_version_id "26.04")
          || not (is_production config.deployment.lifecycle_mode))
        "identity.lifecycle" "unsupported"
        "Identity apply is supported only on Ubuntu 26.04 production hosts."
    ++ issue_if (elim config.identity.operator [ none ↦ true | some _ ↦ false ])
        "identity.operator.configured" "unknown" "An explicit non-root operator must be configured."

abbrev gate_code : GateState → String
gate_code verified = "conflict"
gate_code unresolved = "unknown"
gate_code failed = "conflict"

abbrev gate_issue : String → GateState → List IdentityIssue
gate_issue name value =
    issue_if (not (is_verified value)) ("identity.prerequisite." <> name) (gate_code value)
      ("The " <> name <> " prerequisite is not verified.")

unfoldable pub prerequisite_issues : IdentityPrerequisites → GateState → List IdentityIssue
prerequisite_issues p lxd =
    gate_issue "host-key" p.host_key
    ++ gate_issue "recovery" p.recovery
    ++ gate_issue "second-session" p.second_session
    ++ gate_issue "sudo-policy" p.sudo_policy
    ++ gate_issue "operator-ssh-key" p.operator_ssh_key
    ++ gate_issue "bootstrap" p.bootstrap
    ++ gate_issue "journal" p.journal
    ++ issue_if (not (is_verified lxd)) "identity.prerequisite.lxd-non-use" "unknown"
        "Normalized LXD absence or non-use evidence is incomplete."

-- The loop that indexes the relevant observations by name: the first of a name is kept, and the
-- names of the others are collected.
unfoldable pub index_named :
    {A : Type 0} → (A → String) → List String → Dict A → List String → List A → Dict A × List String
index_named name_of relevant seen duplicates [] = (seen, duplicates)
index_named name_of relevant seen duplicates (item ∷ items) =
    let name = name_of item in
    let known = contains name seen in
    let next : Dict _ × List String =
      if not (str_mem name relevant)
      then (seen, duplicates)
      else if known
      then (seen, if str_mem name duplicates then duplicates else name ∷ duplicates)
      else (insert name item seen, duplicates) in
    index_named name_of relevant next.0 next.1 items

abbrev pub relevant_accounts : Option String → List String
relevant_accounts none = service_names
relevant_accounts (some operator) =
    if str_eq operator "" then service_names else operator ∷ service_names

abbrev pub relevant_groups : List String
relevant_groups = "kvm" ∷ "sudo" ∷ "lxd" ∷ service_names

-- `a == b` on sets of numbers.
abbrev same_set : List ℕ → List ℕ → Bool
same_set xs ys = all (λ x. has x ys) xs && all (λ y. has y xs) ys

-- `expected_gids` of a service under its mapping and the group `kvm`.
abbrev expected_gids : String → IdentityAllocation → ℕ → List ℕ
expected_gids service mapping kvm =
    mapping.gid ∷ (if str_eq service "kitdev-worker" then kvm ∷ [] else [])

-- An existing account and group match the mapping.
unfoldable pub service_matches :
    String → AccountFact → GroupFact → Option IdentityAllocation → Option ℕ → Bool
service_matches service account group (some mapping) (some kvm) =
    is_ok account.status
    && is_ok group.status
    && is_local account.origin
    && is_local group.origin
    && is_number account.uid mapping.uid
    && is_number account.gid mapping.gid
    && is_number group.gid mapping.gid
    && is_string account.home "/nonexistent"
    && is_string account.shell "/usr/sbin/nologin"
    && same_set account.supplementary_gids (expected_gids service mapping kvm)
service_matches service account group _ _ = false

-- The loop's body for one service.
unfoldable pub service_issues :
    String
    → Option AccountFact
    → Option GroupFact
    → Option IdentityAllocation
    → Option ℕ
    → List IdentityIssue
service_issues service (some account) (some group) mapping kvm =
    if is_unknown account.status || is_unknown group.status
    then issue ("identity.discovery." <> service) "unknown"
        "A desired identity observation is missing or malformed."
      ∷ []
    else issue_if
        ((is_ok account.status || is_ok group.status)
          && not (service_matches service account group mapping kvm))
        ("identity.collision." <> service) "conflict"
        "The existing identity does not exactly match authenticated manifest ownership and group policy."
service_issues service _ _ mapping kvm =
    issue ("identity.discovery." <> service) "unknown"
      "A desired identity observation is missing or malformed."
    ∷ []

unfoldable pub operator_is_local : Option AccountFact → Bool
operator_is_local none = false
operator_is_local (some o) = is_ok o.status && is_local o.origin && not (is_number o.uid 0)

unfoldable pub operator_has_sudo : Option AccountFact → Option GroupFact → Bool
operator_has_sudo (some o) (some sudo) =
    is_ok sudo.status && elim sudo.gid [ none ↦ false | some g ↦ has g o.supplementary_gids ]
operator_has_sudo _ _ = false

unfoldable pub operator_issues :
    Option String → Option AccountFact → Option GroupFact → List IdentityIssue
operator_issues none operator sudo = []
operator_issues (some name) operator sudo =
    issue_if (not (operator_is_local operator)) "identity.operator.local" "conflict"
      "The configured operator is not an exact local non-root account."
    ++ issue_if (not (operator_has_sudo operator sudo)) "identity.operator.sudo" "conflict"
        "The configured operator's retained sudo membership is not proven."

unfoldable pub kvm_is_local : Option GroupFact → Bool
kvm_is_local none = false
kvm_is_local (some g) = is_ok g.status && is_local g.origin

unfoldable pub place_issues : IdentityFacts → Option GroupFact → List IdentityIssue
place_issues facts kvm =
    issue_if (not (kvm_is_local kvm)) "identity.group.kvm" "conflict"
      "The existing local kvm group is not proven."
    ++ issue_if (not (is_ok facts.nologin.status) || not (is_string facts.nologin.kind "regular"))
        "identity.path.nologin" "conflict"
        "The nologin path is absent, unknown, or not a regular file."
    ++ issue_if (not (is_absent facts.nonexistent.status)) "identity.path.nonexistent" "conflict"
        "The /nonexistent home path must be absent."

abbrev absent_account : Option AccountFact → Bool
absent_account none = false
absent_account (some a) = is_absent a.status

abbrev absent_group : Option GroupFact → Bool
absent_group none = false
absent_group (some g) = is_absent g.status

-- The loop over the entries of the manifest: a number is occupied and its owner is absent.
unfoldable pub occupied_issues :
    IdentityFacts → Dict AccountFact → Dict GroupFact → List IdentityAllocation → List IdentityIssue
occupied_issues facts accounts groups [] = []
occupied_issues facts accounts groups (a ∷ items) =
    issue_if (absent_account (lookup a.name accounts) && has a.uid facts.occupied_uids)
      ("identity.manifest.uid." <> a.name) "conflict"
      "The manifest UID is occupied while its owned account is absent."
    ++ issue_if (absent_group (lookup a.name groups) && has a.gid facts.occupied_gids)
        ("identity.manifest.gid." <> a.name) "conflict"
        "The manifest GID is occupied while its owned group is absent."
    ++ occupied_issues facts accounts groups items
