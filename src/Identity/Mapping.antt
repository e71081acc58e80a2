-- ===== src/Identity/Mapping.antt =====
-- `_allocate` and `_manifest_mapping`: the numbers of the service accounts.
use kitdev_sandboxes.Base.{
  ℕ, zero, suc, ◌+◌, ◌-◌, String, str_eq, Bool, false, not, ◌&&◌, ◌||◌, Option, none, some, List,
  [], ◌∷◌, ◌++◌, all, any, length, leb, ◌==◌, if◌then◌else◌,
}
use kitdev_sandboxes.Base.Strings.{str_mem}
use kitdev_sandboxes.Identity.Types.{
  IdentityAllocation, IdentityIssue, issue, has, service_id_min, service_id_max, service_names,
  container_runtime_ids,
}

-- The loop of `_allocate` over the `n` candidates from `candidate` on.
unfoldable pub allocate_from : ℕ → ℕ → List ℕ → List ℕ → ℕ → Option (List ℕ)
allocate_from zero candidate occupied available count = none
allocate_from (suc n) candidate occupied available count =
    let taken = has candidate occupied in
    let more = if taken then available else available ++ (candidate ∷ []) in
    let rest = allocate_from n (candidate + 1) occupied more count in
    if not taken && length more == count then some more else rest

unfoldable pub allocate : ℕ → ℕ → List ℕ → ℕ → Option (List ℕ)
allocate first last occupied count = allocate_from (last + 1 - first) first occupied [] count

abbrev in_band : ℕ → Bool
in_band n = leb service_id_min n && leb n service_id_max

-- The test of the loop on one entry, after the entries before it.
unfoldable pub entry_invalid : List IdentityAllocation → IdentityAllocation → Bool
entry_invalid before item =
    not (str_mem item.name service_names)
    || any (λ b. str_eq item.name b.name) before
    || not (in_band item.uid)
    || not (in_band item.gid)
    || has item.uid container_runtime_ids
    || has item.gid container_runtime_ids
    || any (λ b. b.uid == item.uid) before
    || any (λ b. b.gid == item.gid) before

-- The loop of `_manifest_mapping`; `before` holds the entries of `by_name`.
unfoldable pub entries_invalid : List IdentityAllocation → List IdentityAllocation → Bool
entries_invalid before [] = false
entries_invalid before (item ∷ rest) =
    entry_invalid before item || entries_invalid (before ++ (item ∷ [])) rest

-- `by_name[name]`
unfoldable pub find_allocation : String → List IdentityAllocation → Option IdentityAllocation
find_allocation name [] = none
find_allocation name (a ∷ items) = if str_eq a.name name then some a else find_allocation name items

-- `tuple(by_name[name] for name in names)`
unfoldable pub ordered : List IdentityAllocation → List String → List IdentityAllocation
ordered items [] = []
ordered items (name ∷ names) =
    let rest = ordered items names in
    elim (find_allocation name items) [ none ↦ rest | some a ↦ a ∷ rest ]

abbrev mapping_issue : String → Option IdentityIssue
mapping_issue explanation = some (issue "identity.manifest.mapping" "conflict" explanation)

unfoldable pub manifest_mapping :
    Option (List IdentityAllocation) → Option (List IdentityAllocation) × Option IdentityIssue
manifest_mapping none = (none, none)
manifest_mapping (some value) =
    if not (length value == length service_names)
    then (
      none,
      mapping_issue "The authenticated manifest identity mapping is incomplete or malformed.",
    )
    else if entries_invalid [] value
    then (
      none,
      mapping_issue
          "The authenticated manifest identity mapping violates the reserved project ID contract.",
    )
    else if not (all (λ n. any (λ a. str_eq a.name n) value) service_names)
    then (
      none,
      mapping_issue
          "The authenticated manifest identity mapping does not cover the exact service set.",
    )
    else (some (ordered value service_names), none)
