-- ===== src/Identity/Actions.antt =====
-- The actions of an identity plan, with the decimal texts that they show.
use kitdev_sandboxes.Base.{
  ℕ, zero, suc, ◌/◌, ◌%◌, String, str_eq, ◌<>◌, Bool, false, ◌&&◌, Option, none, some, List, [],
  ◌∷◌, ◌++◌, ltb, ◌==◌, if◌then◌else◌,
}
use kitdev_sandboxes.Base.Errors.{Result, ok, err, Exception, assertion_error}
use kitdev_sandboxes.Base.Sort.{sort_by}
use kitdev_sandboxes.Base.Strings.{str_leb}
use kitdev_sandboxes.Identity.Types.{
  AccountFact, GroupFact, IdentityAllocation, IdentityAction, has, is_ok,
}

-- The decimal text of a number, on fuel.
unfoldable pub decimal_from : ℕ → ℕ → String
decimal_from zero n = ""
decimal_from (suc fuel) n =
    let d = n % 10 in
    let digit =
      if d == 0
      then "0"
      else if d == 1
      then "1"
      else if d == 2
      then "2"
      else if d == 3
      then "3"
      else if d == 4
      then "4"
      else if d == 5
      then "5"
      else if d == 6
      then "6"
      else if d == 7
      then "7"
      else if d == 8
      then "8"
      else "9" in
    let more = decimal_from fuel (n / 10) in if ltb n 10 then digit else more <> digit

-- `str(n)`: a number has no more digits than itself plus one.
abbrev pub decimal : ℕ → String
decimal n = decimal_from (suc n) n

unfoldable pub zip_allocations : List String → List ℕ → List ℕ → List IdentityAllocation
zip_allocations (name ∷ names) (uid ∷ uids) (gid ∷ gids) =
    record { name = name; uid = uid; gid = gid } ∷ zip_allocations names uids gids
zip_allocations _ _ _ = []

abbrev restore : String
restore = "restore prior manifest state from write-ahead journal"

-- The two actions of a service.
unfoldable pub service_actions : List IdentityAllocation → List IdentityAction
service_actions [] = []
service_actions (a ∷ items) =
    let mapping = a.name <> ":" <> decimal a.uid <> ":" <> decimal a.gid in
    record {
      action_id = "identity.group." <> a.name;
      category = "account_group";
      target = a.name;
      desired_state = "system group gid=" <> decimal a.gid <> "; manifest-mapping=" <> mapping;
      privilege = "root";
      rollback = restore;
    }
    ∷ record {
      action_id = "identity.user." <> a.name;
      category = "account";
      target = a.name;
      desired_state =
          "locked nologin uid="
          <> decimal a.uid
          <> " gid="
          <> decimal a.gid
          <> "; supplementary="
          <> (if str_eq a.name "kitdev-worker" then "kvm" else "none")
          <> "; manifest-mapping="
          <> mapping;
      privilege = "root";
      rollback = restore;
    }
    ∷ service_actions items

unfoldable pub lxd_action : IdentityAction
lxd_action = record {
  action_id = "identity.operator.lxd";
  category = "group_membership";
  target = "configured-operator";
  desired_state = "absent from lxd; retained in sudo";
  privilege = "root";
  rollback = "restore prior membership from write-ahead journal";
}

abbrev in_gids : Option ℕ → List ℕ → Bool
in_gids none gids = false
in_gids (some g) gids = has g gids

-- The actions of a plan without issues. The assertions on the operator and the group `lxd` may fail.
unfoldable pub build_actions :
    Option String
    → Option AccountFact
    → Option GroupFact
    → List IdentityAllocation
    → Result Exception (List IdentityAction)
build_actions (some name) (some operator) (some lxd) allocations = ok (
    sort_by (λ a b. str_leb a.action_id b.action_id)
      (service_actions allocations
        ++ (if is_ok lxd.status && in_gids lxd.gid operator.supplementary_gids
            then lxd_action ∷ []
            else [])))
build_actions _ _ _ allocations = err assertion_error
