-- ===== src/Planning/Built.antt =====
-- The intermediate results of a call of `build_change_plan` that returned.
use kitdev_sandboxes.Base.{◌≡◌, subst, Option, List, ◌++◌, arith}
use kitdev_sandboxes.Base.Errors.{ok, >>=-eq-ok}
use kitdev_sandboxes.Base.Dict.{Dict}
use kitdev_sandboxes.Config.{Configuration}
use kitdev_sandboxes.Planning.Types.{
  ResourceFact, PlanningFacts, PlannedAction, PlanIssue, ChangePlan, DesiredDirectory,
}
use kitdev_sandboxes.Planning.Checked.{change_plan}
use kitdev_sandboxes.Planning.Paths.{desired_directories, directories, directories-sorted}
use kitdev_sandboxes.Planning.Lifecycle.{lifecycle_issues}
use kitdev_sandboxes.Planning.Facts.{index_facts}
use kitdev_sandboxes.Planning.Build.{
  directory_loop, resource_ids, assembled, build_from, build_change_plan,
}
use kitdev_sandboxes.Planning.Observed.{observations, sole}

desired_directories-eq :
    (config : Configuration) {ds : List DesiredDirectory}
    → desired_directories config ≡ ok ds
    → ds ≡ directories config
unfolding desired_directories
desired_directories-eq config e = rw (← directories-sorted config) (ground arith)

change_plan-eq : (p : ChangePlan) {q : ChangePlan} → change_plan p ≡ ok q → q ≡ p
unfolding change_plan
change_plan-eq p e = ground arith

-- The intermediate results of a call that returned.
pub record IsBuilt (config : Configuration) (facts : PlanningFacts) (p : ChangePlan) : Type 0 where
  pub lifecycle : List PlanIssue
  pub lifecycle_eq : lifecycle_issues config facts ≡ ok lifecycle
  pub index : Dict ResourceFact × List PlanIssue
  pub index_eq : index_facts facts.resources (resource_ids (directories config)) ≡ ok index
  pub found : List PlannedAction × List PlanIssue
  pub found_eq : directory_loop index.0 (directories config) ≡ ok found
  pub plan_eq : p ≡ assembled config found.0 (lifecycle ++ (index.1 ++ found.1))

build_from-IsBuilt :
    (config : Configuration) (facts : PlanningFacts) {p : ChangePlan}
    → build_from config facts (directories config) ≡ ok p
    → IsBuilt config facts p
unfolding build_from
build_from-IsBuilt config facts e =
    let (lifecycle, e₂, r₂) = >>=-eq-ok (lifecycle_issues config facts) _ e in
    let (index, e₃, r₃) = >>=-eq-ok (index_facts facts.resources _) _ r₂ in
    let (found, e₄, r₄) = >>=-eq-ok (directory_loop index.0 (directories config)) _ r₃ in
    record {
      lifecycle = lifecycle;
      lifecycle_eq = e₂;
      index = index;
      index_eq = e₃;
      found = found;
      found_eq = e₄;
      plan_eq = change_plan-eq _ r₄;
    }

pub build-IsBuilt :
    (config : Configuration) (facts : PlanningFacts) {p : ChangePlan}
    → build_change_plan config facts ≡ ok p
    → IsBuilt config facts p
unfolding build_change_plan
build-IsBuilt config facts {p} e =
    let (ds, d, r) = >>=-eq-ok (desired_directories config) (build_from config facts) e in
    build_from-IsBuilt config facts
      (subst (λ ds. build_from config facts ds ≡ ok p) (desired_directories-eq config d) r)

-- The one observation that the facts hold of a directory.
abbrev pub observed : PlanningFacts → DesiredDirectory → Option ResourceFact
observed facts d = sole (observations d.resource_id facts.resources)
