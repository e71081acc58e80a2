-- ===== src/Planning/Observed.antt =====
-- What `_index_facts` finds for a desired resource: its observation, if there is exactly one.
use kitdev_sandboxes.Base.{
  ◌≡◌, refl, String, str_eq, str_eq_iff, str_eq_refl, Bool, true, false, ◌||◌, Option, none, some,
  List, [], ◌∷◌, if◌then◌else◌, arith, Bool-cases, inl, inr,
}
use kitdev_sandboxes.Base.Errors.{ok, ok_inj, >>=-eq-ok}
use kitdev_sandboxes.Base.Strings.{str_mem}
use kitdev_sandboxes.Base.Dict.{Dict, lookup, contains, erase, lookup-insert, lookup-erase}
use kitdev_sandboxes.Planning.Types.{ResourceFact, PlanIssue}
use kitdev_sandboxes.Planning.Facts.{
  Index, index_fact, index_loop, drop_all, duplicate_issues, index_facts,
}

-- The observations of one resource, in order.
unfoldable pub observations : String → List ResourceFact → List ResourceFact
observations id [] = []
observations id (f ∷ fs) =
    if str_eq f.resource_id id then f ∷ observations id fs else observations id fs

-- The only member of a list.
abbrev pub sole {ℓ} : {A : Type ℓ} → List A → Option A
sole [] = none
sole (x ∷ []) = some x
sole (x ∷ y ∷ xs) = none

abbrev first : Option ResourceFact → List ResourceFact → Option ResourceFact
first (some f) fs = some f
first none [] = none
first none (f ∷ fs) = some f

-- Whether the resource is seen again.
abbrev again : Option ResourceFact → List ResourceFact → Bool
again (some f) [] = false
again (some f) (g ∷ fs) = true
again none [] = false
again none (f ∷ []) = false
again none (f ∷ g ∷ fs) = true

module _ (desired_ids : List String) (id : String) (wanted : str_mem id desired_ids ≡ true) where
  index_fact-same :
      (f : ResourceFact) (ix : Index)
      → f.resource_id ≡ id
      → (lookup id (index_fact desired_ids f ix).0 ≡ first (lookup id ix.0) (f ∷ []))
        × (str_mem id (index_fact desired_ids f ix).1
            ≡ (str_mem id ix.1 || again (lookup id ix.0) (f ∷ [])))
  unfolding index_fact contains str_mem
  index_fact-same f ix e = ground (arith, lookup-insert f.resource_id id f ix.0, str_eq_refl id)

  index_fact-other :
      (f : ResourceFact) (ix : Index)
      → str_eq f.resource_id id ≡ false
      → (lookup id (index_fact desired_ids f ix).0 ≡ lookup id ix.0)
        × (str_mem id (index_fact desired_ids f ix).1 ≡ str_mem id ix.1)
  unfolding index_fact contains str_mem
  index_fact-other f ix e = ground (
    arith,
    lookup-insert f.resource_id id f ix.0,
    str_eq_iff id f.resource_id,
    str_eq_iff f.resource_id id,
  )

  lookup-index_loop :
      (facts : List ResourceFact) (ix : Index)
      → (lookup id (index_loop desired_ids facts ix).0
          ≡ first (lookup id ix.0) (observations id facts))
        × (str_mem id (index_loop desired_ids facts ix).1
            ≡ (str_mem id ix.1 || again (lookup id ix.0) (observations id facts)))
  unfolding index_loop observations
  lookup-index_loop [] ix = ground arith
  lookup-index_loop (f ∷ fs) ix = elim (Bool-cases (str_eq f.resource_id id)) [
    | inl same ↦ ground (
      arith,
      index_fact-same f ix ((str_eq_iff f.resource_id id).0 same),
      lookup-index_loop fs (index_fact desired_ids f ix),
    )
    | inr other ↦
        ground
          (arith, index_fact-other f ix other, lookup-index_loop fs (index_fact desired_ids f ix))
  ]

lookup-drop_all :
    (ks : List String) (id : String) (d : Dict ResourceFact)
    → lookup id (drop_all ks d) ≡ (if str_mem id ks then none else lookup id d)
unfolding drop_all str_mem
lookup-drop_all [] id d = refl
lookup-drop_all (k ∷ ks) id d =
    ground (arith, lookup-drop_all ks id (erase k d), lookup-erase k id d)

-- What is left after the duplicates are dropped.
lookup-dropped :
    (facts : List ResourceFact) (desired_ids : List String) (id : String)
    → str_mem id desired_ids ≡ true
    → let ix = index_loop desired_ids facts ([], []) in
      lookup id (drop_all ix.1 ix.0) ≡ sole (observations id facts)
unfolding lookup str_mem
lookup-dropped facts desired_ids id wanted =
    let ix = index_loop desired_ids facts ([], []) in
    ground
      (arith, lookup-index_loop desired_ids id wanted facts ([], []), lookup-drop_all ix.1 id ix.0)

-- For a desired resource the index holds its observation if the facts hold exactly one, and
-- nothing if they hold none or several.
pub lookup-index_facts :
    (facts : List ResourceFact) (desired_ids : List String) (id : String)
    → str_mem id desired_ids ≡ true
    → {r : Dict ResourceFact × List PlanIssue} → index_facts facts desired_ids ≡ ok r
    → lookup id r.0 ≡ sole (observations id facts)
unfolding index_facts
lookup-index_facts facts desired_ids id wanted {r} e =
    let (issues, p, q) = >>=-eq-ok (duplicate_issues _) _ e in
    rw (← ok_inj q) (lookup-dropped facts desired_ids id wanted)
