-- ===== src/Lifecycle/Shown.antt =====
-- The health that is read from a status line is the health that the line shows.
use kitdev_sandboxes.Base.{
  ℕ, ◌≤◌, ◌≡◌, refl, sym, ap, subst, inl, inr, Bool, true, List, [], ◌∷◌, ◌++◌, Option, none, some,
  ◌==◌, ==_iff, all, any, All, Among, length, String, arith, Bool-cases, Option-cases, All-map, not,
  ◌||◌,
}
use kitdev_sandboxes.Base.Strings.{codes}
use kitdev_sandboxes.Checks.Patterns.{codes_eq}
use kitdev_sandboxes.Journal.Roundtrip.{codes_eq_iff}
use kitdev_sandboxes.Lifecycle.Status.{
  Codes, Fields, one_of, value_of, get_field, is_digit, is_key, fields_valid, health_of,
  read_fields, split_space, split_equals, strip_left, strip_right, read_status,
}

-- The tokens of an output: what stands between its blanks, without white space at the ends.
abbrev pub tokens : Codes → List Codes
tokens output = split_space [] (strip_right (strip_left output))

-- The output has the token `key=value`.
abbrev pub Prints : Codes → String → Codes → Type 0
Prints output key value = Among (codes key ++ (b'=' ∷ value)) (tokens output)

-- The output shows this health: it has a token with a value for each of the five parts, each of the
-- values that the script may print for it.
pub record Shows (wide_digit : ℕ → Bool) (output : Codes) (health : List (String × Codes))
    : Type 0 where
  pub api : Codes
  pub compose : Codes
  pub firecrackers : Codes
  pub orchestrator : Codes
  pub proxy : Codes
  pub listed :
      health
      ≡ ("api", api)
        ∷ ("compose", compose)
        ∷ ("firecrackers", firecrackers)
        ∷ ("orchestrator", orchestrator)
        ∷ ("proxy", proxy)
        ∷ []
  pub prints_api : Prints output "api" api
  pub prints_compose : Prints output "compose" compose
  pub prints_firecrackers : Prints output "firecrackers" firecrackers
  pub prints_orchestrator : Prints output "orchestrator" orchestrator
  pub prints_proxy : Prints output "proxy" proxy
  pub api_known : one_of api ("healthy" ∷ "unreachable" ∷ []) ≡ true
  pub compose_known : one_of compose ("running" ∷ "stopped" ∷ []) ≡ true
  pub count : all (is_digit wide_digit) firecrackers ≡ true
  pub count_short : length firecrackers ≤ 4
  pub count_there : 1 ≤ length firecrackers
  pub orchestrator_known : one_of orchestrator ("active" ∷ "inactive" ∷ []) ≡ true
  pub proxy_known : one_of proxy ("healthy" ∷ "unreachable" ∷ []) ≡ true

some_inj : {A : Type 0} {a b : A} → some a ≡ some b → a ≡ b
some_inj e = cc

some_pair :
    {a b c d : Codes}
    → ◌≡◌ {A = Option (Codes × Codes)} (some (a, b)) (some (c, d))
    → (a ≡ c) × (b ≡ d)
some_pair e = (cc, cc)

split_equals-eq-some :
    (t : Codes) {k v : Codes} → split_equals t ≡ some (k, v) → k ++ (b'=' ∷ v) ≡ t
unfolding split_equals
split_equals-eq-some [] e = cc
split_equals-eq-some (c ∷ cs) {k} {v} e = elim (Bool-cases (c == b'=')) [
  | inl equals ↦
      let pair = some_pair (rw (equals, split_equals) at e) in
      rw (← pair.0, ← pair.1) (ap (λ x. x ∷ cs) (sym ((==_iff c b'=').0 equals)))
  | inr other ↦ elim (Option-cases (split_equals cs)) [
    | inl gone ↦ cc (rw (other, gone, split_equals) at e)
    | inr ((k', v'), here) ↦
        let pair = some_pair (rw (other, here, split_equals) at e) in
        rw (← pair.0, ← pair.1) (ap (λ x. c ∷ x) (split_equals-eq-some cs here))
  ]
]

-- A field stands in the list as a token.
abbrev Stands : List Codes → Codes × Codes → Type 0
Stands ts f = Among (f.0 ++ (b'=' ∷ f.1)) ts

module _ (wide_alnum wide_digit : ℕ → Bool) (all_tokens : List Codes) where
  read_fields-Stands :
      (fields : Fields) (ts : List Codes) {fs : Fields}
      → All (Stands all_tokens) fields
      → All (λ t. Among t all_tokens) ts
      → read_fields wide_alnum wide_digit fields ts ≡ some fs
      → All (Stands all_tokens) fs
  unfolding read_fields
  read_fields-Stands fields [] before within e = subst (All (Stands all_tokens)) (some_inj e) before
  read_fields-Stands fields (t ∷ ts) before within e = elim (Option-cases (split_equals t)) [
    | inl gone ↦ cc (rw (gone, read_fields) at e)
    | inr ((k, v), here) ↦ elim (Option-cases (get_field k fields)) [
      | inr (w, twice) ↦ cc (rw (here, twice, read_fields) at e)
      | inl new ↦
          elim (Bool-cases
            (length k == 0 || length v == 0 || not (is_key wide_alnum wide_digit k))) [
              | inl bad ↦ cc (rw (here, new, bad, read_fields) at e)
              | inr good ↦
                  read_fields-Stands ((k, v) ∷ fields) ts
                    (
                      subst (λ u. Among u all_tokens) (sym (split_equals-eq-some t here)) within.0,
                      before,
                    )
                    within.1 (rw (here, new, good, read_fields) at e)
            ]
    ]
  ]

-- The value of a key that is there stands in the list as a token.
get_field-Stands :
    (ts : List Codes) (k : Codes) (fs : Fields)
    → All (Stands ts) fs
    → any (λ f. codes_eq f.0 k) fs ≡ true
    → Among (k ++ (b'=' ∷ (elim (get_field k fs) [ none ↦ [] | some v ↦ v ]))) ts
unfolding get_field
get_field-Stands ts k [] all_stand there = cc
get_field-Stands ts k ((j, v) ∷ fs) all_stand there = elim (Bool-cases (codes_eq k j)) [
  | inl same ↦ rw (same, get_field) (rw ((codes_eq_iff k j).0 same) all_stand.0)
  | inr other ↦
      rw (other, get_field)
        (get_field-Stands ts k fs all_stand.1 (ground (arith, codes_eq_iff j k, codes_eq_iff k j)))
]

All-self : {A : Type 0} (xs : List A) → All (λ x. Among x xs) xs
All-self [] = tt
All-self (x ∷ xs) = (inl refl, All-map xs (λ y h. inr h) (All-self xs))

module _ (wide_alnum wide_digit : ℕ → Bool) where
  fields_valid-Shows :
      (output : Codes) (fs : Fields)
      → All (Stands (tokens output)) fs
      → fields_valid wide_alnum wide_digit fs ≡ true
      → Shows wide_digit output (health_of fs)
  unfolding fields_valid
  fields_valid-Shows output fs stand h = record {
    api = value_of "api" fs;
    compose = value_of "compose" fs;
    firecrackers = value_of "firecrackers" fs;
    orchestrator = value_of "orchestrator" fs;
    proxy = value_of "proxy" fs;
    listed = refl;
    prints_api = get_field-Stands (tokens output) (codes "api") fs stand (ground arith);
    prints_compose = get_field-Stands (tokens output) (codes "compose") fs stand (ground arith);
    prints_firecrackers =
        get_field-Stands (tokens output) (codes "firecrackers") fs stand (ground arith);
    prints_orchestrator =
        get_field-Stands (tokens output) (codes "orchestrator") fs stand (ground arith);
    prints_proxy = get_field-Stands (tokens output) (codes "proxy") fs stand (ground arith);
    api_known = ground arith;
    compose_known = ground arith;
    count = ground arith;
    count_short = ground arith;
    count_there = ground arith;
    orchestrator_known = ground arith;
    proxy_known = ground arith;
  }

  pub read_status-Shows :
      (output : Codes) {health : List (String × Codes)}
      → read_status wide_alnum wide_digit output ≡ some health
      → Shows wide_digit output health
  unfolding read_status
  read_status-Shows output {health} e =
      elim (Option-cases (read_fields wide_alnum wide_digit [] (tokens output))) [
        | inl gone ↦ cc (rw (gone, read_status) at e)
        | inr (fs, here) ↦ elim (Bool-cases (fields_valid wide_alnum wide_digit fs)) [
          | inr bad ↦ cc (rw (here, bad, read_status) at e)
          | inl good ↦
              subst (Shows wide_digit output) (some_inj (rw (here, good, read_status) at e)) (
                fields_valid-Shows output fs
                  (read_fields-Stands wide_alnum wide_digit (tokens output) [] (tokens output) tt
                    (All-self (tokens output)) here)
                  good)
        ]
      ]
