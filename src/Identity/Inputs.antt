-- ===== src/Identity/Inputs.antt =====
-- `_bounded_text` and `_runtime_inputs_valid`. A field's Python type is its type here, and its
-- numbers are natural, so only the checks of values remain.
use kitdev_sandboxes.Base.{
  ℕ, ◌^◌, String, Bool, true, not, ◌&&◌, ◌||◌, Option, none, some, [], ◌∷◌, all, any, leb, ltb,
  ◌==◌,
}
use kitdev_sandboxes.Base.Strings.{codes, str_mem}
use kitdev_sandboxes.Checks.Patterns.{utf8_size}
use kitdev_sandboxes.Identity.Types.{AccountFact, GroupFact, PathFact, IdentityFacts}

unfoldable pub bounded_text : ℕ → String → Bool
bounded_text maximum value =
    let size = utf8_size (codes value) in
    ltb 0 size && leb size maximum && not (any (λ c. ltb c 32 || c == 127) (codes value))

abbrev optional {ℓ} : {A : Type ℓ} → (A → Bool) → Option A → Bool
optional p none = true
optional p (some a) = p a

abbrev is_id : ℕ → Bool
is_id n = ltb n (2 ^ 32)

unfoldable pub account_valid : AccountFact → Bool
account_valid a =
    bounded_text 31 a.name
    && all is_id a.supplementary_gids
    && optional is_id a.uid
    && optional is_id a.gid
    && optional (bounded_text 4096) a.home
    && optional (bounded_text 4096) a.shell

unfoldable pub group_valid : GroupFact → Bool
group_valid g = bounded_text 31 g.name && optional is_id g.gid && all (bounded_text 31) g.members

unfoldable pub path_valid : PathFact → Bool
path_valid p =
    bounded_text 4096 p.path
    && optional (λ k. str_mem k ("regular" ∷ "directory" ∷ "other" ∷ [])) p.kind

abbrev is_bound : ℕ → Bool
is_bound n = ltb 0 n && ltb n (2 ^ 31)

unfoldable pub runtime_inputs_valid : IdentityFacts → Bool
runtime_inputs_valid f =
    all account_valid f.accounts
    && all group_valid f.groups
    && all is_id f.occupied_uids
    && all is_id f.occupied_gids
    && path_valid f.nologin
    && path_valid f.nonexistent
    && optional is_bound f.allocation_range.uid_min
    && optional is_bound f.allocation_range.uid_max
    && optional is_bound f.allocation_range.gid_min
    && optional is_bound f.allocation_range.gid_max
