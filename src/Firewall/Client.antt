-- ===== src/Firewall/Client.antt =====
-- `normalize_source_cidr`, `_run_backend` and the two operations of the command line.
use kitdev_sandboxes.Base.{
  ℕ, zero, suc, String, str_eq, Bool, true, false, not, ◌&&◌, ◌||◌, Option, none, some, List, [],
  ◌∷◌, ◌++◌, ◌<>◌, map, ◌==◌, if◌then◌else◌, any,
}
use kitdev_sandboxes.Base.Dict.{lookup}
use kitdev_sandboxes.Base.Errors.{ok, err, ◌>>=◌, ◌>>◌, raise_if}
use kitdev_sandboxes.Base.Sort.{sort_by}
use kitdev_sandboxes.Base.Strings.{str_mem}
use kitdev_sandboxes.Firewall.Networks.{
  Network, Parser, overlaps, Key, key, key_leb, is_non_public, is_broad, Item, items, Json, object,
  Source, has_keys, equals, differ, modes, Failure, stop, crash, Checked,
}
use kitdev_sandboxes.Firewall.Manifest.{in_texts, text_of, fields_of}
use Prim.Native.Char.{code}

-- `CompletedProcess`, with the standard error's lines, and the standard output as `json.loads`
-- gives it: none is a `JSONDecodeError`.
pub record Completed : Type 0 where
  pub returncode : ℕ
  pub stderr : List String
  pub stdout : Option Json

-- The result of an operation; `outcome` is left out, since no code sets it.
pub record FirewallSourceResult : Type 0 where
  pub action : String
  pub sources : List Source
  pub mode : String

abbrev backend_invalid : Failure
backend_invalid = stop "firewall_source_backend_invalid" 69

-- `line.split("=", n)[n]` of a line that has `n` equality signs.
unfoldable after_equals : ℕ → String → String
after_equals zero s = s
after_equals (suc n) String.[] = ""
after_equals (suc n) (String.◌∷◌ c s) =
    let here = after_equals n s in
    let later = after_equals (suc n) s in if code c == b'=' then here else later

unfoldable starts_with : String → String → Bool
starts_with String.[] s = true
starts_with (String.◌∷◌ c p) String.[] = false
starts_with (String.◌∷◌ c p) (String.◌∷◌ d s) = code c == code d && starts_with p s

unfoldable pub reason_of : List String → String
unfolding after_equals starts_with
reason_of [] = "firewall_source_backend_failed"
reason_of (line ∷ rest) =
    let later = reason_of rest in
    if starts_with "status=error reason=" line then after_equals 2 line else later

-- `a == b` on lists of keys.
unfoldable pub keys_eq : List Key → List Key → Bool
keys_eq [] [] = true
keys_eq ((v, a, p) ∷ xs) ((w, b, q) ∷ ys) = v == w && a == b && p == q && keys_eq xs ys
keys_eq _ _ = false

-- A membership test that fails on what cannot be hashed is a `TypeError`, which the code catches.
abbrev caught : {A : Type 0} → Checked A → Checked A
caught (ok a) = ok a
caught (err crash) = err backend_invalid
caught (err e) = err e

-- The part of `normalize_source_cidr` behind the parser.
unfoldable pub normalize_source : String → Bool → Bool → Network → Checked String
normalize_source value allow_non_public allow_broad_range n = do
  raise_if (not (str_eq value n.text) || n.prefixlen == 0) (stop "source_cidr_not_canonical" 64)
  raise_if (is_non_public n && not allow_non_public)
      (stop "source_cidr_non_public_requires_override" 64)
  raise_if (is_broad n && not allow_broad_range)
      (stop "source_cidr_broad_range_requires_override" 64)
  ok n.text

module _ (ip_network : Parser) where
  unfoldable pub normalize_source_cidr : String → Bool → Bool → Checked String
  normalize_source_cidr value allow_non_public allow_broad_range = elim (ip_network value) [
    | none ↦ err (stop "source_cidr_invalid" 64)
    | some n ↦ normalize_source value allow_non_public allow_broad_range n
  ]

  -- The loop over the sources, with `networks` and `checked`.
  unfoldable pub check_sources :
      List Network → List Source → List Item → Checked (List Network × List Source)
  check_sources networks checked [] = ok (networks, checked)
  check_sources networks checked (item ∷ rest) = elim (fields_of item) [
    | none ↦ err backend_invalid
    | some s ↦ do
      c ← normalize_source_cidr s.cidr s.non_public_override s.broad_range_override
      elim (ip_network c) [
        | none ↦ err crash
        | some n ↦ do
          raise_if
              (differ s.non_public_override (is_non_public n)
                || differ s.broad_range_override (is_broad n))
              backend_invalid
          raise_if (any (overlaps n) networks) backend_invalid
          check_sources (networks ++ (n ∷ [])) (checked ++ (s ∷ [])) rest
      ]
  ]

  -- The checks of the document that the backend printed.
  unfoldable pub check_document : String → Json → Checked FirewallSourceResult
  check_document action Json.no_object = err backend_invalid
  check_document action (object d) = do
    raise_if
        (not (has_keys d ("schema_version" ∷ "command" ∷ "status" ∷ "mode" ∷ "sources" ∷ []))
          || not (equals (lookup "schema_version" d) 1)
          || not (str_eq (text_of (lookup "command" d)) "firewall source list")
          || not (str_eq (text_of (lookup "status" d)) "pass"))
        backend_invalid
    elim (lookup "sources" d) [
      | some (items is) ↦ do
        known ← caught (in_texts (lookup "mode" d) modes)
        raise_if (not known) backend_invalid
        r ← check_sources [] [] is
        let keys = map key r.0
        raise_if (not (keys_eq keys (sort_by key_leb keys))) backend_invalid
        ok (record { action = action; sources = r.1; mode = text_of (lookup "mode" d) })
      | _ ↦ err backend_invalid
    ]

  unfoldable pub run_backend :
      List String → String → (List String → Checked Completed) → Checked FirewallSourceResult
  run_backend arguments action runner = do
    completed ← runner arguments
    raise_if (not (completed.returncode == 0))
        (stop (reason_of completed.stderr) completed.returncode)
    elim completed.stdout [ none ↦ err backend_invalid | some j ↦ check_document action j ]

  -- The arguments of the backend for an addition or a removal.
  unfoldable pub change_arguments :
      String → Bool → Option String → Bool → Bool → Checked (List String)
  change_arguments backend add none allow_non_public allow_broad_range =
      err (stop "source_cidr_required" 64)
  change_arguments backend add (some cidr) allow_non_public allow_broad_range = do
    c ←
        normalize_source_cidr cidr (if add then allow_non_public else true)
          (if add then allow_broad_range else true)
    ok (
        backend
        ∷ (if add then "source-add" else "source-remove")
        ∷ "--cidr"
        ∷ c
        ∷ ((if add && allow_non_public then "--allow-non-public" ∷ [] else [])
            ++ (if add && allow_broad_range then "--allow-broad-range" ∷ [] else [])))

  unfoldable pub run_firewall_source_operation :
      String
      → Option String
      → Bool
      → Bool
      → String
      → (List String → Checked Completed)
      → Checked FirewallSourceResult
  run_firewall_source_operation action cidr allow_non_public allow_broad_range backend runner =
      if str_eq action "list"
      then (do
        raise_if
            (elim cidr [ none ↦ false | some _ ↦ true ] || allow_non_public || allow_broad_range)
            (stop "firewall_source_arguments_invalid" 64)
        run_backend (backend ∷ "source-list" ∷ []) action runner)
      else if str_eq action "add" || str_eq action "remove"
      then (do
        arguments ←
            change_arguments backend (str_eq action "add") cidr allow_non_public allow_broad_range
        run_backend arguments action runner)
      else err (stop "firewall_source_action_invalid" 64)

  unfoldable pub run_firewall_mode_operation :
      String → String → (List String → Checked Completed) → Checked FirewallSourceResult
  run_firewall_mode_operation mode backend runner = do
    raise_if (not (str_mem mode modes)) (stop "firewall_mode_invalid" 64)
    run_backend (backend ∷ "mode" ∷ mode ∷ []) ("mode-" <> mode) runner
