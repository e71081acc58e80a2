-- ===== src/PrivateEnv/Restored.antt =====
-- What a run leaves in the directory of the curl configurations.
use kitdev_sandboxes.Base.{
  ◌≡◌, refl, inl, inr, String, true, not, [], ◌∷◌, none, some, ◌++◌, ◌||◌, any, leb, ltb, ◌==◌,
  length, subst, ap,
}
use kitdev_sandboxes.Base.Errors.{
  ok, err, >>=-eq-ok, >>=-ok-rest, raise_if, raise_if-eq-ok, not-eq-false, ok_inj, ◌>>◌,
}
use kitdev_sandboxes.Base.Dict.{lookup}
use kitdev_sandboxes.Checks.Patterns.{codes_eq}
use kitdev_sandboxes.Journal.Policy.{is_regular}
use kitdev_sandboxes.PrivateEnv.Document.{Codes, Checked, Networks, value}
use kitdev_sandboxes.PrivateEnv.Operations.{
  EnvFile, absent, linked_away, present, EnvHost, Printed, read_document,
}
use kitdev_sandboxes.PrivateEnv.Curl.{
  Entries, Output, write_files, gather, admin_header, api_header, is_api_key, api_key_of,
  read_api_key, write_e2e_configs, reported, some_values, require_output, strip_newlines,
}
use kitdev_sandboxes.PrivateEnv.Written.{result_cases}
use kitdev_sandboxes.PrivateEnv.Attempts.{Same, Beside, Outcome, IsOrderly, write_files-Outcome}

-- What a run leaves and prints: nothing new and a reason, or its report and the two files, with the
-- token of the private file and the key of the key file, which has the form of an API key.
pub data Ended (networks : Networks) (h : EnvHost) (key_file : EnvFile) (o : Output)
    : Checked Printed × Entries → Type 0 where
  refused :
      (reason : String) (after : Entries)
      → Same o.entries after
      → Ended networks h key_file o (err reason, after)
  completed :
      (token key : Codes) (printed : Printed) (after : Entries)
      → gather networks h key_file o ≡ ok (token, key)
      → is_api_key key ≡ true
      → lookup "admin.curlrc" o.entries ≡ none
      → lookup "api.curlrc" o.entries ≡ none
      → lookup "admin.curlrc" after ≡ some (admin_header token)
      → lookup "api.curlrc" after ≡ some (api_header key)
      → Beside o.entries after
      → Ended networks h key_file o (ok printed, after)

api_key_of-form : (raw key : Codes) → api_key_of raw ≡ ok key → is_api_key key ≡ true
unfolding api_key_of
api_key_of-form raw key e =
    let k = strip_newlines raw in
    let same =
      raise_if (not (codes_eq raw k || codes_eq raw (k ++ (0x0a ∷ [])))) "e2e_api_key_invalid" in
    let formed =
      raise_if-eq-ok (not (is_api_key k)) "e2e_api_key_invalid" (do same; ok k)
        (raise_if-eq-ok (any (λ c. leb 0x80 c) raw) "e2e_api_key_invalid"
          (do raise_if (not (is_api_key k)) "e2e_api_key_invalid"; same; ok k) e).1 in
    subst (λ x. is_api_key x ≡ true)
      (ok_inj
        (raise_if-eq-ok (not (codes_eq raw k || codes_eq raw (k ++ (0x0a ∷ []))))
          "e2e_api_key_invalid" (ok k) formed.1).1)
      (not-eq-false (is_api_key k) formed.0)

read_api_key-form : (f : EnvFile) (key : Codes) → read_api_key f ≡ ok key → is_api_key key ≡ true
unfolding read_api_key
read_api_key-form absent key e = cc
read_api_key-form linked_away key e = cc
read_api_key-form (present m links raw) key e =
    >>=-ok-rest
      (raise_if
        (not (is_regular m.kind)
          || not (m.uid == 0)
          || not (m.gid == 0)
          || not (m.mode == 384)
          || not (links == 1)
          || ltb 513 (length raw))
        "e2e_api_key_metadata_conflict")
      (λ _. api_key_of raw) (λ _ rest. api_key_of-form raw key rest) e

gather-form :
    (networks : Networks) (h : EnvHost) (key_file : EnvFile) (o : Output) (token key : Codes)
    → gather networks h key_file o ≡ ok (token, key)
    → is_api_key key ≡ true
unfolding gather
gather-form networks h key_file o token key e =
    >>=-ok-rest (read_document networks h) _
      (λ found. >>=-ok-rest (some_values found) _ (λ d. >>=-ok-rest (require_output o) _ (λ _ rest.
        let read = >>=-eq-ok (read_api_key key_file) (λ k. ok (value "ADMIN_TOKEN" d, k)) rest in
        subst (λ x. is_api_key x ≡ true) (ap (λ p. p.1) (ok_inj read.2))
          (read_api_key-form key_file read.0 read.1))))
      e

module _ (networks : Networks) (h : EnvHost) (key_file : EnvFile) (o : Output) where
  reported-Ended :
      (token key : Codes) (r : Checked (Unit {0}) × Entries)
      → gather networks h key_file o ≡ ok (token, key)
      → Outcome token key o.entries r
      → Ended networks h key_file o (reported r)
  reported-Ended token key _ from (Outcome.restored reason after same) =
      Ended.refused reason after same
  reported-Ended token key _ from (Outcome.both after free free' admin api beside) =
      Ended.completed token key _ after from (gather-form networks h key_file o token key from) free
        free' admin api beside

  -- Where the files that are written and their directory can be closed, and what was made can be
  -- removed, a run of write-e2e-curl-configs that fails leaves the directory with what it held,
  -- whether it fails before a file is made, while one is made or written, or behind them. One that
  -- succeeds has made the two files, whose names were free, of the token and the key that it read,
  -- and has left everything else.
  pub write_e2e_configs-Ended :
      IsOrderly o → Ended networks h key_file o (write_e2e_configs networks h key_file o)
  unfolding write_e2e_configs
  write_e2e_configs-Ended orderly = elim (result_cases (gather networks h key_file o)) [
    | inl (reason, bad) ↦ rw (bad, write_e2e_configs) (Ended.refused reason o.entries (λ n. refl))
    | inr ((token, key), good) ↦
        rw (good, write_e2e_configs)
          (reported-Ended token key (write_files o token key) good
            (write_files-Outcome o orderly token key))
  ]
