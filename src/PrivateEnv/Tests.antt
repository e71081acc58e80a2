-- ===== src/PrivateEnv/Tests.antt =====
-- The theorems on the private environment file at concrete inputs.
use kitdev_sandboxes.Base.{
  ◌≡◌, refl, str_eq, String, Bool, true, false, not, ◌&&◌, List, [], ◌∷◌, none, some, any, length,
  ◌==◌, arith,
}
use kitdev_sandboxes.Base.Errors.{ok, err}
use kitdev_sandboxes.Base.Strings.{codes}
use kitdev_sandboxes.Checks.Patterns.{codes_eq}
use kitdev_sandboxes.Base.Dict.{lookup, contains}
use kitdev_sandboxes.PrivateEnv.Document.{
  Codes, Values, Networks, all_keys, is_line_break, validate, validate_network, payload, is_hex64,
  postgres_url, clickhouse_url,
}
use kitdev_sandboxes.PrivateEnv.Operations.{
  EnvHost, EnvFile, absent, present, private_file, private_directory, report, Tokens, fresh_values,
  with_parent, written, prepare, publish_env, require_parent, write_document, read_document,
  run_command, bootstrap_command,
}
use kitdev_sandboxes.PrivateEnv.Lines.{restricted, Writable}
use kitdev_sandboxes.PrivateEnv.Laws.{IsDocument, read_document-write_document}
use kitdev_sandboxes.PrivateEnv.Token.{AreTokens}
use kitdev_sandboxes.PrivateEnv.Fresh.{bootstrap_creates, first_host}
use kitdev_sandboxes.PrivateEnv.Curl.{
  Output, unharmed, broken, read_api_key, write_files, write_e2e_configs,
}
use kitdev_sandboxes.PrivateEnv.Attempts.{IsOrderly}
use kitdev_sandboxes.PrivateEnv.Restored.{Ended, write_e2e_configs-Ended}
use kitdev_sandboxes.PrivateEnv.Written.{Kept, run_command-Kept}

abbrev is_writable : List String → Values → Bool
is_writable [] d = true
is_writable (k ∷ ks) d =
    elim (lookup k d) [ none ↦ true | some v ↦ not (length v == 0) && not (any is_line_break v) ]
    && is_writable ks d

is_writable-Writable : (ks : List String) (d : Values) → is_writable ks d ≡ true → Writable ks d
is_writable-Writable [] d h = tt
is_writable-Writable (k ∷ ks) d h =
    (λ v here. ground (arith, rw here at h), is_writable-Writable ks d (ground arith))

abbrev offline : Networks
offline subnet gateway = none

abbrev token : Codes
token = codes "0123456789abcdef0123456789abcdef0123456789abcdef0123456789abcdef"

abbrev tokens : Tokens
tokens = record { postgres = token; clickhouse = token; seed = token; admin = token }

abbrev new_host : EnvHost
new_host = record { parent = none; file = absent }

abbrev first_values : Values
first_values = fresh_values tokens

first_values-IsDocument : IsDocument first_values
unfolding fresh_values restricted lookup payload str_eq
first_values-IsDocument = record {
  ordered = refl;
  writable = is_writable-Writable all_keys first_values refl;
  small = refl;
}

valid : validate offline first_values ≡ ok tt
unfolding validate fresh_values lookup contains str_eq is_hex64 codes_eq validate_network
    postgres_url clickhouse_url
valid = refl

ready : prepare first_values new_host ≡ ok tt
unfolding prepare fresh_values payload lookup str_eq require_parent
ready = refl

bootstrapped :
    write_document offline first_values false new_host
    ≡ (ok tt, record (with_parent new_host) { file = written first_values })
unfolding write_document publish_env
bootstrapped = rw (valid, ready, write_document) refl

read_document-write_document_example :
    read_document offline (record (with_parent new_host) { file = written first_values })
    ≡ ok (some first_values)
read_document-write_document_example =
    read_document-write_document offline first_values false new_host
      (record (with_parent new_host) { file = written first_values }) first_values-IsDocument
      bootstrapped

run_command-Kept_example :
    Kept offline absent (run_command offline (bootstrap_command tokens) new_host).1.file
run_command-Kept_example = run_command-Kept offline (bootstrap_command tokens) new_host

abbrev key_file : EnvFile
key_file = present private_file 1 (codes "0123456789abcdef\n")

abbrev broken_output : Output
broken_output = record {
  metadata = some private_directory;
  entries = ("notes", []) ∷ [];
  opens = true;
  replaced = false;
  admin_fault = unharmed;
  api_fault = broken 7 "e2e_config_write_failed";
  end_fault = none;
  close_fault = none;
  admin_removable = true;
  api_removable = true;
}

abbrev second_host : EnvHost
second_host = record (with_parent new_host) { file = written first_values }

broken_output-IsOrderly : IsOrderly broken_output
broken_output-IsOrderly = record {
  admin_closes = refl;
  api_closes = refl;
  parent_closes = refl;
  removes_admin = refl;
  removes_api = refl;
}

write_e2e_configs-Ended_example :
    Ended offline second_host key_file broken_output
      (write_e2e_configs offline second_host key_file broken_output)
write_e2e_configs-Ended_example =
    write_e2e_configs-Ended offline second_host key_file broken_output broken_output-IsOrderly

demo_api_key : read_api_key key_file ≡ ok (codes "0123456789abcdef")
unfolding read_api_key
demo_api_key = refl

-- The second file fails behind seven bytes, and the first is gone too.
demo_write_files :
    write_files broken_output token token ≡ (err "e2e_config_write_failed", ("notes", []) ∷ [])
unfolding write_files contains lookup str_eq
demo_write_files = refl

tokens-AreTokens : AreTokens tokens
unfolding is_hex64
tokens-AreTokens = record { postgres = refl; clickhouse = refl; seed = refl; admin = refl }

bootstrap_creates_example :
    (run_command offline (bootstrap_command tokens) first_host ≡ (
      ok (report "bootstrap-private-env" "created"),
      record first_host { file = written (fresh_values tokens) },
    ))
    × (read_document offline (record first_host { file = written (fresh_values tokens) })
        ≡ ok (some (fresh_values tokens)))
bootstrap_creates_example = bootstrap_creates offline tokens tokens-AreTokens
