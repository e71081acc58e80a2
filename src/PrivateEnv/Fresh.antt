-- ===== src/PrivateEnv/Fresh.antt =====
-- The first run of `bootstrap`.
use kitdev_sandboxes.Base.{
  ℕ, ◌≤◌, ◌≡◌, refl, ap, ◌∙◌, str_eq, false, ◌++◌, none, some, any, any-append, subst, length, ltb,
  arith,
}
use kitdev_sandboxes.Base.Errors.{ok, ◌>>=◌}
use kitdev_sandboxes.Base.Strings.{codes}
use kitdev_sandboxes.Base.Dict.{lookup, contains}
use kitdev_sandboxes.PrivateEnv.Document.{
  Codes, Values, Networks, all_keys, validate, validate_network, payload, is_line_break, quote,
  postgres_url, clickhouse_url,
}
use kitdev_sandboxes.PrivateEnv.Lines.{IsLineValue, Writable, restricted}
use kitdev_sandboxes.PrivateEnv.Laws.{IsDocument, read_document-write_document}
use kitdev_sandboxes.PrivateEnv.Operations.{
  EnvHost, absent, Tokens, fresh_values, require_parent, read_file, read_document, written, prepare,
  publish_env, bootstrap_read, write_document, run_command, bootstrap, bootstrap_command,
  after_write, private_directory, report, max_env_bytes,
}
use kitdev_sandboxes.PrivateEnv.Token.{
  AreTokens, is_hex64_narrow, quote_narrow, quote_one_line, is_hex64-IsLineValue, short,
  token_short, quoted_short, after_narrow, is_wide, codes_eq_refl,
}

fresh_values_valid :
    (networks : Networks) (t : Tokens) → AreTokens t → validate networks (fresh_values t) ≡ ok tt
unfolding validate fresh_values lookup contains str_eq validate_network
fresh_values_valid networks t hex =
    rw
      (
        hex.postgres,
        hex.clickhouse,
        hex.seed,
        hex.admin,
        codes_eq_refl (postgres_url t.postgres),
        codes_eq_refl (clickhouse_url t.clickhouse),
        codes_eq_refl (codes "kitdev"),
      )
      refl

-- The lines of the new values are ASCII.
fresh_values_narrow :
    (t : Tokens) → AreTokens t → any is_wide (payload all_keys (fresh_values t)) ≡ false
unfolding payload fresh_values lookup str_eq
fresh_values_narrow t hex =
    after_narrow t.postgres _ (is_hex64_narrow t.postgres hex.postgres)
    ∙ after_narrow (quote t.postgres ++ codes "@postgres:5432/kitdev?sslmode=disable") _
        (after_narrow (quote t.postgres) _ (quote_narrow t.postgres))
    ∙ after_narrow t.clickhouse _ (is_hex64_narrow t.clickhouse hex.clickhouse)
    ∙ after_narrow (quote t.clickhouse ++ codes "@clickhouse:9000/default") _
        (after_narrow (quote t.clickhouse) _ (quote_narrow t.clickhouse))
    ∙ after_narrow t.seed _ (is_hex64_narrow t.seed hex.seed)
    ∙ after_narrow t.admin _ (is_hex64_narrow t.admin hex.admin)

below_limit : (n : ℕ) → n ≤ 4000 → ltb max_env_bytes n ≡ false
below_limit n h = ground arith

fresh_values_small :
    (t : Tokens)
    → AreTokens t
    → ltb max_env_bytes (length (payload all_keys (fresh_values t))) ≡ false
unfolding payload fresh_values lookup str_eq
fresh_values_small t hex = below_limit (length (payload all_keys (fresh_values t))) (
    short (codes "POSTGRES_PASSWORD=") _ 3700 (omega arith) (
      short t.postgres _ 3400 (token_short t.postgres hex.postgres) (
        short (codes "\nPOSTGRES_CONNECTION_STRING=postgres://kitdev:") _ 3100 (omega arith) (
          short (quote t.postgres ++ codes "@postgres:5432/kitdev?sslmode=disable") _ 2800
            (quoted_short t.postgres _ hex.postgres (omega arith))
            (short (codes "\nCLICKHOUSE_USER=kitdev\nCLICKHOUSE_PASSWORD=") _ 2500 (omega arith) (
              short t.clickhouse _ 2200 (token_short t.clickhouse hex.clickhouse) (
                short (codes "\nCLICKHOUSE_CONNECTION_STRING=clickhouse://kitdev:") _ 1900
                  (omega arith)
                  (short (quote t.clickhouse ++ codes "@clickhouse:9000/default") _ 1600
                    (quoted_short t.clickhouse _ hex.clickhouse (omega arith))
                    (short (codes "\nSANDBOX_ACCESS_TOKEN_HASH_SEED=") _ 1300 (omega arith) (
                      short t.seed _ 1000 (token_short t.seed hex.seed) (
                        short (codes "\nADMIN_TOKEN=") _ 700 (omega arith) (
                          short t.admin (codes "\n") 400 (token_short t.admin hex.admin)
                            (omega arith)))))))))))))

line : (u v : Codes) → IsLineValue u → some u ≡ some v → IsLineValue v
line u v plain same = let equal : u ≡ v = cc same in subst IsLineValue equal plain

no_line : (v : Codes) → none ≡ some v → IsLineValue v
no_line v same = (cc same, cc same)

postgres_url-IsLineValue : (cs : Codes) → IsLineValue (postgres_url cs)
unfolding postgres_url
postgres_url-IsLineValue cs = (
  ground arith,
  any-append is_line_break (quote cs) (codes "@postgres:5432/kitdev?sslmode=disable")
      ∙ rw (quote_one_line cs) refl,
)

clickhouse_url-IsLineValue : (cs : Codes) → IsLineValue (clickhouse_url cs)
unfolding clickhouse_url
clickhouse_url-IsLineValue cs = (
  ground arith,
  any-append is_line_break (quote cs) (codes "@clickhouse:9000/default")
      ∙ rw (quote_one_line cs) refl,
)

fresh_values-Writable : (t : Tokens) → AreTokens t → Writable all_keys (fresh_values t)
unfolding fresh_values lookup str_eq
fresh_values-Writable t hex = (
  λ v. line _ v (is_hex64-IsLineValue t.postgres hex.postgres),
  (
    λ v. line _ v (postgres_url-IsLineValue t.postgres),
    (
      λ v. line _ v (refl, refl),
      (
        λ v. line _ v (is_hex64-IsLineValue t.clickhouse hex.clickhouse),
        (
          λ v. line _ v (clickhouse_url-IsLineValue t.clickhouse),
          (
            λ v. line _ v (is_hex64-IsLineValue t.seed hex.seed),
            (
              λ v. line _ v (is_hex64-IsLineValue t.admin hex.admin),
              (no_line, (no_line, (no_line, (no_line, (no_line, (no_line, tt)))))),
            ),
          ),
        ),
      ),
    ),
  ),
)

fresh_values-IsDocument : (t : Tokens) → AreTokens t → IsDocument (fresh_values t)
unfolding fresh_values lookup str_eq restricted
fresh_values-IsDocument t hex = record {
  ordered = refl;
  writable = fresh_values-Writable t hex;
  small = fresh_values_small t hex;
}

-- The directory as it has to be, without a file in it.
abbrev pub first_host : EnvHost
first_host = record { parent = some private_directory; file = absent }

ready : (t : Tokens) → AreTokens t → prepare (fresh_values t) first_host ≡ ok tt
unfolding prepare require_parent
ready t hex = rw (fresh_values_narrow t hex, prepare) refl

first_write :
    (networks : Networks) (t : Tokens)
    → AreTokens t
    → write_document networks (fresh_values t) false first_host
      ≡ (ok tt, record first_host { file = written (fresh_values t) })
unfolding write_document publish_env
first_write networks t hex =
    rw (fresh_values_valid networks t hex, ready t hex, write_document) refl

-- A document is missing, is written, and is read back.
bootstrap_steps :
    (networks : Networks) (t : Tokens) (d : Values) (h h' : EnvHost)
    → read_document networks h ≡ ok none
    → write_document networks (fresh_values t) false h ≡ (ok tt, h')
    → read_document networks h' ≡ ok (some d)
    → bootstrap_read networks t h (read_document networks h)
      ≡ (ok (report "bootstrap-private-env" "created"), h')
bootstrap_steps networks t d h h' missing made again =
    let printed = report "bootstrap-private-env" "created" in
    ap (λ o. bootstrap_read networks t h o) missing
    ∙ ap (λ o. after_write networks printed o) made
    ∙ ap (λ o. ((do _ ← o; ok printed), h')) again

first_read : (networks : Networks) → read_document networks first_host ≡ ok none
unfolding read_document require_parent read_file
first_read networks = refl

-- With four tokens of `token_hex(32)`, `bootstrap` in a private directory without the file reports
-- that it has made it, and leaves it with the values of these tokens, which `read_document` gives.
pub bootstrap_creates :
    (networks : Networks) (t : Tokens)
    → AreTokens t
    → (run_command networks (bootstrap_command t) first_host ≡ (
      ok (report "bootstrap-private-env" "created"),
      record first_host { file = written (fresh_values t) },
    ))
      × (read_document networks (record first_host { file = written (fresh_values t) })
          ≡ ok (some (fresh_values t)))
unfolding run_command bootstrap
bootstrap_creates networks t hex =
    let again =
      read_document-write_document networks (fresh_values t) false first_host
        (record first_host { file = written (fresh_values t) }) (fresh_values-IsDocument t hex)
        (first_write networks t hex) in
    (
      bootstrap_steps networks t (fresh_values t) first_host
          (record first_host { file = written (fresh_values t) }) (first_read networks)
          (first_write networks t hex) again,
      again,
    )
