-- ===== src/Template/Laws.antt =====
-- Every run of the script ends in one of the ways of `Steps`.
use kitdev_sandboxes.Base.{
  ◌≢◌, ◌≡◌, refl, inl, inr, String, str_eq, str_eq_refl, true, not, ◌||◌, Option, none, some,
  if◌then◌else◌, arith, Bool-cases,
}
use kitdev_sandboxes.Base.Dict.{lookup, insert, lookup-insert}
use kitdev_sandboxes.Base.Errors.{ok, err}
use kitdev_sandboxes.Template.Record.{
  state_error, is_hash, alias_of, text, Document, Checked, is_text,
}
use kitdev_sandboxes.Template.Operations.{
  codes_or_empty, Operation, Arguments, Place, JournalFile, load, expected, same_product, matches,
  same_argument, reserved_record, in_state, run_migrate, run_publish, run_rollback, run_matched,
  run_missing, run_present, run,
}
use kitdev_sandboxes.Template.Steps.{Ends, write-Ends, Post, matches-insert, run_candidate-Ends}

module _ (args : Arguments) (alias now : String) (place : Place) (file : JournalFile)
    (d : Document) where
  run_publish-Ends :
      load file ≡ ok (some d)
      → matches d args alias ≡ true
      → Ends place file (Post args alias Operation.publish (some d)) (run_publish now place file d)
  unfolding run_publish str_eq is_text
  run_publish-Ends l m = elim (Bool-cases (in_state d "qualified_private")) [
    | inl q ↦
        rw (q, run_publish)
          (write-Ends place file _ _ (
            rw
                (
                  matches-insert "published_at" _ _ args alias refl refl refl refl,
                  matches-insert "state" _ d args alias refl refl refl refl,
                )
                m,
            simp lookup-insert,
            inr (q, simp lookup-insert),
          ))
    | inr q ↦ elim (Bool-cases (in_state d "published")) [
      | inl p ↦ rw (q, p, run_publish) (inl l, (m, p, inl refl))
      | inr p ↦ rw (q, p, run_publish) refl
    ]
  ]

  run_rollback-Ends :
      load file ≡ ok (some d)
      → matches d args alias ≡ true
      → Ends place file
          (Post args alias Operation.rollback (some d))
          (run_rollback now place file d)
  unfolding run_rollback str_eq is_text
  run_rollback-Ends l m =
      elim (Bool-cases (in_state d "qualified_private" || in_state d "published")) [
        | inl live ↦ elim (Bool-cases (in_state d "rolled_back")) [
          | inl r ↦ rw (live, r, run_rollback) (inl l, (m, r, inl refl))
          | inr r ↦
              rw (live, r, run_rollback)
                (write-Ends place file _ _ (
                  rw
                      (
                        matches-insert "rolled_back_at" _ _ args alias refl refl refl refl,
                        matches-insert "state" _ d args alias refl refl refl refl,
                      )
                      m,
                  simp lookup-insert,
                  inr (live, simp lookup-insert),
                ))
        ]
        | inr dead ↦ elim (Bool-cases (in_state d "rolled_back")) [
          | inl r ↦ rw (dead, r, run_rollback) (inl l, (m, r, inl refl))
          | inr r ↦ rw (dead, r, run_rollback) refl
        ]
      ]

  -- The record that a migration writes.
  migrated : Document
  migrated =
      insert "definition_migrated_at" (text now)
        (insert "definition_sha256" (text args.definition_sha256) d)

  migrated-matches : same_product d args alias ≡ true → matches migrated args alias ≡ true
  unfolding migrated matches same_product str_eq is_text
  migrated-matches s = simp lookup-insert (ground (arith, str_eq_refl args.definition_sha256))

  migrated-state : in_state migrated "qualified_private" ≡ in_state d "qualified_private"
  unfolding migrated str_eq
  migrated-state = simp lookup-insert

  run_migrate-Ends :
      load file ≡ ok (some d)
      → Ends place file
          (Post args alias Operation.migrate_definition (some d))
          (run_migrate args alias now place file d)
  unfolding run_migrate migrated
  run_migrate-Ends l =
      elim (Bool-cases (
        not (same_product d args alias)
        || not (in_state d "qualified_private")
        || not (same_argument (lookup "definition_sha256" d) args.prior_definition_sha256)
        || not (is_hash (codes_or_empty args.prior_definition_sha256)))) [
          | inl bad ↦ rw bad refl
          | inr good ↦
              let q : in_state d "qualified_private" ≡ true = ground arith in
              rw good (
                write-Ends place file _ migrated
                  (migrated-matches (ground arith), tt, inr (q, rw migrated-state q)))
        ]

  run_matched-Ends :
      (op : Operation)
      → op ≢ Operation.migrate_definition
      → load file ≡ ok (some d)
      → matches d args alias ≡ true
      → Ends place file (Post args alias op (some d)) (run_matched op args now place file d)
  unfolding run_matched
  run_matched-Ends Operation.candidate n l m = run_candidate-Ends args alias now place file d l m
  run_matched-Ends Operation.publish n l m = run_publish-Ends l m
  run_matched-Ends Operation.rollback n l m = run_rollback-Ends l m
  run_matched-Ends Operation.reserve n l m = (inl l, (m, tt, inl refl))
  run_matched-Ends Operation.show n l m = (inl l, (m, tt, inl refl))
  run_matched-Ends Operation.migrate_definition n l m = absurd (n refl)

  owned-Ends :
      (op : Operation)
      → op ≢ Operation.migrate_definition
      → load file ≡ ok (some d)
      → Ends place file (Post args alias op (some d)) (
          if not (matches d args alias)
          then (err (state_error "journal_ownership_conflict"), file)
          else run_matched op args now place file d)
  owned-Ends op n l = elim (Bool-cases (matches d args alias)) [
    | inl m ↦ rw m (run_matched-Ends op n l m)
    | inr m ↦ rw m refl
  ]

  run_present-Ends :
      (op : Operation)
      → load file ≡ ok (some d)
      → Ends place file (Post args alias op (some d)) (run_present op args alias now place file d)
  unfolding run_present
  run_present-Ends Operation.migrate_definition l = run_migrate-Ends l
  run_present-Ends Operation.candidate l = owned-Ends Operation.candidate (λ e. cc) l
  run_present-Ends Operation.publish l = owned-Ends Operation.publish (λ e. cc) l
  run_present-Ends Operation.rollback l = owned-Ends Operation.rollback (λ e. cc) l
  run_present-Ends Operation.reserve l = owned-Ends Operation.reserve (λ e. cc) l
  run_present-Ends Operation.show l = owned-Ends Operation.show (λ e. cc) l

module _ (args : Arguments) (alias now : String) where
  reserved_record-fields :
      (lookup "product" (reserved_record args alias now) ≡ some (text args.product))
      × (lookup "alias" (reserved_record args alias now) ≡ some (text alias))
      × (lookup "version" (reserved_record args alias now) ≡ some (text args.version))
      × (lookup "definition_sha256" (reserved_record args alias now)
          ≡ some (text args.definition_sha256))
  unfolding reserved_record lookup str_eq
  reserved_record-fields = (refl, refl, refl, refl)

  reserved_record-matches : matches (reserved_record args alias now) args alias ≡ true
  unfolding matches same_product is_text
  reserved_record-matches =
      let (p, a, v, h) = reserved_record-fields in
      rw (p, a, v, h)
        (ground (
          arith,
          str_eq_refl args.product,
          str_eq_refl alias,
          str_eq_refl args.version,
          str_eq_refl args.definition_sha256,
        ))

  reserved_record-state : in_state (reserved_record args alias now) "reserved" ≡ true
  unfolding reserved_record lookup str_eq is_text
  reserved_record-state = refl

module _ (args : Arguments) (alias now : String) (place : Place) (file : JournalFile) where
  run_missing-Ends :
      (op : Operation)
      → Ends place file (Post args alias op none) (run_missing op args alias now place file)
  unfolding run_missing
  run_missing-Ends Operation.reserve =
      write-Ends place file _ _
        (reserved_record-matches args alias now, tt, (refl, reserved_record-state args alias now))
  run_missing-Ends Operation.candidate = refl
  run_missing-Ends Operation.publish = refl
  run_missing-Ends Operation.rollback = refl
  run_missing-Ends Operation.show = refl
  run_missing-Ends Operation.migrate_definition = refl

-- The record before a run, and the alias of the product.
abbrev pub before : JournalFile → Option Document
before file = elim (load file) [ ok o ↦ o | err e ↦ none ]

abbrev pub alias_for : Arguments → String
alias_for args = elim (alias_of args.product) [ some a ↦ a | none ↦ "" ]

pub expected-eq : (args : Arguments) {a : String} → expected args ≡ ok a → a ≡ alias_for args
unfolding expected
expected-eq args e = ground arith

-- Every run either raises and leaves the file as it was, or returns the record that the file then
-- holds. That record passes the script's own checks when it is read again, unless the run has written
-- it and its text has more than 16384 bytes. It belongs to the product, alias, version and definition
-- of the arguments, shows what the operation was to bring about, and comes from the record before by
-- one of the operation's moves, if it is not that record.
pub run-Ends :
    (args : Arguments) (now : String) (place : Place) (file : JournalFile)
    → Ends place file
        (Post args (alias_for args) args.operation (before file))
        (run args now place file)
unfolding run
run-Ends args now place file = go (expected args) refl (load file) refl
  where
    go :
        (r : Checked String)
        → expected args ≡ r
        → (l : Checked (Option Document)) → load file ≡ l
        → Ends place file
            (Post args (alias_for args) args.operation (before file))
            (run args now place file)
    go (err e) q l h = rw (q, run) refl
    go (ok a) q (err e) h = rw (q, run, h) refl
    go (ok a) q (ok none) h =
        rw (q, run, before, h)
          (rw (expected-eq args q) (run_missing-Ends args _ now place file args.operation))
    go (ok a) q (ok (some d)) h =
        rw (q, run, before, h)
          (rw (expected-eq args q) (run_present-Ends args _ now place file d args.operation h))
