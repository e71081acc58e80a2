-- ===== src/Template/Repeat.antt =====
-- A run that is repeated on the file that it left, as after a lost reply, answers the same.
use kitdev_sandboxes.Base.{
  ◌≤◌, inl, inr, ◌≢◌, ◌≡◌, refl, String, str_eq, str_eq_iff, true, false, Option, some, arith,
  subst,
}
use kitdev_sandboxes.Base.Dict.{lookup}
use kitdev_sandboxes.Base.Errors.{ok, err}
use kitdev_sandboxes.Template.Record.{Field, text, Document, Checked, StateError, is_text}
use kitdev_sandboxes.Template.Operations.{
  Operation, Arguments, Place, JournalFile, load, max_journal_size, expected, matches,
  run_candidate, run_publish, run_rollback, run_matched, run_present, run,
}
use kitdev_sandboxes.Template.Steps.{Ends, Reads, Done, Post}
use kitdev_sandboxes.Template.Laws.{alias_for, before, expected-eq, run-Ends}

is_text-apart :
    (x : Option Field) (s t : String)
    → str_eq s t ≡ false
    → is_text x s ≡ true
    → is_text x t ≡ false
unfolding is_text
is_text-apart (some (text u)) s t n e =
    ground (arith, str_eq_iff u s, str_eq_iff u t, str_eq_iff s t)
is_text-apart _ s t n e = refl

module _ (args : Arguments) (now : String) (place : Place) (file : JournalFile) (d : Document) where
  run_matched-Done :
      (op : Operation)
      → op ≢ Operation.migrate_definition
      → Done op args d
      → run_matched op args now place file d ≡ (ok d, file)
  unfolding run_matched run_candidate run_publish run_rollback str_eq
  run_matched-Done Operation.candidate n (r, t, b) = rw (r, t, b) refl
  run_matched-Done Operation.publish n p =
      rw (p, is_text-apart (lookup "state" d) "published" "qualified_private" refl p) refl
  run_matched-Done Operation.rollback n r = ground arith
  run_matched-Done Operation.reserve n u = refl
  run_matched-Done Operation.show n u = refl
  run_matched-Done Operation.migrate_definition n u = absurd (n refl)

  run_present-Done :
      (op : Operation) (alias : String)
      → op ≢ Operation.migrate_definition
      → matches d args alias ≡ true
      → Done op args d
      → run_present op args alias now place file d ≡ (ok d, file)
  unfolding run_present
  run_present-Done Operation.candidate a n m h = rw m (run_matched-Done Operation.candidate n h)
  run_present-Done Operation.publish a n m h = rw m (run_matched-Done Operation.publish n h)
  run_present-Done Operation.rollback a n m h = rw m (run_matched-Done Operation.rollback n h)
  run_present-Done Operation.reserve a n m h = rw m (run_matched-Done Operation.reserve n h)
  run_present-Done Operation.show a n m h = rw m (run_matched-Done Operation.show n h)
  run_present-Done Operation.migrate_definition a n m h = absurd (n refl)

run-err :
    (args : Arguments) (now : String) (place : Place) (file : JournalFile) {x : StateError}
    → expected args ≡ err x
    → run args now place file ≡ (err x, file)
unfolding run
run-err args now place file q = rw (q, run) refl

run-expected :
    (args : Arguments) (now : String) (place : Place) (file : JournalFile) {d : Document}
    {file' : JournalFile}
    → run args now place file ≡ (ok d, file')
    → expected args ≡ ok (alias_for args)
run-expected args now place file e = go (expected args) refl
  where
    go : (r : Checked String) → expected args ≡ r → expected args ≡ ok (alias_for args)
    go (err x) q = let f = run-err args now place file q in cc
    go (ok a) q = rw (q, expected-eq args q) refl

small-Reads :
    (place : Place) (d : Document) (file : JournalFile)
    → place.size_of d ≤ max_journal_size
    → Reads place d file
    → load file ≡ ok (some d)
small-Reads place d file small (inl l) = l
small-Reads place d file small (inr (large, _)) = absurd (omega arith)

-- A run of any operation but the migration that returns a record whose text has at most 16384 bytes
-- returns the same record, and leaves the file as it is, when it is run again on the file that it
-- left: at any later time, and whether or not the directory still passes its check.
pub run_again :
    (args : Arguments) (now later : String) (place later_place : Place) (file file' : JournalFile)
    (d : Document)
    → args.operation ≢ Operation.migrate_definition
    → place.size_of d ≤ max_journal_size
    → run args now place file ≡ (ok d, file')
    → run args later later_place file' ≡ (ok d, file')
unfolding run
run_again args now later place later_place file file' d n small e =
    let (reads, (m, h, _)) =
      subst (Ends place file (Post args (alias_for args) args.operation (before file))) e
        (run-Ends args now place file) in
    let l = small-Reads place d file' small reads in
    rw (run-expected args now place file e, run, l)
      (run_present-Done args later later_place file' d args.operation (alias_for args) n m h)
