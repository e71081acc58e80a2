-- ===== src/Template/Steps.antt =====
-- How a run of the script leaves the journal: it raises and the file is as it was, or it returns
-- the record that the file now holds.
use kitdev_sandboxes.Base.{
  ℕ, ◌<◌, ltb, ◌≡◌, refl, ◌⊎◌, inl, inr, String, str_eq, str_eq_refl, true, false, not, ◌||◌,
  Option, none, some, arith, Bool-cases,
}
use kitdev_sandboxes.Base.Dict.{lookup, insert, lookup-insert}
use kitdev_sandboxes.Base.Errors.{ok, err}
use kitdev_sandboxes.Template.Record.{
  is_template_id, is_build_id, Field, text, Document, Checked, is_text, validate_record,
}
use kitdev_sandboxes.Template.Operations.{
  codes_or_empty, Operation, Arguments, Place, JournalFile, holding, max_journal_size, load,
  Outcome, write, same_product, matches, same_argument, text_or_null, in_state, run_candidate,
}

pub validate_record-eq : (d : Document) {v : Document} → validate_record d ≡ ok v → v ≡ d
unfolding validate_record
validate_record-eq d e = ground arith

-- The file that a run leaves is read as the record, unless the record has been written to it and is
-- too large to be read.
abbrev pub Reads : Place → Document → JournalFile → Type 0
Reads place d file =
    (load file ≡ ok (some d))
    ⊎ ((max_journal_size < place.size_of d) × (file ≡ holding (place.size_of d) d))

-- How a run ends on a file: an exception leaves the file as it was; a returned record is what the
-- file then holds, and it has the property.
abbrev pub Ends : Place → JournalFile → (Document → Type 0) → Outcome → Type 0
Ends place file post (err e, file') = file' ≡ file
Ends place file post (ok d, file') = Reads place d file' × post d

load-holding :
    (size : ℕ) (d : Document) {v : Document}
    → ltb max_journal_size size ≡ false
    → validate_record d ≡ ok v
    → load (holding size d) ≡ ok (some d)
unfolding load
load-holding size d small e = rw (small, e, load) (ground (arith, validate_record-eq d e))

written-Reads :
    (place : Place) (d : Document) {v : Document}
    → validate_record d ≡ ok v
    → Reads place d (holding (place.size_of d) d)
written-Reads place d e = elim (Bool-cases (ltb max_journal_size (place.size_of d))) [
  | inl large ↦ inr (ground arith, refl)
  | inr small ↦ inl (load-holding (place.size_of d) d small e)
]

pub write-Ends :
    (place : Place) (file : JournalFile) (post : Document → Type 0) (d : Document)
    → post d
    → Ends place file post (write place file d)
unfolding write
write-Ends place file post d p = go (validate_record d) refl
  where
    go : (r : Checked Document) → validate_record d ≡ r → Ends place file post (write place file d)
    go (err e) q = rw (q, write) refl
    go (ok v) q = elim (Bool-cases place.is_trusted) [
      | inl sound ↦ rw (q, write, sound) (written-Reads place d q, p)
      | inr unsound ↦ rw (q, write, unsound) refl
    ]

-- What an operation has brought about in the record that it returns.
abbrev pub Done : Operation → Arguments → Document → Type 0
Done Operation.candidate args d =
    (in_state d "reserved" ≡ false)
    × (same_argument (lookup "template_id" d) args.template_id ≡ true)
    × (same_argument (lookup "build_id" d) args.build_id ≡ true)
Done Operation.publish args d = in_state d "published" ≡ true
Done Operation.rollback args d = in_state d "rolled_back" ≡ true
Done Operation.reserve args d = Unit
Done Operation.show args d = Unit
Done Operation.migrate_definition args d = Unit

-- The moves of a record's state that an operation may make.
abbrev pub Moved : Operation → Document → Document → Type 0
Moved Operation.candidate d d' =
    (in_state d "reserved" ≡ true) × (in_state d' "qualified_private" ≡ true)
Moved Operation.publish d d' =
    (in_state d "qualified_private" ≡ true) × (in_state d' "published" ≡ true)
Moved Operation.rollback d d' =
    ((in_state d "qualified_private" || in_state d "published") ≡ true)
    × (in_state d' "rolled_back" ≡ true)
Moved Operation.migrate_definition d d' =
    (in_state d "qualified_private" ≡ true) × (in_state d' "qualified_private" ≡ true)
Moved Operation.reserve d d' = ⊥
Moved Operation.show d d' = ⊥

-- From nothing only a reservation comes; a record stays as it is or makes one of the moves.
abbrev pub Advances : Operation → Option Document → Document → Type 0
Advances op none d' = (op ≡ Operation.reserve) × (in_state d' "reserved" ≡ true)
Advances op (some d) d' = (d' ≡ d) ⊎ Moved op d d'

abbrev pub Post : Arguments → String → Operation → Option Document → Document → Type 0
Post args alias op before d = (matches d args alias ≡ true) × Done op args d × Advances op before d

pub matches-insert :
    (k : String) (v : Field) (d : Document) (args : Arguments) (alias : String)
    → str_eq "product" k ≡ false
    → str_eq "alias" k ≡ false
    → str_eq "version" k ≡ false
    → str_eq "definition_sha256" k ≡ false
    → matches (insert k v d) args alias ≡ matches d args alias
unfolding matches same_product
matches-insert k v d args alias a b c e = simp (lookup-insert, a, b, c, e)

same_argument_self : (s : Option String) → same_argument (some (text_or_null s)) s ≡ true
unfolding same_argument
same_argument_self none = refl
same_argument_self (some s) = str_eq_refl s

module _ (args : Arguments) (alias : String) (d : Document) where
  -- The record that a candidate run writes.
  qualified : Document
  qualified = insert "state" (text "qualified_private") (
      insert "build_id" (text_or_null args.build_id)
        (insert "template_id" (text_or_null args.template_id) d))

  qualified-matches : matches d args alias ≡ true → matches qualified args alias ≡ true
  unfolding qualified str_eq
  qualified-matches m =
      rw
        (
          matches-insert "state" _ _ args alias refl refl refl refl,
          matches-insert "build_id" _ _ args alias refl refl refl refl,
          matches-insert "template_id" _ d args alias refl refl refl refl,
        )
        m

  qualified-Done : Done Operation.candidate args qualified
  unfolding qualified str_eq is_text
  qualified-Done = (
    simp lookup-insert,
    simp lookup-insert (same_argument_self args.template_id),
    simp lookup-insert (same_argument_self args.build_id),
  )

  qualified-state : in_state qualified "qualified_private" ≡ true
  unfolding qualified str_eq is_text
  qualified-state = simp lookup-insert

module _ (args : Arguments) (alias now : String) (place : Place) (file : JournalFile)
    (d : Document) where
  pub run_candidate-Ends :
      load file ≡ ok (some d)
      → matches d args alias ≡ true
      → Ends place file
          (Post args alias Operation.candidate (some d))
          (run_candidate args place file d)
  unfolding run_candidate qualified
  run_candidate-Ends l m = elim (Bool-cases (in_state d "reserved")) [
    | inl r ↦
        elim (Bool-cases (
          not (is_template_id (codes_or_empty args.template_id))
          || not (is_build_id (codes_or_empty args.build_id)))) [
            | inl bad ↦ rw (r, bad) refl
            | inr good ↦
                rw (r, good)
                  (write-Ends place file _ (qualified args alias d) (
                    qualified-matches args alias d m,
                    qualified-Done args alias d,
                    inr (r, qualified-state args alias d),
                  ))
          ]
    | inr r ↦
        elim (Bool-cases (
          not (same_argument (lookup "template_id" d) args.template_id)
          || not (same_argument (lookup "build_id" d) args.build_id))) [
            | inl bad ↦ rw (r, bad) refl
            | inr good ↦ rw (r, good) (inl l, (m, (r, ground arith, ground arith), inl refl))
          ]
  ]
