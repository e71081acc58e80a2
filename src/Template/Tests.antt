-- ===== src/Template/Tests.antt =====
-- Runs of the journal script on one product, and instances of its theorems.
use kitdev_sandboxes.Base.{
  ◌*◌, length, arith, ◌≡◌, refl, String, true, false, none, some, [], ◌∷◌, str_eq,
}
use kitdev_sandboxes.Base.Dict.{lookup, insert}
use kitdev_sandboxes.Base.Errors.{ok, err}
use kitdev_sandboxes.Template.Record.{
  text, number, Document, is_text, alias_of, is_hash, is_version, is_template_id, is_build_id,
  text_of, decimal_digits, state_error, validate_record,
}
use kitdev_sandboxes.Template.Operations.{
  Operation, Arguments, JournalFile, Place, holding, load, write, expected, run, run_present,
  run_matched, run_publish, matches, same_product,
}
use kitdev_sandboxes.Base.Strings.{str_mem}
use kitdev_sandboxes.Template.Steps.{Ends, Post}
use kitdev_sandboxes.Template.Laws.{alias_for, before, run-Ends}
use kitdev_sandboxes.Template.Repeat.{run_again}

abbrev digest : String
digest = "0123456789abcdef0123456789abcdef0123456789abcdef0123456789abcdef"

abbrev arguments : Operation → Arguments
arguments op = record {
  operation = op;
  product = "coding";
  version = "v1";
  definition_sha256 = digest;
  prior_definition_sha256 = none;
  template_id = some "abcdefghij0123456789";
  build_id = some "01234567-89ab-cdef-0123-456789abcdef";
}

-- The record of this product in a state, with the times that the later moves add.
abbrev document : String → Document → Document
document state times =
    ("schema_version", number 1)
    ∷ ("product", text "coding")
    ∷ ("alias", text "kitdev-coding")
    ∷ ("version", text "v1")
    ∷ ("state", text state)
    ∷ ("definition_sha256", text digest)
    ∷ ("created_at", text "t0")
    ∷ ("template_id", text "abcdefghij0123456789")
    ∷ ("build_id", text "01234567-89ab-cdef-0123-456789abcdef")
    ∷ times

-- Sizes for the tests: sixty bytes for each field.
abbrev here : Place
here = record { is_trusted = true; size_of = λ d. 60 * length d }

abbrev elsewhere : Place
elsewhere = record { is_trusted = false; size_of = λ d. 60 * length d }

abbrev qualified : JournalFile
qualified = holding 400 (document "qualified_private" [])

abbrev published : JournalFile
published = holding 600 (document "published" (("published_at", text "t2") ∷ []))

publish-qualified :
    run (arguments Operation.publish) "t2" here qualified
    ≡ (ok (document "published" (("published_at", text "t2") ∷ [])), published)
unfolding run load expected run_present run_matched run_publish write validate_record matches
    same_product is_text str_eq str_mem lookup insert alias_of is_hash is_version is_template_id
    is_build_id text_of decimal_digits
publish-qualified = refl

-- A reserved version cannot be published.
publish_reserved :
    run (arguments Operation.publish) "t2" here (holding 400 (document "reserved" []))
    ≡ (err (state_error "publish_state_invalid"), holding 400 (document "reserved" []))
unfolding run load expected run_present run_matched run_publish write validate_record matches
    same_product is_text str_eq str_mem lookup insert alias_of is_hash is_version is_template_id
    is_build_id text_of decimal_digits
publish_reserved = refl

abbrev crowded : Place
crowded = record { is_trusted = true; size_of = λ d. 16400 }

-- A record that grows beyond the limit is published, and cannot be read afterwards.
publish-crowded :
    load (run (arguments Operation.publish) "t2" crowded qualified).1
    ≡ err (state_error "journal_metadata_invalid")
unfolding run load expected run_present run_matched run_publish write validate_record matches
    same_product is_text str_eq str_mem lookup insert alias_of is_hash is_version is_template_id
    is_build_id text_of decimal_digits
publish-crowded = refl

run-Ends_example :
    Ends here qualified
      (Post
        (arguments Operation.publish)
        (alias_for (arguments Operation.publish))
        Operation.publish
        (before qualified))
      (run (arguments Operation.publish) "t2" here qualified)
run-Ends_example = run-Ends (arguments Operation.publish) "t2" here qualified

run_again_example :
    run (arguments Operation.publish) "t9" elsewhere published
    ≡ (ok (document "published" (("published_at", text "t2") ∷ [])), published)
run_again_example =
    run_again (arguments Operation.publish) "t2" "t9" here elsewhere qualified published
      (document "published" (("published_at", text "t2") ∷ [])) (λ e. cc) (omega arith)
      publish-qualified
