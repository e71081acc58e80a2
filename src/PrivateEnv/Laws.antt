-- ===== src/PrivateEnv/Laws.antt =====
-- A document that is written is read again.
use kitdev_sandboxes.Base.{
  ◌≡◌, refl, ap, subst, inl, inr, String, Bool, true, false, List, [], ◌∷◌, some, any, length, leb,
  ltb,
}
use kitdev_sandboxes.Base.Errors.{ok, raise_if}
use kitdev_sandboxes.Base.Dict.{lookup, contains}
use kitdev_sandboxes.PrivateEnv.Document.{Values, Networks, all_keys, validate, payload}
use kitdev_sandboxes.PrivateEnv.Operations.{
  EnvHost, parse_document, read_file, read_document, require_parent, with_parent, prepare,
  publish_env, write_document, written, max_env_bytes,
}
use kitdev_sandboxes.PrivateEnv.Lines.{restricted, Writable, Absent, read_lines-payload}
use kitdev_sandboxes.PrivateEnv.Keys.{all_keys-AreKeys}
use kitdev_sandboxes.PrivateEnv.Written.{result_cases, publish_env-eq-ok}

Absent-nil : (ks : List String) → Absent ks []
unfolding contains lookup
Absent-nil [] = tt
Absent-nil (k ∷ ks) = (refl, Absent-nil ks)

-- Values that are written whole: each on a line of its own, in the order of the keys.
pub record IsDocument (d : Values) : Type 0 where
  pub ordered : restricted all_keys d ≡ d
  pub writable : Writable all_keys d
  pub small : ltb max_env_bytes (length (payload all_keys d)) ≡ false

parse_document-payload :
    (networks : Networks) (d : Values)
    → IsDocument d
    → validate networks d ≡ ok tt
    → any (λ c. leb 0x80 c) (payload all_keys d) ≡ false
    → parse_document networks (payload all_keys d) ≡ ok d
unfolding parse_document
parse_document-payload networks d doc valid ascii =
    rw
      (
        doc.small,
        ascii,
        read_lines-payload all_keys d [] all_keys-AreKeys doc.writable (Absent-nil all_keys),
        doc.ordered,
        valid,
      )
      refl

raise_if_clear : (b : Bool) (e : String) {u : Unit {0}} → raise_if b e ≡ ok u → b ≡ false
raise_if_clear true e h = cc
raise_if_clear false e h = refl

prepare-ok :
    (d : Values) (h : EnvHost) {u : Unit {0}}
    → prepare d h ≡ ok u
    → ((v : Unit {0}) × (require_parent (with_parent h) ≡ ok v))
      × (any (λ c. leb 0x80 c) (payload all_keys d) ≡ false)
unfolding prepare
prepare-ok d h e = elim (result_cases (require_parent (with_parent h))) [
  | inl (x, bad) ↦ cc (rw (bad, prepare) at e)
  | inr (v, good) ↦ (
    (v, good),
    raise_if_clear (any (λ c. leb 0x80 c) (payload all_keys d)) "UnicodeEncodeError"
        (rw (good, prepare) at e),
  )
]

read_document-written :
    (networks : Networks) (d : Values) (h : EnvHost)
    → IsDocument d
    → validate networks d ≡ ok tt
    → prepare d h ≡ ok tt
    → read_document networks (record (with_parent h) { file = written d }) ≡ ok (some d)
unfolding read_document read_file
read_document-written networks d h doc valid ready =
    let facts = prepare-ok d h ready in
    rw (facts.0.1) (rw (parse_document-payload networks d doc valid facts.1) refl)

-- `write_document` that succeeds on values in the order of the keys, each of them on one line and all
-- of them within the limit, leaves a host on which `read_document` gives these values.
pub read_document-write_document :
    (networks : Networks) (d : Values) (replace : Bool) (h h' : EnvHost)
    → IsDocument d
    → write_document networks d replace h ≡ (ok tt, h')
    → read_document networks h' ≡ ok (some d)
unfolding write_document read_document read_file
read_document-write_document networks d replace h h' doc e =
    elim (result_cases (validate networks d)) [
      | inl (x, bad) ↦ cc (rw (bad, write_document) at e)
      | inr (_, good) ↦ elim (result_cases (prepare d h)) [
        | inl (x, bad) ↦ cc (rw (good, bad, write_document) at e)
        | inr (_, ready) ↦ elim (result_cases (publish_env replace (written d) h.file)) [
          | inl (x, taken) ↦ cc (rw (good, ready, taken, write_document) at e)
          | inr (f, published) ↦
              subst (λ x. read_document networks x ≡ ok (some d))
                (ap (λ x. x.1) (rw (good, ready, published, write_document) at e))
                (subst
                  (λ x. read_document networks (record (with_parent h) { file = x }) ≡ ok (some d))
                  (publish_env-eq-ok replace (written d) h.file published)
                  (read_document-written networks d h doc good ready))
        ]
      ]
    ]
