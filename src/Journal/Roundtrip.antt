-- ===== src/Journal/Roundtrip.antt =====
-- What is written is read again, and only what is written is read.
use kitdev_sandboxes.Base.{
  ◌≡◌, refl, sym, ap, subst, ◌∙◌, inl, inr, true, false, not, ◌||◌, List, [], ◌∷◌, ltb, ◌==◌,
  Option, none, some, length, length-append, arith, Bool-cases, ◌↔◌, All,
}
use kitdev_sandboxes.Base.Errors.{ok, err, ◌>>=◌, >>=-eq-ok, >>=-ok-rest, raise_if-eq-ok, ok_inj}
use kitdev_sandboxes.Base.Strings.{codes}
use kitdev_sandboxes.Checks.Patterns.{codes_eq}
use kitdev_sandboxes.Journal.Texts.{Codes, Checked, invalid}
use kitdev_sandboxes.Journal.Record.{
  JournalState, state_value, ResourceRecord, resource_record, JournalRecord, journal_record,
  state_of, IsRecord,
}
use kitdev_sandboxes.Journal.Json.{
  Json, text, integer, array, object, constant, Items, end, item, Members, empty, member,
  get_member, has_keys, ordered, ordered_items, dumps,
}
use kitdev_sandboxes.Journal.Codec.{
  Bytes, resource_as_dict, resource_items, transition_items, as_dict, canonical, encode,
  decode_resource, resource_fields, listed_resources, journal_fields, decode_resources, find_state,
  decode_state, decode_states, decode_members, decode_object, decode_payload, as_corrupt, decode,
  state_json, required, as_items, journal_keys, is_state_text, max_journal_bytes,
}

pub codes_eq_iff : (xs ys : Codes) → (codes_eq xs ys ≡ true) ↔ (xs ≡ ys)
unfolding codes_eq
codes_eq_iff [] [] = ground arith
codes_eq_iff [] (y ∷ ys) = ground arith
codes_eq_iff (x ∷ xs) [] = ground arith
codes_eq_iff (x ∷ xs) (y ∷ ys) = ground (arith, codes_eq_iff xs ys)

pub codes_eq_refl : (xs : Codes) → codes_eq xs xs ≡ true
codes_eq_refl xs = (codes_eq_iff xs xs).1 refl

decode_resource-resource_as_dict :
    (r : ResourceRecord) → decode_resource (ordered (resource_as_dict r)) ≡ resource_record r
unfolding decode_resource ordered resource_as_dict
decode_resource-resource_as_dict r = refl

decode_resources-resource_items :
    (rs : List ResourceRecord)
    → All (λ x. resource_record x ≡ ok x) rs
    → decode_resources (ordered_items (resource_items rs)) ≡ ok rs
unfolding decode_resources ordered resource_items
decode_resources-resource_items [] h = refl
decode_resources-resource_items (r ∷ rs) h =
    rw (decode_resource-resource_as_dict r, h.0, decode_resources-resource_items rs h.1) refl

find_state-state_value : (s : JournalState) → decode_state (state_json s) ≡ ok s
unfolding decode_state find_state state_value
find_state-state_value JournalState.planned = refl
find_state-state_value JournalState.applying = refl
find_state-state_value JournalState.applied = refl
find_state-state_value JournalState.validated = refl
find_state-state_value JournalState.rolling_back = refl
find_state-state_value JournalState.rolled_back = refl
find_state-state_value JournalState.failed = refl

decode_states-transition_items :
    (ss : List JournalState) → decode_states (ordered_items (transition_items ss)) ≡ ok ss
unfolding decode_states ordered transition_items
decode_states-transition_items [] = refl
decode_states-transition_items (s ∷ ss) =
    rw (find_state-state_value s, decode_states-transition_items ss) refl

-- The members of a record's document, in the order of their keys.
document : JournalRecord → Members
document r =
    let plain = member in
    plain (codes "install_id") (text r.install_id) (
      plain (codes "plan_hash") (text r.plan_hash) (
        plain (codes "plan_id") (text r.plan_id) (
          plain (codes "resources") (array (ordered_items (resource_items r.resources))) (
            plain (codes "schema_version") (integer r.schema_version) (
              plain (codes "state") (state_json (state_of r)) (
                plain (codes "transitions") (array (ordered_items (transition_items r.transitions)))
                  empty))))))

ordered-as_dict : (r : JournalRecord) → ordered (as_dict r) ≡ object (document r)
unfolding document ordered as_dict
ordered-as_dict r = refl

decode_members-document : (r : JournalRecord) → IsRecord r → decode_members (document r) ≡ ok r
unfolding decode_members document get_member has_keys
decode_members-document r h =
    rw
      (
        decode_resources-resource_items r.resources h.1,
        decode_states-transition_items r.transitions,
      )
      h.0

required-document :
    (r : JournalRecord) → required "state" (document r) ≡ ok (state_json (state_of r))
unfolding document get_member
required-document r = refl

decode_object-document :
    (r : JournalRecord) (raw : Bytes)
    → IsRecord r
    → encode r ≡ ok raw
    → decode_object raw (document r) ≡ ok r
unfolding decode_object
decode_object-document r raw h e =
    rw
      (
        decode_members-document r h,
        required-document r,
        codes_eq_refl (codes (state_value (state_of r))),
      )
      (rw (e, ◌>>=◌) (rw (codes_eq_refl raw) refl))

canonical-ne-nil : (r : JournalRecord) → (length (canonical r) == 0) ≡ false
unfolding canonical
canonical-ne-nil r = ground (arith, length-append (dumps (as_dict r)) (codes "\n"))

pub encode-canonical :
    (r : JournalRecord) {raw : Bytes}
    → encode r ≡ ok raw
    → (raw ≡ canonical r) × (ltb max_journal_bytes (length (canonical r)) ≡ false)
unfolding encode
encode-canonical r e = ground arith

-- The record that `_encode` writes is the one that `_decode` reads: a record that the constructors
-- accept and that is small enough to be written is returned from its bytes, if `json.loads` finds
-- the written document in them.
pub decode-encode :
    (json_loads : Bytes → Option Json) (r : JournalRecord) (raw : Bytes)
    → IsRecord r
    → encode r ≡ ok raw
    → json_loads raw ≡ some (ordered (as_dict r))
    → decode json_loads raw ≡ ok r
unfolding decode decode_payload as_corrupt
decode-encode json_loads r raw h e l =
    let (p, small) = encode-canonical r e in
    rw (l, ordered-as_dict r, decode_object-document r raw h e)
      (rw p (rw (canonical-ne-nil r, small) refl))

pub journal_record-eq : (r : JournalRecord) {q : JournalRecord} → journal_record r ≡ ok q → r ≡ q
unfolding journal_record
journal_record-eq r e = ground arith

resource_record-eq : (x : ResourceRecord) {r : ResourceRecord} → resource_record x ≡ ok r → x ≡ r
unfolding resource_record
resource_record-eq x e = ground arith

resource_record_again :
    (x : ResourceRecord) {r : ResourceRecord} → resource_record x ≡ ok r → resource_record r ≡ ok r
resource_record_again x {r} e = subst (λ y. resource_record y ≡ ok r) (resource_record-eq x e) e

decode_resource-ok :
    (x : Json) {r : ResourceRecord} → decode_resource x ≡ ok r → resource_record r ≡ ok r
unfolding decode_resource
decode_resource-ok (object d) e =
    >>=-ok-rest (resource_fields d) resource_record (λ x. resource_record_again x) e
decode_resource-ok (text s) e = cc
decode_resource-ok (constant s) e = cc
decode_resource-ok (integer n) e = cc
decode_resource-ok (array xs) e = cc

decode_resources-All :
    (xs : Items) {rs : List ResourceRecord}
    → decode_resources xs ≡ ok rs
    → All (λ x. resource_record x ≡ ok x) rs
unfolding decode_resources
decode_resources-All end e = subst (All _) (ok_inj e) tt
decode_resources-All (item x xs) e =
    let (r, first, e') = >>=-eq-ok (decode_resource x) _ e in
    let (rs, rest, e'') = >>=-eq-ok (decode_resources xs) _ e' in
    subst (All _) (ok_inj e'') (decode_resource-ok x first, decode_resources-All xs rest)

listed_resources-All :
    (d : Members) {rs : List ResourceRecord}
    → listed_resources d ≡ ok rs
    → All (λ x. resource_record x ≡ ok x) rs
unfolding listed_resources
listed_resources-All d {rs} e =
    let (raw, _, e') = >>=-eq-ok (required "resources" d) _ e in
    let (xs, _, e'') = >>=-eq-ok (as_items "resources is not a list" raw) decode_resources e' in
    decode_resources-All xs e''

journal_fields-resources :
    (rs : List ResourceRecord) (d : Members) {r : JournalRecord}
    → journal_fields rs d ≡ ok r
    → r.resources ≡ rs
unfolding journal_fields
journal_fields-resources rs d e = ground arith

decode_members-IsRecord : (d : Members) {r : JournalRecord} → decode_members d ≡ ok r → IsRecord r
unfolding decode_members
decode_members-IsRecord d {r} e =
    let (_, e1) =
      raise_if-eq-ok (not (has_keys journal_keys d)) (invalid "invalid top-level shape") _ e in
    let (rs, listed, e2) = >>=-eq-ok (listed_resources d) _ e1 in
    let (x, fields, e3) = >>=-eq-ok (journal_fields rs d) journal_record e2 in
    let same = journal_record-eq x e3 in
    (
      subst (λ y. journal_record y ≡ ok r) same e3,
      subst (All _) (sym (journal_fields-resources rs d fields) ∙ ap (λ y. y.resources) same)
          (listed_resources-All d listed),
    )

decode_object-ok :
    (raw : Bytes) (d : Members) {r : JournalRecord}
    → decode_object raw d ≡ ok r
    → IsRecord r × (encode r ≡ ok raw)
unfolding decode_object
decode_object-ok raw d {r} e =
    let wrong = invalid "journal is not canonical or state is inconsistent" in
    let (x, members, e1) = >>=-eq-ok (decode_members d) _ e in
    let (state, _, e2) = >>=-eq-ok (required "state" d) _ e1 in
    let (_, e3) = raise_if-eq-ok (not (is_state_text state (state_of x))) wrong _ e2 in
    let (bytes, encoded, e4) = >>=-eq-ok (encode x) _ e3 in
    let (same, e5) = raise_if-eq-ok (not (codes_eq bytes raw)) wrong _ e4 in
    subst (λ y. IsRecord y × (encode y ≡ ok raw)) (ok_inj e5)
      (
        decode_members-IsRecord d members,
        subst (λ y. encode x ≡ ok y) ((codes_eq_iff bytes raw).0 (ground arith)) encoded,
      )

as_corrupt-ok : (m : Checked JournalRecord) {r : JournalRecord} → as_corrupt m ≡ ok r → m ≡ ok r
unfolding as_corrupt
as_corrupt-ok (ok a) e = e
as_corrupt-ok (err x) e = cc

decode_payload-ok :
    (raw : Bytes) (payload : Option Json) {r : JournalRecord}
    → as_corrupt (decode_payload raw payload) ≡ ok r
    → IsRecord r × (encode r ≡ ok raw)
unfolding decode_payload as_corrupt
decode_payload-ok raw none e = cc
decode_payload-ok raw (some (text s)) e = cc
decode_payload-ok raw (some (constant s)) e = cc
decode_payload-ok raw (some (integer n)) e = cc
decode_payload-ok raw (some (array xs)) e = cc
decode_payload-ok raw (some (object d)) e = decode_object-ok raw d (as_corrupt-ok _ e)

-- What is read is what would be written: a record that `_decode` returns passes the checks of the
-- constructors, and its encoding is the bytes that were read.
pub encode-decode :
    (json_loads : Bytes → Option Json) (raw : Bytes) (r : JournalRecord)
    → decode json_loads raw ≡ ok r
    → IsRecord r × (encode r ≡ ok raw)
unfolding decode
encode-decode json_loads raw r e =
    elim (Bool-cases (length raw == 0 || ltb max_journal_bytes (length raw))) [
      | inl bad ↦ cc (rw bad at e)
      | inr good ↦ decode_payload-ok raw (json_loads raw) (rw good at e)
    ]
