-- ===== src/Journal/Temps.antt =====
-- The temporary file of `_new_temp`: its name, its place in the directory, and what it holds.
use kitdev_sandboxes.Base.{
  ℕ, zero, suc, ◌+◌, ◌≤◌, ◌≡◌, refl, sym, ap, subst, ◌∙◌, inl, inr, true, false, [], ◌∷◌, none,
  some, length, arith, Bool-cases, Option-cases,
}
use kitdev_sandboxes.Base.Errors.{ok, ok_inj}
use kitdev_sandboxes.Checks.Patterns.{codes_eq}
use kitdev_sandboxes.Journal.Texts.{Codes}
use kitdev_sandboxes.Journal.Policy.{accepts}
use kitdev_sandboxes.Journal.Record.{JournalRecord, IsRecord}
use kitdev_sandboxes.Journal.Json.{ordered}
use kitdev_sandboxes.Journal.Codec.{Bytes, as_dict, canonical, decode, encode, max_journal_bytes}
use kitdev_sandboxes.Journal.Directory.{Node, Directory, find_entry, create_file}
use kitdev_sandboxes.Journal.Files.{take_bytes}
use kitdev_sandboxes.Journal.Store.{Host, allocate_temp, new_temp, write_temp, temp_name}
use kitdev_sandboxes.Journal.Roundtrip.{encode-canonical, decode-encode}
use kitdev_sandboxes.Journal.Entries.{codes_eq_longer, temp-longer}
use kitdev_sandboxes.Journal.Chains.{look-eq-ok}
use kitdev_sandboxes.Journal.Holds.{read_bytes}

take_bytes_all : (n : ℕ) (bs : Bytes) → length bs ≤ n → take_bytes n bs ≡ bs
unfolding take_bytes
take_bytes_all n [] h = refl
take_bytes_all zero (b ∷ bs) h = absurd (omega arith)
take_bytes_all (suc n) (b ∷ bs) h = ap (λ x. b ∷ x) (take_bytes_all n bs (omega arith))

-- The file that the store writes a record to.
abbrev pub node_of : Host → JournalRecord → Node
node_of host r = record { metadata = host.created; content = canonical r }

-- `json.loads` finds the document of the record in its bytes.
abbrev pub Parses : Host → JournalRecord → Type 0
Parses host r = host.json_loads (canonical r) ≡ some (ordered (as_dict r))

pub read_bytes-node_of :
    (host : Host) (r : JournalRecord) {payload : Bytes}
    → encode r ≡ ok payload
    → IsRecord r
    → Parses host r
    → decode host.json_loads (read_bytes (node_of host r)) ≡ ok r
read_bytes-node_of host r {payload} e v p =
    let (same, small) = encode-canonical r e in
    let whole : read_bytes (node_of host r) ≡ canonical r =
      take_bytes_all (max_journal_bytes + 1) (canonical r) (ground arith) in
    rw whole (decode-encode host.json_loads r (canonical r) v (rw (← same) e) p)

pub temp-ne-name : (name token : Codes) → codes_eq name (temp_name name token) ≡ false
temp-ne-name name token = codes_eq_longer name _ (temp-longer name token)

allocate_temp-eq-ok :
    (token : ℕ → Codes) (name : Codes) (tries n : ℕ) (d : Directory) {temp : Codes}
    → allocate_temp token name tries n d ≡ ok temp
    → (k : ℕ) × (temp ≡ temp_name name (token k)) × (find_entry temp d.entries ≡ none)
unfolding allocate_temp
allocate_temp-eq-ok token name zero n d e = cc
allocate_temp-eq-ok token name (suc tries) n d {temp} e =
    elim (Option-cases (find_entry (temp_name name (token n)) d.entries)) [
      | inl free ↦
          let same : temp_name name (token n) ≡ temp = ok_inj (rw (free, allocate_temp) at e) in
          (n, sym same, subst (λ t. find_entry t d.entries ≡ none) same free)
      | inr (i, taken) ↦
          allocate_temp-eq-ok token name tries (suc n) d (rw (taken, allocate_temp) at e)
    ]

write_temp-eq-ok :
    (host : Host) (t : Codes) (payload : Bytes) (d : Directory) {temp : Codes} {d' : Directory}
    → write_temp host t payload d ≡ (ok temp, d')
    → (accepts host.policy host.created 1 false (1 ∷ []) ≡ true)
      × (t ≡ temp)
      × (create_file t (record { metadata = host.created; content = payload }) d ≡ d')
unfolding write_temp
write_temp-eq-ok host t payload d e =
    elim (Bool-cases (accepts host.policy host.created 1 false (1 ∷ []))) [
      | inl fine ↦ let e' = rw fine at e in (fine, ok_inj (ap (λ o. o.0) e'), ap (λ o. o.1) e')
      | inr bad ↦ cc (ap (λ o. o.0) (rw bad at e))
    ]

-- What `_new_temp` has done where it returns.
pub new_temp-eq-ok :
    (host : Host) (name : Codes) (r : JournalRecord) (d : Directory) {temp : Codes} {d' : Directory}
    → new_temp host name r d ≡ (ok temp, d')
    → (encode r ≡ ok (canonical r))
      × (accepts host.policy host.created 1 false (1 ∷ []) ≡ true)
      × ((k : ℕ) × (temp ≡ temp_name name (host.token k)))
      × (find_entry temp d.entries ≡ none)
      × (create_file temp (node_of host r) d ≡ d')
unfolding new_temp
new_temp-eq-ok host name r d {temp} {d'} e =
    let (payload, encoded, e1) = look-eq-ok (λ _. encode r) _ d e in
    let (t, allocated, e2) =
      look-eq-ok (allocate_temp host.token name 8 0) (λ t. write_temp host t payload) d e1 in
    let (fine, same, made) = write_temp-eq-ok host t payload d e2 in
    let (k, named, free) = allocate_temp-eq-ok host.token name 8 0 d allocated in
    let bytes = (encode-canonical r encoded).0 in
    (
      encoded ∙ ap (λ b. ok b) bytes,
      fine,
      (k, sym same ∙ named),
      subst (λ x. find_entry x d.entries ≡ none) same free,
      subst (λ x. create_file x (node_of host r) d ≡ d') same
          (subst (λ b. create_file t (record { metadata = host.created; content = b }) d ≡ d') bytes
            made),
    )
