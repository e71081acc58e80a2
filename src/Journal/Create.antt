-- ===== src/Journal/Create.antt =====
-- `_atomic_create`: what stands at the final name at every moment.
use kitdev_sandboxes.Base.{
  ℕ, suc, ◌≡◌, refl, ap, ◌∙◌, true, false, List, [], ◌∷◌, ◌==◌, String, some, arith,
}
use kitdev_sandboxes.Base.Strings.{codes}
use kitdev_sandboxes.Base.Errors.{ok}
use kitdev_sandboxes.Checks.Patterns.{codes_eq}
use kitdev_sandboxes.Journal.Texts.{Codes}
use kitdev_sandboxes.Journal.Policy.{JournalSecurityPolicy, Metadata, accepts}
use kitdev_sandboxes.Journal.Record.{JournalState, state_value, JournalRecord}
use kitdev_sandboxes.Journal.Codec.{decode}
use kitdev_sandboxes.Journal.Directory.{
  Directory, find_entry, link_count, remove_entry, fresh_inode, create_file, link, unlink, names_of,
}
use kitdev_sandboxes.Journal.Files.{
  candidates, directory_entries, is_temp, is_token, journal_eq, states_eq, validate_linked_create,
  one_candidate,
}
use kitdev_sandboxes.Journal.Store.{
  Host, load_at, settle, reading, recover_linked_create, temp_name,
}
use kitdev_sandboxes.Journal.Roundtrip.{codes_eq_refl}
use kitdev_sandboxes.Journal.Entries.{codes_eq_sym, link_count_above, link_count-remove_entry}
use kitdev_sandboxes.Journal.Listing.{candidates-none, candidates-one, is_temp-temp_name}
use kitdev_sandboxes.Journal.Holds.{Holds, Holds-reading, read_bytes, read_at_found, read_inode_ok}
use kitdev_sandboxes.Journal.Temps.{node_of, temp-ne-name}
use kitdev_sandboxes.Journal.Progress.{resources_eq_refl}

states_eq_refl : (ss : List JournalState) → states_eq ss ss ≡ true
unfolding states_eq
states_eq_refl [] = refl
states_eq_refl (s ∷ ss) = rw (codes_eq_refl (codes (state_value s))) (states_eq_refl ss)

pub journal_eq_refl : (r : JournalRecord) → journal_eq r r ≡ true
unfolding journal_eq
journal_eq_refl r =
    rw
      (
        codes_eq_refl r.install_id,
        codes_eq_refl r.plan_id,
        codes_eq_refl r.plan_hash,
        resources_eq_refl r.resources,
        states_eq_refl r.transitions,
      )
      (ground arith)

one_candidate_temp :
    (name c : Codes) (message : String)
    → is_temp name c ≡ true
    → one_candidate name message (c ∷ []) ≡ ok c
one_candidate_temp name c message h = rw (h, one_candidate) refl

accepts-double :
    (p : JournalSecurityPolicy) (m : Metadata)
    → accepts p m 2 false (1 ∷ 2 ∷ []) ≡ accepts p m 2 false (2 ∷ [])
unfolding accepts
accepts-double p m = refl

-- The directory after `os.link`: both names lead to the new file.
abbrev pub linked : Host → Codes → JournalRecord → Codes → Directory → Directory
linked host name r temp d = link name (fresh_inode d.entries) (create_file temp (node_of host r) d)

module _ (host : Host) (name : Codes) (r : JournalRecord) (token : Codes) (d : Directory) where
  temp-other : codes_eq (temp_name name token) name ≡ false
  temp-other = codes_eq_sym (temp_name name token) name ∙ temp-ne-name name token

  -- After the temporary name is gone the final name alone leads to the file.
  pub Holds-linked :
      accepts host.policy host.created 1 false (1 ∷ []) ≡ true
      → decode host.json_loads (read_bytes (node_of host r)) ≡ ok r
      → Holds host name r
          (unlink (temp_name name token) (linked host name r (temp_name name token) d))
  unfolding find_entry link_count remove_entry
  Holds-linked a w =
      let temp = temp_name name token in
      let i = fresh_inode d.entries in
      let self : (i == i) ≡ true = ground arith in
      let gone : link_count i (remove_entry temp d.entries) ≡ 0 =
        link_count-remove_entry i temp d.entries (link_count_above i d.entries (omega arith)) in
      let other : codes_eq temp name ≡ false = temp-other in
      record {
        inode = i;
        found = rw (other, codes_eq_refl temp) (rw (codes_eq_refl name) refl);
        single = rw (other, codes_eq_refl temp, self) (ap suc gone);
        trusted = rw self a;
        written = rw self w;
      }

  linked_count :
      link_count (fresh_inode d.entries) (linked host name r (temp_name name token) d).entries ≡ 2
  unfolding link_count
  linked_count =
      let i = fresh_inode d.entries in
      let self : (i == i) ≡ true = ground arith in
      rw self (ap (λ n. suc (suc n)) (link_count_above i d.entries (omega arith)))

  -- Either name of the linked file is read.
  linked-reading :
      (ns : List ℕ) (n : Codes)
      → find_entry n (linked host name r (temp_name name token) d).entries
        ≡ some (fresh_inode d.entries)
      → accepts host.policy host.created 2 false ns ≡ true
      → decode host.json_loads (read_bytes (node_of host r)) ≡ ok r
      → reading host ns n (linked host name r (temp_name name token) d)
        ≡ ok (record { found = r; inode = fresh_inode d.entries; links = 2 })
  linked-reading ns n here a w =
      let after = linked host name r (temp_name name token) d in
      let i = fresh_inode d.entries in
      let self : (i == i) ≡ true = ground arith in
      read_at_found host.policy host.json_loads ns after n here
      ∙ read_inode_ok host.policy host.json_loads ns after i r 2 linked_count (rw self a)
          (rw self w)

  linked-name :
      find_entry name (linked host name r (temp_name name token) d).entries
      ≡ some (fresh_inode d.entries)
  unfolding find_entry
  linked-name = rw (codes_eq_refl name) refl

  linked-temp :
      find_entry (temp_name name token) (linked host name r (temp_name name token) d).entries
      ≡ some (fresh_inode d.entries)
  unfolding find_entry
  linked-temp = rw (temp-other, codes_eq_refl (temp_name name token)) refl

  module _ (ns : List Codes) (token_ok : is_token token ≡ true)
      (single : accepts host.policy host.created 1 false (1 ∷ []) ≡ true)
      (double : accepts host.policy host.created 2 false (2 ∷ []) ≡ true)
      (written : decode host.json_loads (read_bytes (node_of host r)) ≡ ok r)
      (clean : candidates name d ≡ ok [])
      (listed : directory_entries (linked host name r (temp_name name token) d) ≡ ok ns) where
    linked-candidates :
        candidates name (linked host name r (temp_name name token) d)
        ≡ ok (temp_name name token ∷ [])
    linked-candidates =
        candidates-one name token (linked host name r (temp_name name token) d) (names_of d) refl
          (candidates-none name d clean) listed

    -- The residue of a cut off creation is recognized.
    linked-validated :
        validate_linked_create host.policy host.json_loads name
          (record { found = r; inode = fresh_inode d.entries; links = 2 })
          (linked host name r (temp_name name token) d)
        ≡ ok (temp_name name token)
    unfolding validate_linked_create
    linked-validated =
        let self : (fresh_inode d.entries == fresh_inode d.entries) ≡ true = ground arith in
        let one =
          one_candidate_temp name (temp_name name token) "journal has an unexplained hard link"
            (is_temp-temp_name name token ∙ token_ok) in
        rw linked-candidates (
          rw one (
            rw (linked-reading (2 ∷ []) (temp_name name token) linked-temp double written)
              (rw (journal_eq_refl r, self) refl)))

    pub load_at-linked :
        load_at host true name (linked host name r (temp_name name token) d)
        ≡ (ok r, unlink (temp_name name token) (linked host name r (temp_name name token) d))
    unfolding load_at settle recover_linked_create
    load_at-linked =
        rw
          (linked-reading (1 ∷ 2 ∷ []) name linked-name
            (accepts-double host.policy host.created ∙ double) written)
          (rw linked-validated (
            rw
              (Holds-reading host name (1 ∷ []) r _ (Holds-linked single written)
                (Holds-linked single written).trusted)
              refl))
