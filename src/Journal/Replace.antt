-- ===== src/Journal/Replace.antt =====
-- `_atomic_replace` and `_transition_at`: what stands at the final name at every moment.
use kitdev_sandboxes.Base.{suc, ◌≡◌, refl, ap, subst, true, false, [], ◌∷◌, ◌==◌, arith}
use kitdev_sandboxes.Base.Errors.{ok}
use kitdev_sandboxes.Checks.Patterns.{codes_eq}
use kitdev_sandboxes.Journal.Texts.{Codes}
use kitdev_sandboxes.Journal.Policy.{accepts}
use kitdev_sandboxes.Journal.Record.{JournalRecord, IsRecord}
use kitdev_sandboxes.Journal.Codec.{decode}
use kitdev_sandboxes.Journal.Directory.{
  Node, Directory, find_entry, link_count, remove_entry, fresh_inode, create_file, rename, change,
}
use kitdev_sandboxes.Journal.Store.{Host, inode_of, new_temp, atomic_replace}
use kitdev_sandboxes.Journal.Roundtrip.{codes_eq_refl}
use kitdev_sandboxes.Journal.Entries.{
  find_entry-lt-fresh_inode, link_count_above, link_count-remove_entry,
}
use kitdev_sandboxes.Journal.Holds.{Holds, read_bytes}
use kitdev_sandboxes.Journal.Chains.{after-eq-ok}
use kitdev_sandboxes.Journal.Temps.{node_of, Parses, read_bytes-node_of, new_temp-eq-ok}

pub inode_of-create_file :
    (temp : Codes) (node : Node) (d : Directory)
    → inode_of temp (create_file temp node d) ≡ fresh_inode d.entries
unfolding find_entry
inode_of-create_file temp node d = rw (codes_eq_refl temp, inode_of) refl

module _ (host : Host) (name : Codes) where
  -- A new file at another name leaves the journal where it is.
  pub Holds-create_file :
      (r : JournalRecord) (temp : Codes) (node : Node) (d : Directory)
      → codes_eq name temp ≡ false
      → Holds host name r d
      → Holds host name r (create_file temp node d)
  unfolding find_entry link_count
  Holds-create_file r temp node d n h =
      let below = find_entry-lt-fresh_inode name d.entries h.found in
      let other : (h.inode == fresh_inode d.entries) ≡ false = ground arith in
      record {
        inode = h.inode;
        found = rw n h.found;
        single = rw other h.single;
        trusted = rw other h.trusted;
        written = rw other h.written;
      }

  -- After the replacement the final name leads to the new file alone.
  pub Holds-rename :
      (r : JournalRecord) (temp : Codes) (node : Node) (d : Directory)
      → accepts host.policy node.metadata 1 false (1 ∷ []) ≡ true
      → decode host.json_loads (read_bytes node) ≡ ok r
      → Holds host name r (rename temp name (fresh_inode d.entries) (create_file temp node d))
  unfolding find_entry link_count remove_entry
  Holds-rename r temp node d a w =
      let i = fresh_inode d.entries in
      let none_left : link_count i (remove_entry name (remove_entry temp d.entries)) ≡ 0 =
        link_count-remove_entry i name _
          (link_count-remove_entry i temp d.entries (link_count_above i d.entries (omega arith))) in
      let self : (i == i) ≡ true = ground arith in
      record {
        inode = i;
        found = rw (codes_eq_refl name) refl;
        single = rw (codes_eq_refl temp, self) (ap suc none_left);
        trusted = rw self a;
        written = rw self w;
      }

  -- `_atomic_replace`, where it returns, leaves the new record at the final name.
  pub atomic_replace-Holds :
      (r : JournalRecord) (d : Directory) {d' : Directory}
      → atomic_replace host name r d ≡ (ok tt, d')
      → IsRecord r
      → Parses host r
      → Holds host name r d'
  unfolding atomic_replace
  atomic_replace-Holds r d {d'} e v p =
      let (temp, d1, made, e1) =
        after-eq-ok (new_temp host name r)
          (λ temp. change (λ d. rename temp name (inode_of temp d) d)) d e in
      let (encoded, fine, _, _, created) = new_temp-eq-ok host name r d made in
      let w = read_bytes-node_of host r encoded v p in
      let moved = Holds-rename r temp (node_of host r) d fine w in
      subst (Holds host name r) (ap (λ o. o.1) e1) (
        subst (λ x. Holds host name r (rename temp name (inode_of temp x) x)) created
          (rw (inode_of-create_file temp (node_of host r) d) moved))
