-- ===== src/Journal/Crash.antt =====
-- `_create_at`: it succeeds where it can, and a crash leaves nothing that a load does not mend.
use kitdev_sandboxes.Base.{
  ℕ, ◌≡◌, refl, sym, ap, subst, ◌∙◌, inl, inr, ◌⊎◌, true, false, List, [], ◌∷◌, none,
}
use kitdev_sandboxes.Base.Errors.{ok}
use kitdev_sandboxes.Checks.Patterns.{codes_eq}
use kitdev_sandboxes.Journal.Texts.{Codes}
use kitdev_sandboxes.Journal.Policy.{accepts}
use kitdev_sandboxes.Journal.Record.{JournalRecord, IsRecord}
use kitdev_sandboxes.Journal.Codec.{canonical}
use kitdev_sandboxes.Journal.Directory.{Node, Directory, find_entry, create_file, link, unlink}
use kitdev_sandboxes.Journal.Files.{
  take_bytes, candidates, directory_entries, is_token, filename_of,
}
use kitdev_sandboxes.Journal.Store.{
  Host, new_temp, atomic_create, load_at, create_at, only_planned, refuse_published, publish,
  inode_of,
}
use kitdev_sandboxes.Journal.Holds.{Holds, Holds-load_at}
use kitdev_sandboxes.Journal.Temps.{
  node_of, Parses, read_bytes-node_of, temp-ne-name, new_temp-eq-ok,
}
use kitdev_sandboxes.Journal.Replace.{inode_of-create_file}
use kitdev_sandboxes.Journal.Progress.{filename_self, nothing_stale}
use kitdev_sandboxes.Journal.Create.{linked, Holds-linked, load_at-linked}

-- The name is free, and the store can write and link a temporary file there, which leads to the
-- directory `d1` with `temp` in it.
pub record CanCreate (host : Host) (name : Codes) (r : JournalRecord) (temp : Codes)
    (d d1 : Directory) (ns : List Codes) : Type 0 where
  pub accepted : IsRecord r
  pub parses : Parses host r
  pub tokens : (n : ℕ) → is_token (host.token n) ≡ true
  pub double : accepts host.policy host.created 2 false (2 ∷ []) ≡ true
  pub free : find_entry name d.entries ≡ none
  pub clean : candidates name d ≡ ok []
  pub made : new_temp host name r d ≡ (ok temp, d1)
  pub listed : directory_entries (linked host name r temp d) ≡ ok ns

publish-free :
    (name temp : Codes) (d : Directory)
    → find_entry name d.entries ≡ none
    → publish name temp d ≡ (ok tt, unlink temp (link name (inode_of temp d) d))
unfolding publish
publish-free name temp d h = rw (h, publish) refl

refuse_published-free :
    (name : Codes) (d : Directory)
    → find_entry name d.entries ≡ none
    → refuse_published name d ≡ (ok tt, d)
refuse_published-free name d h = rw (h, refuse_published) refl

module _ (host : Host) (name : Codes) (r : JournalRecord) (temp : Codes) (d d1 : Directory)
    (ns : List Codes) (can : CanCreate host name r temp d d1 ns) where
  still-free : (node : Node) → find_entry name (create_file temp node d).entries ≡ none
  unfolding find_entry
  still-free node =
      let (_, _, (n, named), _, _) = new_temp-eq-ok host name r d can.made in
      rw (subst (λ t. codes_eq name t ≡ false) (sym named) (temp-ne-name name (host.token n)))
        can.free

  -- `_atomic_create` ends with the temporary name gone.
  atomic_create-eq : atomic_create host name r d ≡ (ok tt, unlink temp (linked host name r temp d))
  unfolding atomic_create
  atomic_create-eq =
      let (_, _, _, _, created) = new_temp-eq-ok host name r d can.made in
      let made : new_temp host name r d ≡ (ok temp, create_file temp (node_of host r) d) =
        can.made ∙ ap (λ x. (ok temp, x)) (sym created) in
      rw made (
        publish-free name temp (create_file temp (node_of host r) d) (still-free (node_of host r))
        ∙ ap (λ i. (ok tt, unlink temp (link name i (create_file temp (node_of host r) d))))
            (inode_of-create_file temp (node_of host r) d))

  created-Holds : Holds host name r (unlink temp (linked host name r temp d))
  created-Holds =
      let (encoded, single, (n, named), _, _) = new_temp-eq-ok host name r d can.made in
      let written = read_bytes-node_of host r encoded can.accepted can.parses in
      subst (λ t. Holds host name r (unlink t (linked host name r t d))) (sym named)
        (Holds-linked host name r (host.token n) d single written)

  linked-loads : (load_at host true name (linked host name r temp d)).0 ≡ ok r
  linked-loads =
      let (encoded, single, (n, named), _, _) = new_temp-eq-ok host name r d can.made in
      let written = read_bytes-node_of host r encoded can.accepted can.parses in
      subst (λ t. (load_at host true name (linked host name r t d)).0 ≡ ok r) (sym named)
        (ap (λ o. o.0)
          (load_at-linked host name r (host.token n) d ns (can.tokens n) single can.double written
            can.clean
            (subst (λ t. directory_entries (linked host name r t d) ≡ ok ns) named can.listed)))

-- The directory at a moment of `_atomic_create`, for a crash to leave: before the temporary file is
-- made, while it holds some of the bytes, when both names lead to it, and when the call has ended.
pub data DuringCreate (host : Host) (name : Codes) (r : JournalRecord) (temp : Codes)
    (d : Directory) : Directory → Type 0 where
  unchanged : DuringCreate host name r temp d d
  writing :
      (k : ℕ)
      → DuringCreate host name r temp d (
          create_file temp
            (record { metadata = host.created; content = take_bytes k (canonical r) })
            d)
  linking : DuringCreate host name r temp d (linked host name r temp d)
  created : DuringCreate host name r temp d (atomic_create host name r d).1

-- A crash while a record is created leaves no half-made journal: at every moment the name is free,
-- or a load with recovery returns the whole record.
pub load_at-DuringCreate :
    (host : Host) (name : Codes) (r : JournalRecord) (temp : Codes) (d d1 : Directory)
    (ns : List Codes) (d' : Directory)
    → CanCreate host name r temp d d1 ns
    → DuringCreate host name r temp d d'
    → (find_entry name d'.entries ≡ none) ⊎ ((load_at host true name d').0 ≡ ok r)
load_at-DuringCreate host name r temp d d1 ns d' can unchanged = inl can.free
load_at-DuringCreate host name r temp d d1 ns d' can (writing k) = inl (
    still-free host name r temp d d1 ns can
      (record { metadata = host.created; content = take_bytes k (canonical r) }))
load_at-DuringCreate host name r temp d d1 ns d' can linking =
    inr (linked-loads host name r temp d d1 ns can)
load_at-DuringCreate host name r temp d d1 ns d' can created =
    let held = created-Holds host name r temp d d1 ns can in
    inr (
      rw (atomic_create-eq host name r temp d d1 ns can)
        (ap (λ o. o.0) (Holds-load_at host name r _ true held)))

-- Where a new record can be created, it is: the call returns the record and leaves it at its name.
pub create_at-progress :
    (host : Host) (r : JournalRecord) (temp : Codes) (d d1 : Directory) (ns : List Codes)
    → only_planned r.transitions ≡ true
    → CanCreate host (filename_of r.install_id) r temp d d1 ns
    → (d' : Directory) × (create_at host r d ≡ (ok r, d'))
      × Holds host (filename_of r.install_id) r d'
unfolding create_at
create_at-progress host r temp d d1 ns first can =
    let name = filename_of r.install_id in
    let held = created-Holds host name r temp d d1 ns can in
    (
      unlink temp (linked host name r temp d),
      rw (first, filename_self r can.accepted)
          (rw (nothing_stale host name (r ∷ []) d can.clean, refuse_published-free name d can.free)
            (rw (atomic_create-eq host name r temp d d1 ns can)
              (Holds-load_at host name r _ true held))),
      held,
    )
