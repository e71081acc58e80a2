-- ===== src/Journal/Holds.antt =====
-- A journal that stands at its name: one link, trusted metadata, and bytes that decode to the
-- record. What `_load_at` makes of it, and what keeps it.
use kitdev_sandboxes.Base.{
  ℕ, ◌+◌, ◌≡◌, refl, sym, ap, subst, ◌∙◌, inl, inr, Bool, true, false, not, List, [], ◌∷◌, ◌==◌,
  ==_iff, if◌then◌else◌, Option, none, some, arith, Bool-cases, Option-cases,
}
use kitdev_sandboxes.Base.Errors.{ok, err, raise_if-eq-ok, >>=-eq-ok, ok_inj, not-eq-false}
use kitdev_sandboxes.Journal.Texts.{Codes, security}
use kitdev_sandboxes.Journal.Policy.{
  FileKind, is_symlink, is_regular, Metadata, JournalSecurityPolicy, accepts,
}
use kitdev_sandboxes.Journal.Record.{JournalRecord, IsRecord}
use kitdev_sandboxes.Journal.Json.{Json}
use kitdev_sandboxes.Journal.Codec.{Bytes, decode, max_journal_bytes}
use kitdev_sandboxes.Journal.Directory.{
  Node, Directory, find_entry, link_count, look, raise, return, ◌>>=◌, ◌>>◌,
}
use kitdev_sandboxes.Journal.Files.{Reading, read_inode, read_at, take_bytes}
use kitdev_sandboxes.Journal.Store.{Host, reading, settle, load_at, recover_linked_create}
use kitdev_sandboxes.Journal.Chains.{after-eq-ok, look-eq-ok}
use kitdev_sandboxes.Journal.Roundtrip.{encode-decode}

-- The bytes that are read of a file.
abbrev pub read_bytes : Node → Bytes
read_bytes node = take_bytes (max_journal_bytes + 1) node.content

module _ (host : Host) (name : Codes) (r : JournalRecord) (d : Directory) where
  pub record Holds : Type 0 where
    pub inode : ℕ
    pub found : find_entry name d.entries ≡ some inode
    pub single : link_count inode d.entries ≡ 1
    pub trusted : accepts host.policy (d.nodes inode).metadata 1 false (1 ∷ []) ≡ true
    pub written : decode host.json_loads (read_bytes (d.nodes inode)) ≡ ok r

pub accepts-regular :
    (p : JournalSecurityPolicy) (m : Metadata) (links : ℕ) (allowed_nlinks : List ℕ)
    → accepts p m links false allowed_nlinks ≡ true
    → is_symlink m.kind ≡ false
unfolding accepts
accepts-regular p m links ns h = go m.kind (ground arith)
  where
    go : (k : FileKind) → is_regular k ≡ true → is_symlink k ≡ false
    go FileKind.regular e = refl
    go FileKind.directory e = cc
    go FileKind.symlink e = cc
    go FileKind.other_kind e = cc

-- A file with one link is accepted alike where two are allowed too.
accepts-single :
    (p : JournalSecurityPolicy) (m : Metadata)
    → accepts p m 1 false (1 ∷ 2 ∷ []) ≡ accepts p m 1 false (1 ∷ [])
unfolding accepts
accepts-single p m = refl

accepts-one :
    (p : JournalSecurityPolicy) (m : Metadata) (ns : List ℕ)
    → accepts p m 1 false ns ≡ true
    → accepts p m 1 false (1 ∷ []) ≡ true
unfolding accepts
accepts-one p m ns h = ground arith

accepts-links :
    (p : JournalSecurityPolicy) (m : Metadata) (links : ℕ)
    → accepts p m links false (1 ∷ []) ≡ true
    → links ≡ 1
unfolding accepts
accepts-links p m links h = ground arith

module _ (p : JournalSecurityPolicy) (json_loads : Bytes → Option Json) (ns : List ℕ)
    (d : Directory) where
  pub read_at_found :
      (name : Codes) {i : ℕ}
      → find_entry name d.entries ≡ some i
      → read_at p json_loads ns name d ≡ read_inode p json_loads ns i d
  unfolding read_at
  read_at_found name h = rw (h, read_at) refl

  read_at_gone :
      (name : Codes)
      → find_entry name d.entries ≡ none
      → read_at p json_loads ns name d ≡ err (security "journal cannot be opened safely")
  unfolding read_at
  read_at_gone name h = rw (h, read_at) refl

  -- A file that is accepted and holds a record is read.
  pub read_inode_ok :
      (i : ℕ) (r : JournalRecord) (links : ℕ)
      → link_count i d.entries ≡ links
      → accepts p (d.nodes i).metadata links false ns ≡ true
      → decode json_loads (read_bytes (d.nodes i)) ≡ ok r
      → read_inode p json_loads ns i d ≡ ok (record { found = r; inode = i; links = links })
  unfolding read_inode
  read_inode_ok i r links c a w = rw (c, accepts-regular p _ links ns a) (rw (a, w) refl)

  -- What a reading tells of the file.
  read_inode-eq-ok :
      (i : ℕ) (x : Reading)
      → read_inode p json_loads ns i d ≡ ok x
      → (x.inode ≡ i)
        × (x.links ≡ link_count i d.entries)
        × (accepts p (d.nodes i).metadata (link_count i d.entries) false ns ≡ true)
        × (decode json_loads (read_bytes (d.nodes i)) ≡ ok x.found)
  unfolding read_inode
  read_inode-eq-ok i x e =
      let (_, e1) = raise_if-eq-ok (is_symlink _) _ _ e in
      let (a, e2) =
        raise_if-eq-ok (not (accepts p (d.nodes i).metadata (link_count i d.entries) false ns))
          (security "journal owner, mode, or type is unsafe") _ e1 in
      let (r, w, e3) = >>=-eq-ok (decode json_loads (read_bytes (d.nodes i))) _ e2 in
      let same : record { found = r; inode = i; links = link_count i d.entries } ≡ x = ok_inj e3 in
      (
        sym (ap (λ y. y.inode) same),
        sym (ap (λ y. y.links) same),
        not-eq-false _ a,
        w ∙ ap (λ y. ok y.found) same,
      )

module _ (host : Host) (name : Codes) where
  pub Holds-reading :
      (ns : List ℕ) (r : JournalRecord) (d : Directory) (h : Holds host name r d)
      → accepts host.policy (d.nodes h.inode).metadata 1 false ns ≡ true
      → reading host ns name d ≡ ok (record { found = r; inode = h.inode; links = 1 })
  Holds-reading ns r d h a =
      read_at_found host.policy host.json_loads ns d name h.found
      ∙ read_inode_ok host.policy host.json_loads ns d h.inode r 1 h.single a h.written

  -- A journal that stands at its name is loaded, and nothing is changed.
  pub Holds-load_at :
      (r : JournalRecord) (d : Directory) (recover : Bool)
      → Holds host name r d
      → load_at host recover name d ≡ (ok r, d)
  unfolding load_at settle
  Holds-load_at r d recover h =
      rw
        (Holds-reading (1 ∷ 2 ∷ []) r d h
          (accepts-single host.policy (d.nodes h.inode).metadata ∙ h.trusted))
        refl

  reading-eq-ok :
      (ns : List ℕ) (x : Reading) (d : Directory)
      → reading host ns name d ≡ ok x
      → (find_entry name d.entries ≡ some x.inode)
        × (x.links ≡ link_count x.inode d.entries)
        × (accepts host.policy (d.nodes x.inode).metadata (link_count x.inode d.entries) false ns
            ≡ true)
        × (decode host.json_loads (read_bytes (d.nodes x.inode)) ≡ ok x.found)
  reading-eq-ok ns x d e = elim (Option-cases (find_entry name d.entries)) [
    | inl gone ↦ cc (read_at_gone host.policy host.json_loads ns d name gone)
    | inr (i, here) ↦
        let opened = sym (read_at_found host.policy host.json_loads ns d name here) ∙ e in
        let (same, c, a, w) = read_inode-eq-ok host.policy host.json_loads ns d i x opened in
        rw same (here, c, a, w)
  ]

  -- A name with one link that can be read holds its journal.
  pub reading-Holds :
      (ns : List ℕ) (x : Reading) (d : Directory)
      → reading host ns name d ≡ ok x
      → x.links ≡ 1
      → Holds host name x.found d
  reading-Holds ns x d e one =
      let (here, c, a, w) = reading-eq-ok ns x d e in
      let single : link_count x.inode d.entries ≡ 1 = sym c ∙ one in
      record {
        inode = x.inode;
        found = here;
        single = single;
        trusted = accepts-one host.policy _ ns (rw single at a);
        written = w;
      }

  settle-Holds :
      (recover : Bool) (x : Reading) (r : JournalRecord) (d d' : Directory)
      → reading host (1 ∷ 2 ∷ []) name d ≡ ok x
      → settle host recover name x d ≡ (ok r, d')
      → Holds host name r d'
  unfolding settle
  settle-Holds recover x r d d' read e = elim (Bool-cases (x.links == 1)) [
    | inl one ↦
        let e' = rw one at e in
        subst (λ q. Holds host name q d') (ok_inj (ap (λ o. o.0) e'))
          (subst (Holds host name x.found) (ap (λ o. o.1) e')
            (reading-Holds (1 ∷ 2 ∷ []) x d read ((==_iff x.links 1).0 one)))
    | inr more ↦ recovered recover (rw more at e)
  ]
    where
      recovered :
          (b : Bool)
          → (if not b then raise (security "journal has an unresolved hard-link residue") else (do
            recover_linked_create host name x
            again ← look (reading host (1 ∷ []) name)
            return again.found))
              d
            ≡ (ok r, d')
          → Holds host name r d'
      recovered false q = cc
      recovered true q =
          let (_, d2, _, q1) = after-eq-ok (recover_linked_create host name x) _ d q in
          let (y, again, q2) =
            look-eq-ok (reading host (1 ∷ []) name) (λ y. return y.found) d2 q1 in
          let one = accepts-links host.policy _ _ (reading-eq-ok (1 ∷ []) y d2 again).2 in
          subst (λ z. Holds host name z d') (ok_inj (ap (λ o. o.0) q2))
            (subst (Holds host name y.found) (ap (λ o. o.1) q2)
              (reading-Holds (1 ∷ []) y d2 again ((reading-eq-ok (1 ∷ []) y d2 again).1 ∙ one)))

  -- A record that was loaded stands at its name, in the directory that the load has left.
  pub load_at-Holds :
      (recover : Bool) (r : JournalRecord) (d d' : Directory)
      → load_at host recover name d ≡ (ok r, d')
      → Holds host name r d'
  unfolding load_at
  load_at-Holds recover r d d' e =
      let (x, read, e1) =
        look-eq-ok (reading host (1 ∷ 2 ∷ []) name) (settle host recover name) d e in
      settle-Holds recover x r d d' read e1

pub Holds-IsRecord :
    (host : Host) (name : Codes) (r : JournalRecord) (d : Directory)
    → Holds host name r d
    → IsRecord r
Holds-IsRecord host name r d h = (encode-decode host.json_loads _ r h.written).0
