-- ===== src/Firewall/State.antt =====
-- Reading the manifest, the candidates of a change, and one run of the script.
use kitdev_sandboxes.Base.{
  String, str_eq, Bool, true, false, not, ◌&&◌, none, some, List, [], ◌∷◌, map, if◌then◌else◌, all,
}
use kitdev_sandboxes.Base.Dict.{Dict, insert, erase}
use kitdev_sandboxes.Base.Errors.{ok, err, ◌>>=◌, ◌>>◌, raise_if}
use kitdev_sandboxes.Base.Sort.{sort_by}
use kitdev_sandboxes.Base.Strings.{str_mem}
use kitdev_sandboxes.Firewall.Networks.{
  Parser, Key, key, key_leb, Json, Source, modes, Failure, stop, crash, Checked,
}
use kitdev_sandboxes.Firewall.Manifest.{
  Manifest, invalid, normalize_cidr, validate_document, document_of,
}

-- What `secure_read` finds at a path. `garbled` is a payload that is too large, holds a NUL, is not
-- ASCII or is not JSON; `untrusted` fails the metadata check.
pub data StateFile : Type 0 where
  missing unreadable untrusted garbled : StateFile
  holding : Json → StateFile

abbrev pub empty_document : Manifest
empty_document = record { mode = "closed"; sources = [] }

-- What a run prints, or that it installed the manifest.
pub data Output : Type 0 where
  document listing installed : Manifest → Output
  lines : List String → Output

-- `{item["cidr"]: item for item in document["sources"]}`
unfoldable pub entries_of : List Source → Dict Source → Dict Source
entries_of [] d = d
entries_of (s ∷ ss) d = entries_of ss (insert s.cidr s d)

abbrev pub values : Dict Source → List Source
values = map (λ e. e.1)

-- The flags have no duplicate and are both known.
unfoldable pub flags_ok : List String → Bool
flags_ok [] = true
flags_ok (f ∷ fs) =
    not (str_mem f fs)
    && str_mem f ("--allow-non-public" ∷ "--allow-broad-range" ∷ [])
    && flags_ok fs

module _ (ip_network : Parser) where
  unfoldable pub secure_read : StateFile → Bool → Checked Manifest
  secure_read missing missing_is_empty =
      if missing_is_empty then ok empty_document else err (stop "source_manifest_missing" 65)
  secure_read unreadable _ = err (stop "source_manifest_unreadable" 65)
  secure_read untrusted _ = err (stop "source_manifest_untrusted" 65)
  secure_read garbled _ = err invalid
  secure_read (holding j) _ = validate_document ip_network j

  abbrev pub parses : Source → Bool
  parses s = elim (ip_network s.cidr) [ none ↦ false | some _ ↦ true ]

  -- The key of `sorted`, for an entry whose text parses.
  abbrev pub source_key : Source → Key
  source_key s = elim (ip_network s.cidr) [ none ↦ (0, 0, 0) | some n ↦ key n ]

  -- `sorted(entries.values(), key=…)`
  unfoldable pub sorted_sources : List Source → Checked (List Source)
  sorted_sources ss =
      if all parses ss
      then ok (sort_by (λ s t. key_leb (source_key s) (source_key t)) ss)
      else err crash

  -- `candidate`; the Boolean says whether the action is an addition.
  unfoldable pub candidate : StateFile → Bool → String → Bool → Bool → Checked Manifest
  candidate state add cidr allow_non_public allow_broad_range = do
    m ← secure_read state true
    c ←
        normalize_cidr ip_network cidr (if add then allow_non_public else true)
          (if add then allow_broad_range else true)
    let entries = entries_of m.sources []
    ss ← sorted_sources (
        values (
          if add
          then insert c.0
              (record { cidr = c.0; non_public_override = c.1; broad_range_override = c.2 }) entries
          else erase c.0 entries))
    validate_document ip_network (document_of (record { mode = m.mode; sources = ss }))

  unfoldable pub candidate_mode : StateFile → String → Checked Manifest
  candidate_mode state mode = do
    raise_if (not (str_mem mode modes)) (stop "firewall_mode_invalid" 64)
    m ← secure_read state true
    validate_document ip_network (document_of (record { mode = mode; sources = m.sources }))

  abbrev operation_invalid : Failure
  operation_invalid = stop "invalid_operation" 64

  unfoldable pub run_candidate : StateFile → Bool → String → List String → Checked Output
  run_candidate state add cidr flags = do
    raise_if (not (flags_ok flags)) operation_invalid
    raise_if (not add && elim flags [ [] ↦ false | _ ∷ _ ↦ true ]) operation_invalid
    m ←
        candidate state add cidr (str_mem "--allow-non-public" flags)
          (str_mem "--allow-broad-range" flags)
    ok (document m)

  -- `install_document` of what was read.
  unfoldable pub install : Bool → StateFile → Checked Manifest → Checked Output × StateFile
  install trusted state (err e) = (err e, state)
  install trusted state (ok m) =
      if trusted
      then (ok (installed m), holding (document_of m))
      else (err (stop "source_manifest_parent_untrusted" 65), state)

  -- `main`: the output and the file that stands at `STATE` afterwards. `at` gives the files at other
  -- paths; the Boolean says whether the directory of `STATE` passes the metadata check.
  unfoldable pub main :
      (String → StateFile) → Bool → StateFile → List String → Checked Output × StateFile
  main at trusted state (command ∷ []) =
      if str_eq command "export"
      then (do m ← secure_read state true; ok (document m), state)
      else if str_eq command "list"
      then (do m ← secure_read state true; ok (listing m), state)
      else (err operation_invalid, state)
  main at trusted state (command ∷ argument ∷ flags) =
      let bare : Bool = elim flags [ [] ↦ true | _ ∷ _ ↦ false ] in
      if str_eq command "get-file" && bare
      then (do m ← secure_read (at argument) false; ok (lines (map (λ s. s.cidr) m.sources)), state)
      else if str_eq command "install-file" && bare
      then install trusted state (secure_read (at argument) false)
      else if str_eq command "candidate-mode" && bare
      then (do m ← candidate_mode state argument; ok (document m), state)
      else if str_eq command "candidate-add"
      then (run_candidate state true argument flags, state)
      else if str_eq command "candidate-remove"
      then (run_candidate state false argument flags, state)
      else (err operation_invalid, state)
  main at trusted state [] = (err operation_invalid, state)
