-- ===== src/Journal/Policy.antt =====
-- `JournalSecurityPolicy`: which files and directories are trusted, and `_open_root`, the walk to the
-- journal's directory. A path is its text; its parts are those of `pathlib`.
use kitdev_sandboxes.Base.{
  ℕ, ◌/◌, ◌%◌, Bool, true, false, not, ◌&&◌, ◌||◌, List, [], ◌∷◌, ◌++◌, ltb, ◌==◌, if◌then◌else◌,
  any, all, Option, none, some, String,
}
use kitdev_sandboxes.Base.Errors.{ok, err, ◌>>=◌, ◌>>◌, raise_if}
use kitdev_sandboxes.Base.Strings.{codes}
use kitdev_sandboxes.Checks.Patterns.{codes_eq}
use kitdev_sandboxes.Planning.Paths.{posix_root, posix_parts, posix_text}
use kitdev_sandboxes.Journal.Texts.{
  Codes, Checked, invalid, security, safe_path_component, starts_with,
}

pub data FileKind : Type 0 where
  regular directory symlink other_kind : FileKind

abbrev pub is_regular : FileKind → Bool
is_regular FileKind.regular = true
is_regular _ = false

abbrev pub is_directory : FileKind → Bool
is_directory FileKind.directory = true
is_directory _ = false

abbrev pub is_symlink : FileKind → Bool
is_symlink FileKind.symlink = true
is_symlink _ = false

-- What `os.stat` tells of a file, but for its links: `mode` is `stat.S_IMODE`.
pub record Metadata : Type 0 where
  pub kind : FileKind
  pub uid : ℕ
  pub gid : ℕ
  pub mode : ℕ

-- `stat_validator` sees the metadata, the number of links, and whether a directory is wanted.
pub record JournalSecurityPolicy : Type 0 where
  pub expected_owner_uid : ℕ
  pub directory_mode : ℕ
  pub file_mode : ℕ
  pub stat_validator : Option (Metadata → ℕ → Bool → Bool)
  pub trusted_prefix : Option Codes
  pub expected_owner_gid : ℕ

abbrev max_mode : ℕ
max_mode = 4095

-- A path that is absolute, not "/", does not begin with "//", and has safe components.
unfoldable pub is_safe_path : Codes → Bool
unfolding posix_root posix_parts posix_text safe_path_component codes_eq starts_with
is_safe_path path =
    not (codes_eq (posix_root path) [])
    && not (codes_eq (posix_text path) (codes "/"))
    && not (starts_with (codes "//") (posix_text path))
    && all safe_path_component (posix_parts path)

-- The checks of the constructor.
unfoldable pub journal_security_policy : JournalSecurityPolicy → Checked JournalSecurityPolicy
unfolding is_safe_path
journal_security_policy p = do
  raise_if (ltb max_mode p.directory_mode) (invalid "directory_mode must be a valid mode")
  raise_if (ltb max_mode p.file_mode) (invalid "file_mode must be a valid mode")
  raise_if (elim p.trusted_prefix [ none ↦ false | some path ↦ not (is_safe_path path) ])
      (invalid "trusted_prefix must be a safe non-root absolute path")
  ok p

-- `accepts`
unfoldable pub accepts : JournalSecurityPolicy → Metadata → ℕ → Bool → List ℕ → Bool
accepts p m links wants_directory allowed_nlinks =
    (if wants_directory then is_directory m.kind else is_regular m.kind)
    && m.uid == p.expected_owner_uid
    && m.gid == p.expected_owner_gid
    && m.mode == (if wants_directory then p.directory_mode else p.file_mode)
    && (wants_directory || any (λ n. links == n) allowed_nlinks)
    && elim p.stat_validator [ none ↦ true | some validator ↦ validator m links wants_directory ]

-- `mode & 0o022`: the group or others may write.
abbrev pub is_shared_mode : ℕ → Bool
is_shared_mode mode = not (mode / 16 % 2 == 0) || not (mode / 2 % 2 == 0)

-- `accepts_ancestor`
unfoldable pub accepts_ancestor : JournalSecurityPolicy → Metadata → Bool → Bool
accepts_ancestor p m below_trusted =
    is_directory m.kind
    && m.uid == (if below_trusted then p.expected_owner_uid else 0)
    && m.gid == (if below_trusted then p.expected_owner_gid else 0)
    && not (is_shared_mode m.mode)

unfoldable pub parts_eq : List Codes → List Codes → Bool
unfolding codes_eq
parts_eq [] [] = true
parts_eq (x ∷ xs) (y ∷ ys) = codes_eq x y && parts_eq xs ys
parts_eq _ _ = false

-- `parts[:len(first)] == first`
unfoldable pub begins_with : List Codes → List Codes → Bool
unfolding codes_eq
begins_with [] parts = true
begins_with (x ∷ xs) [] = false
begins_with (x ∷ xs) (y ∷ ys) = codes_eq x y && begins_with xs ys

-- `path.parts`
abbrev pub parts_of : Codes → List Codes
parts_of path = posix_root path ∷ posix_parts path

-- The directory that a list of parts leads to without a symbolic link, if there is one.
abbrev pub Tree : Type 0
Tree = List Codes → Option Metadata

abbrev pub unsafe_ancestry : String
unsafe_ancestry = "journal root ancestry is not securely owned"

-- Is the directory the trusted prefix itself?
abbrev pub is_trusted : Option (List Codes) → List Codes → Bool
is_trusted none opened = false
is_trusted (some trusted) opened = parts_eq opened trusted

-- Has the walk come to the trusted prefix?
abbrev pub is_below : Option (List Codes) → List Codes → Bool
is_below none opened = false
is_below (some trusted) opened = begins_with trusted opened

-- The test of one directory on the way.
unfoldable pub passes : JournalSecurityPolicy → Option (List Codes) → List Codes → Metadata → Bool
unfolding accepts_ancestor parts_eq begins_with
passes p trusted opened m =
    is_trusted trusted opened || accepts_ancestor p m (is_below trusted opened)

-- The loop over the components; `here` is the directory that is open.
unfoldable pub open_parts :
    JournalSecurityPolicy
    → Tree
    → Option (List Codes)
    → List Codes
    → Metadata
    → List Codes
    → Checked Metadata
unfolding passes
open_parts p tree trusted opened here [] = ok here
open_parts p tree trusted opened here (c ∷ cs) =
    let opened' = opened ++ (c ∷ []) in
    elim (tree opened') [
      | none ↦ err (security "journal root cannot be opened without symlinks")
      | some m ↦ elim (passes p trusted opened' m) [
        | true ↦ open_parts p tree trusted opened' m cs
        | false ↦ err (security unsafe_ancestry)
      ]
    ]

abbrev pub slash : List Codes
slash = codes "/" ∷ []

abbrev pub trusted_parts : JournalSecurityPolicy → Option (List Codes)
trusted_parts p = elim p.trusted_prefix [ none ↦ none | some path ↦ some (parts_of path) ]

abbrev pub outside_prefix : Option (List Codes) → List Codes → Bool
outside_prefix none parts = false
outside_prefix (some trusted) parts = not (begins_with trusted parts)

-- `_open_root`: the metadata of the directory that was opened. `top` is that of "/", and
-- `links` counts the links of the last directory.
unfoldable pub open_root : JournalSecurityPolicy → Tree → Metadata → ℕ → Codes → Checked Metadata
unfolding is_safe_path accepts accepts_ancestor open_parts parts_eq begins_with
open_root p tree top links root = do
  raise_if (codes_eq (posix_root root) []) (security "journal root must be absolute")
  raise_if (not (is_safe_path root)) (security "journal root must be a safe non-root path")
  let trusted = trusted_parts p
  raise_if (outside_prefix trusted (parts_of root))
      (security "trusted prefix is not an ancestor of journal root")
  raise_if (not (accepts_ancestor p top (is_trusted trusted slash))) (security unsafe_ancestry)
  opened ← open_parts p tree trusted slash top (posix_parts root)
  raise_if (not (accepts p opened links true []))
      (security "journal root owner, mode, or type is unsafe")
  ok opened
