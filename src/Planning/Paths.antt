-- ===== src/Planning/Paths.antt =====
-- `_require_owned_directory_path` and `_desired_directories`, with the parts of
-- `pathlib.PurePosixPath` that they use: the parts of a path, its text, and the relative path.
use kitdev_sandboxes.Base.{
  ℕ, ◌≡◌, refl, String, Bool, true, false, not, ◌&&◌, ◌||◌, Option, none, some, List, [], ◌∷◌, ◌++◌,
  ◌==◌, if◌then◌else◌, any, all,
}
use kitdev_sandboxes.Base.Errors.{ok, err, value_error, ◌>>=◌, ◌>>◌, raise_if}
use kitdev_sandboxes.Base.Strings.{codes, str_leb}
use kitdev_sandboxes.Base.Sort.{sort_by}
use kitdev_sandboxes.Config.{Configuration}
use kitdev_sandboxes.Checks.Unquote.{within}
use kitdev_sandboxes.Checks.Patterns.{codes_eq}
use kitdev_sandboxes.Planning.Types.{DesiredDirectory}
use kitdev_sandboxes.Planning.Checked.{Checked, require_text, max_target_bytes}

-- The text between slashes, with the part that is being read.
unfoldable pub split_slash : List ℕ → List ℕ → List (List ℕ)
split_slash part [] = part ∷ []
split_slash part (c ∷ cs) = elim (c == b'/') [
  | true ↦ part ∷ split_slash [] cs
  | false ↦ split_slash (part ++ (c ∷ [])) cs
]

abbrev is_part : List ℕ → Bool
is_part p = not (codes_eq p []) && not (codes_eq p (codes "."))

unfoldable pub keep_parts : List (List ℕ) → List (List ℕ)
keep_parts [] = []
keep_parts (p ∷ ps) = let rest = keep_parts ps in if is_part p then p ∷ rest else rest

-- The parts of a path behind its root, without the empty ones and ".".
unfoldable pub posix_parts : List ℕ → List (List ℕ)
unfolding split_slash keep_parts
posix_parts cs = keep_parts (split_slash [] cs)

-- The root: nothing, "/", or "//" if the text begins with exactly two slashes.
unfoldable pub posix_root : List ℕ → List ℕ
posix_root [] = []
posix_root (a ∷ []) = if a == b'/' then codes "/" else []
posix_root (a ∷ b ∷ []) = if a == b'/' then if b == b'/' then codes "//" else codes "/" else []
posix_root (a ∷ b ∷ c ∷ cs) =
    if a == b'/' then if b == b'/' && not (c == b'/') then codes "//" else codes "/" else []

unfoldable pub join_slash : List (List ℕ) → List ℕ
join_slash [] = []
join_slash (p ∷ []) = p
join_slash (p ∷ q ∷ ps) = p ++ (codes "/" ++ join_slash (q ∷ ps))

-- `str(PurePosixPath(text))`
unfoldable pub posix_text : List ℕ → List ℕ
unfolding posix_parts posix_root join_slash
posix_text cs =
    let whole = posix_root cs ++ join_slash (posix_parts cs) in
    if codes_eq whole [] then codes "." else whole

unfoldable pub strip_parts : List (List ℕ) → List (List ℕ) → Option (List (List ℕ))
strip_parts [] ps = some ps
strip_parts (r ∷ rs) [] = none
strip_parts (r ∷ rs) (p ∷ ps) = let rest = strip_parts rs ps in if codes_eq p r then rest else none

-- `path.relative_to(root).parts`
unfoldable pub relative_parts : List ℕ → List ℕ → Option (List (List ℕ))
unfolding strip_parts posix_parts posix_root
relative_parts cs root =
    if codes_eq (posix_root cs) (posix_root root)
    then strip_parts (posix_parts root) (posix_parts cs)
    else none

abbrev is_alnum : ℕ → Bool
is_alnum c = within b'A' b'Z' c || within b'a' b'z' c || within b'0' b'9' c

-- `^[A-Za-z0-9][A-Za-z0-9._-]*$`
unfoldable pub is_owned_part : List ℕ → Bool
is_owned_part [] = false
is_owned_part (c ∷ cs) =
    is_alnum c && all (λ d. is_alnum d || d == b'.' || d == b'_' || d == b'-') cs

abbrev is_unsafe_part : List ℕ → Bool
is_unsafe_part p =
    codes_eq p [] || codes_eq p (codes ".") || codes_eq p (codes "..") || not (is_owned_part p)

-- The `try` around `path.relative_to(root)`.
abbrev relative_to : List ℕ → List ℕ → Checked (List (List ℕ))
relative_to cs root = elim (relative_parts cs root) [
  | none ↦ err (value_error "configured path is outside its project-owned root")
  | some relative ↦ ok relative
]

-- The check for one directory, its project-owned root given.
unfoldable pub require_owned_directory_path : String → String → Checked (Unit {0})
require_owned_directory_path root value = do
  require_text "configured path" value max_target_bytes false
  let cs = codes value
  raise_if (codes_eq (posix_root cs) [] || not (codes_eq (posix_text cs) cs))
      (value_error "configured path must be normalized and absolute")
  relative ← relative_to cs (codes root)
  raise_if (any is_unsafe_part relative)
      (value_error "configured path contains an unsafe path component")

abbrev desired : String → String → String → DesiredDirectory
desired resource_id path purpose = record {
  resource_id = resource_id;
  path = path;
  purpose = purpose;
}

abbrev by_resource_id : DesiredDirectory → DesiredDirectory → Bool
by_resource_id a b = str_leb a.resource_id b.resource_id

-- The five directories of a configuration.
abbrev pub directories : Configuration → List DesiredDirectory
directories config =
    let paths = config.paths in
    desired "directory.config" paths.config "project configuration"
    ∷ desired "directory.install" paths.install "installed releases and tooling"
    ∷ desired "directory.logs" paths.logs "project logs"
    ∷ desired "directory.runtime" paths.runtime "transient runtime state"
    ∷ desired "directory.state" paths.state "durable project state"
    ∷ []

unfoldable pub desired_directories : Configuration → Checked (List DesiredDirectory)
desired_directories config = do
  require_owned_directory_path "/etc/kitdev-sandboxes" config.paths.config
  require_owned_directory_path "/opt/kitdev-sandboxes" config.paths.install
  require_owned_directory_path "/var/log/kitdev-sandboxes" config.paths.logs
  require_owned_directory_path "/run/kitdev-sandboxes" config.paths.runtime
  require_owned_directory_path "/var/lib/kitdev-sandboxes" config.paths.state
  ok (sort_by by_resource_id (directories config))

-- The directories stand in the order of their identifiers already.
pub directories-sorted :
    (config : Configuration) → sort_by by_resource_id (directories config) ≡ directories config
unfolding sort_by str_leb
directories-sorted config = refl
