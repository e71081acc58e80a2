-- ===== src/Journal/Directory.antt =====
-- The journal's directory: names that lead to inodes, and inodes that hold a file each. A call that
-- may change it takes the directory and returns its result with the directory that it leaves.
use kitdev_sandboxes.Base.{
  ℕ, suc, Bool, true, false, List, [], ◌∷◌, ltb, ◌==◌, if◌then◌else◌, Option, none, some, map,
}
use kitdev_sandboxes.Base.Errors.{ok, err}
use kitdev_sandboxes.Checks.Patterns.{codes_eq}
use kitdev_sandboxes.Journal.Texts.{Codes, JournalError, Checked}
use kitdev_sandboxes.Journal.Policy.{Metadata}

pub record Node : Type 0 where
  pub metadata : Metadata
  pub content : List ℕ

abbrev pub Entries : Type 0
Entries = List (Codes × ℕ)

pub record Directory : Type 0 where
  pub entries : Entries
  pub nodes : ℕ → Node

-- The inode that a name leads to.
unfoldable pub find_entry : Codes → Entries → Option ℕ
unfolding codes_eq
find_entry name [] = none
find_entry name ((n, i) ∷ es) = if codes_eq name n then some i else find_entry name es

-- `st_nlink`
unfoldable pub link_count : ℕ → Entries → ℕ
link_count i [] = 0
link_count i ((n, j) ∷ es) = let rest = link_count i es in if i == j then suc rest else rest

unfoldable pub remove_entry : Codes → Entries → Entries
unfolding codes_eq
remove_entry name [] = []
remove_entry name ((n, i) ∷ es) =
    let rest = remove_entry name es in if codes_eq name n then rest else (n, i) ∷ rest

-- An inode that no name leads to: above all that are in use.
unfoldable pub fresh_inode : Entries → ℕ
fresh_inode [] = 0
fresh_inode ((n, i) ∷ es) = let rest = fresh_inode es in if ltb i rest then rest else suc i

abbrev pub names_of : Directory → List Codes
names_of d = map (λ e. e.0) d.entries

-- `os.unlink`
abbrev pub unlink : Codes → Directory → Directory
unlink name d = record d { entries = remove_entry name d.entries }

-- `os.open` of a new name with O_CREAT and O_EXCL, then the bytes that have been written to it.
abbrev pub create_file : Codes → Node → Directory → Directory
create_file name node d =
    let i = fresh_inode d.entries in
    record { entries = (name, i) ∷ d.entries; nodes = λ j. if j == i then node else d.nodes j }

-- `os.link` of an inode to a new name.
abbrev pub link : Codes → ℕ → Directory → Directory
link name i d = record d { entries = (name, i) ∷ d.entries }

-- `os.replace`: the name leads to the inode, and the old name is gone.
abbrev pub rename : Codes → Codes → ℕ → Directory → Directory
rename old new i d = record d { entries = (new, i) ∷ remove_entry new (remove_entry old d.entries) }

-- A call on the directory that may raise.
abbrev pub M : Type 0 → Type 0
M A = Directory → Checked A × Directory

-- The rest of a chain, behind a call that has returned or raised.
abbrev pub after : {A B : Type 0} → (A → M B) → Checked A → M B
after f (ok a) d = f a d
after f (err e) d = (err e, d)

infixl 5 ◌>>=◌ ◌>>◌
abbrev pub ◌>>=◌ : {A B : Type 0} → M A → (A → M B) → M B
◌>>=◌ m f d = let (r, d') = m d in after f r d'

abbrev pub ◌>>◌ : {B : Type 0} → M (Unit {0}) → M B → M B
m >> k = m >>= λ _. k

abbrev pub return : {A : Type 0} → A → M A
return a d = (ok a, d)

abbrev pub raise : {A : Type 0} → JournalError → M A
raise e d = (err e, d)

-- A call that only looks.
abbrev pub look : {A : Type 0} → (Directory → Checked A) → M A
look f d = (f d, d)

-- A check of the arguments.
abbrev pub check : {A : Type 0} → Checked A → M A
check r d = (r, d)

-- `if test: raise`
abbrev pub refuse_if : Bool → JournalError → M (Unit {0})
refuse_if test e d = elim test [ true ↦ (err e, d) | false ↦ (ok tt, d) ]

-- A call of the operating system.
abbrev pub change : (Directory → Directory) → M (Unit {0})
change f d = (ok tt, f d)
