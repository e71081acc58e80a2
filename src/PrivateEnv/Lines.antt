-- ===== src/PrivateEnv/Lines.antt =====
-- The lines that are written are the lines that are read.
use kitdev_sandboxes.Base.{
  ◌≡◌, refl, sym, ap, ◌∙◌, inl, inr, String, str_eq, false, ◌||◌, List, [], ◌∷◌, ◌++◌, none, some,
  ◌==◌, any, any-append, length, All, arith, Bool-cases, Option-cases,
}
use kitdev_sandboxes.Base.Errors.{ok}
use kitdev_sandboxes.Base.Strings.{codes}
use kitdev_sandboxes.Base.Dict.{lookup, contains}
use mathlib.Core.List.{append_assoc, append-nil}
use kitdev_sandboxes.PrivateEnv.Document.{
  Codes, Values, all_keys, is_line_break, split_lines, split_equals, find_key, begins_comment,
  read_line, read_lines, payload,
}

-- The values in the order of the keys.
unfoldable pub restricted : List String → Values → Values
restricted [] d = []
restricted (k ∷ ks) d = elim (lookup k d) [
  | none ↦ restricted ks d
  | some v ↦ (k, v) ∷ restricted ks d
]

-- A value that is written on one line: it is not empty and holds no line break.
abbrev pub IsLineValue : Codes → Type 0
IsLineValue v = ((length v == 0) ≡ false) × (any is_line_break v ≡ false)

-- A key that is found again at the head of a line.
abbrev pub IsKey : String → Type 0
IsKey k =
    (any is_line_break (codes k) ≡ false)
    × ((v : Codes) → split_equals (codes k ++ (b'=' ∷ v)) ≡ some (codes k, v))
    × ((v : Codes) → begins_comment (codes k ++ (b'=' ∷ v)) ≡ false)
    × (find_key (codes k) all_keys ≡ some k)

split_lines_line :
    (xs rest line : Codes)
    → any is_line_break xs ≡ false
    → split_lines (xs ++ (0x0a ∷ rest)) false line ≡ (line ++ xs) ∷ split_lines rest false []
unfolding split_lines
split_lines_line [] rest line h = ap (λ l. l ∷ split_lines rest false []) (sym (append-nil line))
split_lines_line (x ∷ xs) rest line h = elim (Bool-cases (is_line_break x)) [
  | inl bad ↦ cc (rw bad at h)
  | inr good ↦
      rw (good, split_lines)
        (split_lines_line xs rest (line ++ (x ∷ [])) (rw good at h)
          ∙ ap (λ l. l ∷ split_lines rest false []) (append_assoc line (x ∷ []) xs))
]

contains-append :
    (k j : String) (v : Codes) (d : Values)
    → contains k (d ++ ((j, v) ∷ [])) ≡ (contains k d || str_eq k j)
unfolding contains lookup
contains-append k j v [] = ground arith
contains-append k j v ((i, w) ∷ d) = ground (arith, contains-append k j v d)

-- No key of the list stands in the values.
abbrev pub Absent : List String → Values → Type 0
Absent ks d = All (λ k. contains k d ≡ false) ks

-- No key of the list is the given one.
abbrev Other : String → List String → Type 0
Other k ks = All (λ j. str_eq j k ≡ false) ks

-- Every key of the list is known, and stands in it once.
abbrev pub AreKeys : List String → Type 0
AreKeys [] = Unit
AreKeys (k ∷ ks) = IsKey k × Other k ks × AreKeys ks

Absent-append :
    (ks : List String) (k : String) (v : Codes) (d : Values)
    → Absent ks d
    → Other k ks
    → Absent ks (d ++ ((k, v) ∷ []))
Absent-append [] k v d a o = tt
Absent-append (j ∷ js) k v d a o =
    (contains-append j k v d ∙ ground arith, Absent-append js k v d a.1 o.1)

-- Every value that is written is a line's.
abbrev pub Writable : List String → Values → Type 0
Writable [] d = Unit
Writable (k ∷ ks) d = ((v : Codes) → lookup k d ≡ some v → IsLineValue v) × Writable ks d

read_line_ok :
    (k : String) (v : Codes) (d : Values)
    → IsKey k
    → IsLineValue v
    → contains k d ≡ false
    → read_line (codes k ++ (b'=' ∷ v)) d ≡ ok (d ++ ((k, v) ∷ []))
unfolding read_line
read_line_ok k v d key plain new = rw (key.1 v, key.2 v, key.3, read_line) (rw (new, plain.0) refl)

-- One line of the payload, read.
payload-line :
    (k : String) (v rest : Codes)
    → IsKey k
    → IsLineValue v
    → split_lines (codes k ++ (b'=' ∷ (v ++ (0x0a ∷ rest)))) false []
      ≡ (codes k ++ (b'=' ∷ v)) ∷ split_lines rest false []
payload-line k v rest key plain =
    ap (λ t. split_lines t false []) (sym (append_assoc (codes k) (b'=' ∷ v) (0x0a ∷ rest)))
    ∙ split_lines_line (codes k ++ (b'=' ∷ v)) rest []
        (any-append is_line_break (codes k) (b'=' ∷ v) ∙ ground arith)

split_lines-nil : split_lines [] false [] ≡ []
unfolding split_lines
split_lines-nil = refl

-- Reading the payload of a list of keys adds their values, in the order of the list.
pub read_lines-payload :
    (ks : List String) (d acc : Values)
    → AreKeys ks
    → Writable ks d
    → Absent ks acc
    → read_lines (split_lines (payload ks d) false []) acc ≡ ok (acc ++ restricted ks d)
unfolding payload read_lines restricted
read_lines-payload [] d acc keys w a = rw split_lines-nil (ap (λ x. ok x) (sym (append-nil acc)))
read_lines-payload (k ∷ ks) d acc keys w a = elim (Option-cases (lookup k d)) [
  | inl gone ↦ rw (gone, payload, restricted) (read_lines-payload ks d acc keys.2 w.1 a.1)
  | inr (v, here) ↦
      rw (here, payload, restricted)
        (rw
          (
            payload-line k v (payload ks d) keys.0 (w.0 v here),
            read_line_ok k v acc keys.0 (w.0 v here) a.0,
          )
          (read_lines-payload ks d (acc ++ ((k, v) ∷ [])) keys.2 w.1
              (Absent-append ks k v acc a.1 keys.1)
            ∙ ap (λ x. ok x) (append_assoc acc ((k, v) ∷ []) (restricted ks d))))
]
