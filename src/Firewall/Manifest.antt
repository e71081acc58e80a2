-- ===== src/Firewall/Manifest.antt =====
-- `normalize_cidr` and `validate_document` of the script that keeps the manifest.
use kitdev_sandboxes.Base.{
  String, str_eq, Bool, true, false, not, ◌&&◌, ◌||◌, Option, none, some, List, [], ◌∷◌, ◌++◌, map,
  ◌==◌, if◌then◌else◌,
}
use kitdev_sandboxes.Base.Dict.{lookup}
use kitdev_sandboxes.Base.Errors.{ok, err, ◌>>=◌, ◌>>◌, raise_if}
use kitdev_sandboxes.Base.Strings.{str_mem}
use kitdev_sandboxes.Firewall.Networks.{
  Network, Parser, overlaps, Key, key, key_leb, is_non_public, is_broad, text, bool, number,
  compound, Item, entry, Value, items, scalar, Json, object, Source, has_keys, equals, differ,
  source_keys, modes, Failure, stop, crash, Checked,
}

pub record Manifest : Type 0 where
  pub mode : String
  pub sources : List Source

abbrev pub invalid : Failure
invalid = stop "source_manifest_invalid" 65

-- `value not in {…}` of texts, negated.
abbrev pub in_texts : Option Value → List String → Checked Bool
in_texts (some (scalar (text t))) ts = ok (str_mem t ts)
in_texts (some (scalar compound)) ts = err crash
in_texts (some (items _)) ts = err crash
in_texts _ ts = ok false

abbrev pub text_of : Option Value → String
text_of (some (scalar (text t))) = t
text_of _ = ""

-- The three fields of an item, when their types are right.
unfoldable pub fields_of : Item → Option Source
fields_of Item.no_object = none
fields_of (entry d) =
    if has_keys d source_keys
    then elim (lookup "cidr" d) [
      | some (text c) ↦ elim (lookup "non_public_override" d) [
        | some (bool n) ↦ elim (lookup "broad_range_override" d) [
          | some (bool b) ↦
              some (record { cidr = c; non_public_override = n; broad_range_override = b })
          | _ ↦ none
        ]
        | _ ↦ none
      ]
      | _ ↦ none
    ]
    else none

-- The part of `normalize_cidr` behind the parser.
unfoldable pub normalize_network : String → Bool → Bool → Network → Checked (String × Bool × Bool)
normalize_network value allow_non_public allow_broad_range n = do
  raise_if (not (str_eq value n.text) || n.prefixlen == 0) (stop "source_cidr_not_canonical" 64)
  raise_if (is_non_public n && not allow_non_public)
      (stop "source_cidr_non_public_requires_override" 64)
  raise_if (is_broad n && not allow_broad_range)
      (stop "source_cidr_broad_range_requires_override" 64)
  ok (n.text, is_non_public n, is_broad n)

-- The test of the loop: the text is not canonical, a flag is wrong, or the order is.
unfoldable pub clashes : Option Key → Source → String × Bool × Bool → Network → Bool
clashes previous s c n =
    not (str_eq c.0 s.cidr)
    || differ s.non_public_override c.1
    || differ s.broad_range_override c.2
    || elim previous [ none ↦ false | some p ↦ key_leb (key n) p ]

module _ (ip_network : Parser) where
  unfoldable pub normalize_cidr : String → Bool → Bool → Checked (String × Bool × Bool)
  normalize_cidr value allow_non_public allow_broad_range = elim (ip_network value) [
    | none ↦ err (stop "source_cidr_invalid" 64)
    | some n ↦ normalize_network value allow_non_public allow_broad_range n
  ]

  -- `ipaddress.ip_network(value)` outside every `try`.
  unfoldable pub network_of : String → Checked Network
  network_of value = elim (ip_network value) [ none ↦ err crash | some n ↦ ok n ]

  -- `any(network.overlaps(ip_network(source["cidr"])) for source in sources)`
  unfoldable pub overlaps_any : Network → List Source → Checked Bool
  overlaps_any n [] = ok false
  overlaps_any n (s ∷ ss) =
      let rest = overlaps_any n ss in
      do m ← network_of s.cidr; if overlaps n m then ok true else rest

  -- The loop's body behind `normalize_cidr`: the key and the entry.
  unfoldable pub enter :
      Option Key → List Source → Source → String × Bool × Bool → Network → Checked (Key × Source)
  enter previous sources s c n = do
    raise_if (clashes previous s c n) invalid
    overlapping ← overlaps_any n sources
    raise_if overlapping (stop "source_manifest_overlapping_cidrs" 65)
    ok (
      key n,
      record {
        cidr = c.0;
        non_public_override = s.non_public_override;
        broad_range_override = s.broad_range_override;
      },
    )

  -- The loop's body behind the checks of the item's type.
  unfoldable pub check_source : Option Key → List Source → Source → Checked (Key × Source)
  check_source previous sources s = do
    c ← normalize_cidr s.cidr s.non_public_override s.broad_range_override
    n ← network_of c.0
    enter previous sources s c n

  unfoldable pub check_item : Option Key → List Source → Item → Checked (Key × Source)
  check_item previous sources item = elim (fields_of item) [
    | none ↦ err invalid
    | some s ↦ check_source previous sources s
  ]

  -- The loop over the items, with `previous` and `sources`.
  unfoldable pub check_items : Option Key → List Source → List Item → Checked (List Source)
  check_items previous sources [] = ok sources
  check_items previous sources (item ∷ rest) = do
    r ← check_item previous sources item
    check_items (some r.0) (sources ++ (r.1 ∷ [])) rest

  -- The member `sources`, under the mode.
  unfoldable pub read_sources : String → Option Value → Checked Manifest
  read_sources mode (some (items is)) = do
    ss ← check_items none [] is
    ok (record { mode = mode; sources = ss })
  read_sources mode _ = err invalid

  unfoldable pub validate_document : Json → Checked Manifest
  validate_document Json.no_object = err invalid
  validate_document (object d) = do
    raise_if (not (has_keys d ("schema_version" ∷ "mode" ∷ "sources" ∷ []))) invalid
    raise_if (not (equals (lookup "schema_version" d) 2)) invalid
    known ← in_texts (lookup "mode" d) modes
    raise_if (not known) invalid
    read_sources (text_of (lookup "mode" d)) (lookup "sources" d)

abbrev pub item_of : Source → Item
item_of s = entry (
    ("cidr", text s.cidr)
    ∷ ("non_public_override", bool s.non_public_override)
    ∷ ("broad_range_override", bool s.broad_range_override)
    ∷ [])

-- The document of a manifest, as `json.loads` gives what `encode_document` wrote.
unfoldable pub document_of : Manifest → Json
document_of m = object (
    ("schema_version", scalar (number 2))
    ∷ ("mode", scalar (text m.mode))
    ∷ ("sources", items (map item_of m.sources))
    ∷ [])

-- The document that `list` prints for a manifest.
unfoldable pub listing_document : Manifest → Json
listing_document m = object (
    ("schema_version", scalar (number 1))
    ∷ ("command", scalar (text "firewall source list"))
    ∷ ("status", scalar (text "pass"))
    ∷ ("mode", scalar (text m.mode))
    ∷ ("sources", items (map item_of m.sources))
    ∷ [])
