-- ===== src/Firewall/Tests.antt =====
-- Changes of a small allowlist, and instances of the theorems on it. The parser knows two networks.
use kitdev_sandboxes.Base.{
  ℕ, ◌≡◌, refl, String, str_eq, Bool, true, false, Option, none, some, [], ◌∷◌, not, if◌then◌else◌,
}
use kitdev_sandboxes.Base.Dict.{lookup, insert}
use kitdev_sandboxes.Base.Errors.{ok, err}
use kitdev_sandboxes.Base.Sort.{insert_by, sort_by}
use kitdev_sandboxes.Base.Strings.{str_mem}
use kitdev_sandboxes.Firewall.Networks.{
  Network, overlaps, key_leb, is_non_public, is_broad, Source, source_keys, modes, stop,
}
use kitdev_sandboxes.Firewall.Manifest.{
  Manifest, normalize_cidr, normalize_network, network_of, overlaps_any, clashes, enter,
  check_source, check_item, check_items, read_sources, validate_document, document_of, fields_of,
}
use kitdev_sandboxes.Firewall.State.{holding, secure_read, sorted_sources, entries_of, candidate}
use kitdev_sandboxes.Firewall.Valid.{IsValid}
use kitdev_sandboxes.Firewall.Reads.{validate_document-IsValid}
use kitdev_sandboxes.Firewall.Changes.{listed, candidate-listed}

abbrev network : ℕ → ℕ → String → Bool → Network
network address prefixlen text is_global = record {
  version = 4;
  network_address = address;
  prefixlen = prefixlen;
  text = text;
  is_global = is_global;
  is_private = not is_global;
  is_loopback = false;
  is_link_local = false;
  is_multicast = false;
  is_reserved = false;
  is_unspecified = false;
}

unfoldable ip_network : String → Option Network
ip_network value =
    if str_eq value "8.8.8.0/24"
    then some (network 134744064 24 "8.8.8.0/24" true)
    else if str_eq value "10.0.0.0/16"
    then some (network 167772160 16 "10.0.0.0/16" false)
    else none

abbrev public_dns : Source
public_dns = record {
  cidr = "8.8.8.0/24";
  non_public_override = false;
  broad_range_override = false;
}

abbrev office : Source
office = record { cidr = "10.0.0.0/16"; non_public_override = true; broad_range_override = true }

abbrev one : Manifest
one = record { mode = "restricted"; sources = office ∷ [] }

abbrev two : Manifest
two = record { mode = "restricted"; sources = public_dns ∷ office ∷ [] }

validate_two : validate_document ip_network (document_of two) ≡ ok two
unfolding validate_document document_of lookup str_eq str_mem read_sources check_items check_item
    fields_of source_keys modes check_source normalize_cidr normalize_network network_of
    overlaps_any clashes enter overlaps key_leb is_non_public is_broad ip_network
validate_two = refl

validate_document-IsValid_example : IsValid ip_network two
validate_document-IsValid_example =
    validate_document-IsValid ip_network (document_of two) two validate_two

add_public : candidate ip_network (holding (document_of one)) true "8.8.8.0/24" false false ≡ ok two
unfolding validate_document document_of lookup str_eq str_mem read_sources check_items check_item
    fields_of source_keys modes check_source normalize_cidr normalize_network network_of
    overlaps_any clashes enter overlaps key_leb is_non_public is_broad ip_network candidate
    secure_read sorted_sources entries_of insert sort_by insert_by
add_public = refl

-- A broad private network needs both overrides.
add_office :
    candidate ip_network (holding (document_of one)) true "10.0.0.0/16" false true
    ≡ err (stop "source_cidr_non_public_requires_override" 64)
unfolding validate_document document_of lookup str_eq str_mem read_sources check_items check_item
    fields_of source_keys modes check_source normalize_cidr normalize_network network_of
    overlaps_any clashes enter overlaps key_leb is_non_public is_broad ip_network candidate
    secure_read sorted_sources entries_of insert sort_by insert_by
add_office = refl

candidate-listed_example :
    (m : Manifest) × (secure_read ip_network (holding (document_of one)) true ≡ ok m)
    × IsValid ip_network two
    × (two.mode ≡ m.mode)
    × (listed "8.8.8.0/24" two.sources
        ≡ (if str_eq "8.8.8.0/24" "8.8.8.0/24" then true else listed "8.8.8.0/24" m.sources))
candidate-listed_example =
    candidate-listed ip_network (holding (document_of one)) true "8.8.8.0/24" false false two
      "8.8.8.0/24" add_public
