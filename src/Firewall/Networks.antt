-- ===== src/Firewall/Networks.antt =====
-- Networks as `ipaddress` gives them, JSON documents as far as the code tells values apart, and the
-- entries of the allowlist.
use kitdev_sandboxes.Base.{
  ℕ, ◌+◌, ◌-◌, ◌^◌, String, Bool, true, false, not, ◌&&◌, ◌||◌, Option, some, List, [], ◌∷◌, map,
  leb, ltb, ◌==◌, if◌then◌else◌, all,
}
use kitdev_sandboxes.Base.Dict.{Dict}
use kitdev_sandboxes.Base.Errors.{Result}
use kitdev_sandboxes.Base.Strings.{str_mem}

-- What the code reads off an `IPv4Network` or `IPv6Network`; `text` is `str(network)`.
pub record Network : Type 0 where
  pub version : ℕ
  pub network_address : ℕ
  pub prefixlen : ℕ
  pub text : String
  pub is_global : Bool
  pub is_private : Bool
  pub is_loopback : Bool
  pub is_link_local : Bool
  pub is_multicast : Bool
  pub is_reserved : Bool
  pub is_unspecified : Bool

-- `ipaddress.ip_network(value, strict=True)`; none is a `ValueError`.
abbrev pub Parser : Type 0
Parser = String → Option Network

abbrev pub broadcast_address : Network → ℕ
broadcast_address n =
    n.network_address + 2 ^ ((if n.version == 4 then 32 else 128) - n.prefixlen) - 1

-- `address in network`
abbrev pub holds : Network → ℕ → ℕ → Bool
holds n version address =
    version == n.version && leb n.network_address address && leb address (broadcast_address n)

-- `network.overlaps(other)`
unfoldable pub overlaps : Network → Network → Bool
overlaps n m =
    holds n m.version m.network_address
    || holds n m.version (broadcast_address m)
    || holds m n.version n.network_address
    || holds m n.version (broadcast_address n)

abbrev pub Key : Type 0
Key = ℕ × ℕ × ℕ

abbrev pub key : Network → Key
key n = (n.version, n.network_address, n.prefixlen)

-- `a <= b` on keys.
unfoldable pub key_leb : Key → Key → Bool
key_leb (v, a, p) (w, b, q) = ltb v w || (v == w && (ltb a b || (a == b && leb p q)))

unfoldable pub is_non_public : Network → Bool
is_non_public n =
    not n.is_global
    || n.is_private
    || n.is_loopback
    || n.is_link_local
    || n.is_multicast
    || n.is_reserved
    || n.is_unspecified

unfoldable pub is_broad : Network → Bool
is_broad n = ltb n.prefixlen (if n.version == 4 then 24 else 64)

-- A JSON scalar. A number is given by the natural number that it equals; `other` equals none of the
-- values that the code compares with, and `compound` is a list or an object.
pub data Scalar : Type 0 where
  text : String → Scalar
  bool : Bool → Scalar
  number : ℕ → Scalar
  other compound : Scalar

-- An element of the list of sources: an object, or what is none.
pub data Item : Type 0 where
  entry : Dict Scalar → Item
  no_object : Item

-- A member of the document: a list of items, or anything else.
pub data Value : Type 0 where
  items : List Item → Value
  scalar : Scalar → Value

-- The parsed text: an object, or what is none.
pub data Json : Type 0 where
  object : Dict Value → Json
  no_object : Json

pub record Source : Type 0 where
  pub cidr : String
  pub non_public_override : Bool
  pub broad_range_override : Bool

-- `set(document) == {…}`
abbrev pub has_keys {ℓ} : {V : Type ℓ} → Dict V → List String → Bool
has_keys d ks = all (λ k. str_mem k (map (λ e. e.0) d)) ks && all (λ e. str_mem e.0 ks) d

-- `value == n` for a natural number; a Boolean equals 0 or 1.
abbrev pub equals : Option Value → ℕ → Bool
equals (some (scalar (number m))) n = m == n
equals (some (scalar (bool b))) n = (if b then 1 else 0) == n
equals _ n = false

-- `a != b` on Booleans.
abbrev pub differ : Bool → Bool → Bool
differ true b = not b
differ false b = b

-- The fields of an object that is an entry.
unfoldable pub source_keys : List String
source_keys = "cidr" ∷ "non_public_override" ∷ "broad_range_override" ∷ []

unfoldable pub modes : List String
modes = "closed" ∷ "public" ∷ "restricted" ∷ []

-- An exit of the script with a reason and a code (`die`, `FirewallSourceOperationError`), or any
-- other exception.
pub data Failure : Type 0 where
  stop : String → ℕ → Failure
  crash : Failure

abbrev pub Checked : Type 0 → Type 0
Checked = Result Failure
