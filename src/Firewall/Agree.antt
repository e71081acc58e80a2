-- ===== src/Firewall/Agree.antt =====
-- The command line accepts the listing of every valid manifest.
use kitdev_sandboxes.Base.{◌≡◌, false, some, List, [], ◌∷◌, any, All}
use kitdev_sandboxes.Firewall.Networks.{Network, Parser, overlaps, Source}
use kitdev_sandboxes.Firewall.Manifest.{listing_document, Manifest}
use kitdev_sandboxes.Firewall.Client.{Completed}
use kitdev_sandboxes.Firewall.Valid.{IsCanonical}

-- A process that prints the listing of a manifest.
abbrev pub prints : Manifest → Completed
prints m = record { returncode = 0; stderr = []; stdout = some (listing_document m) }

module _ (ip_network : Parser) where
  -- The networks of canonical entries.
  networks : (ss : List Source) → All (IsCanonical ip_network) ss → List Network
  networks [] h = []
  networks (s ∷ ss) ((n, _), h) = n ∷ networks ss h

  -- No network of the entries overlaps one of these.
  Clear : List Network → (ss : List Source) → All (IsCanonical ip_network) ss → Type 0
  Clear ns [] h = Unit
  Clear ns (s ∷ ss) ((n, _), h) = (any (overlaps n) ns ≡ false) × Clear ns ss h
