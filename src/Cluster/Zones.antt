-- ===== src/Cluster/Zones.antt =====
-- `GetZone` of pkg/k8s/kubernetes.go, and the test of `Run` on what it returns.
pub mod Counts
use k8s_netperf.Prelude.{
  ℕ, zero, suc, ◌+◌, String, Bool, true, false, ◌||◌, if◌then◌else◌, ◌==◌, Option, none, some, List,
  [], ◌∷◌, leb, Result, ok, err,
}
use k8s_netperf.Prelude.Text.{is_empty}

-- The map of node counts.
abbrev pub Zones : Type 0
Zones = List (String × ℕ)

-- `zones[key]`, which is 0 for a missing key.
unfoldable pub count_of : String → Zones → ℕ
count_of key [] = 0
count_of key ((z, n) ∷ zs) = let rest = count_of key zs in if z == key then n else rest

unfoldable pub has_key : String → Zones → Bool
has_key key [] = false
has_key key ((z, n) ∷ zs) = (z == key) || has_key key zs

-- `zones[key]++` on a key of the map.
unfoldable pub increment : String → Zones → Zones
increment key [] = []
increment key ((z, n) ∷ zs) =
    let rest = increment key zs in if z == key then (z, suc n) ∷ zs else (z, n) ∷ rest

pub record Scan : Type 0 where
  pub zones : Zones
  pub zone : String
  pub lz : String

-- The loop over the zone labels of the nodes.
unfoldable pub scan_nodes : Scan → List String → Option Scan
unfolding has_key increment
scan_nodes t [] = some t
scan_nodes t (label ∷ labels) =
    if is_empty label
    then none
    else if has_key label t.zones
    then scan_nodes (record t { zone = label; zones = increment label t.zones }) labels
    else scan_nodes (record t { lz = label; zones = (label, 1) ∷ t.zones }) labels

abbrev pub no_zones : Scan
no_zones = record { zones = []; zone = ""; lz = "" }

-- `none` for the nodes is a failed query, and for the result an error.
unfoldable pub get_zone : Option (List String) → Option (String × Zones)
unfolding scan_nodes
get_zone none = none
get_zone (some labels) = elim (scan_nodes no_zones labels) [
  | none ↦ none
  | some t ↦ some (if is_empty t.zone then t.lz else t.zone, t.zones)
]

is_nil : Zones → Bool
is_nil [] = true
is_nil (z ∷ zs) = false

-- The variable `acrossAZ` of `Run`.
unfoldable pub across_az : Bool → Option (String × Zones) → Bool
unfolding is_nil count_of
across_az node_local none = false
across_az node_local (some (lz, zones)) =
    if node_local || is_nil zones then false else leb (count_of lz zones) 1
