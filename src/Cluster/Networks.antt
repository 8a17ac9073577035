-- ===== src/Cluster/Networks.antt =====
-- The network annotations that the pods of pkg/k8s/kubernetes.go get, and the addresses that it
-- reads back from theirs.
pub mod Addresses
use k8s_netperf.Prelude.{
  String, ◌<>◌, Bool, true, false, not, ◌&&◌, if◌then◌else◌, ◌==◌, Option, none, some, List, [],
  ◌∷◌, Result, ok, err, ◌>>=◌,
}
use k8s_netperf.Prelude.Text.{contains, is_empty}
use k8s_netperf.Cluster.{Pod, namespace, cudn_name, sriov_nad_name, macvlan_nad_name}

-- The map of annotations has at most the key "k8s.v1.cni.cncf.io/networks": its value, if any.
unfoldable pub bridge_annotations : String → String → Option String
bridge_annotations network ns =
    if not (is_empty network) && not (is_empty ns) then some (ns <> "/" <> network) else none

unfoldable pub cudn_annotations : String → Option String
cudn_annotations cudn = if not (is_empty cudn) then some (namespace <> "/" <> cudn) else none

unfoldable pub sriov_annotations : Option String
sriov_annotations = some (namespace <> "/" <> sriov_nad_name)

unfoldable pub macvlan_annotations : Option String
macvlan_annotations = some (namespace <> "/" <> macvlan_nad_name)

-- The choice of `BuildSUT` among them, by the fields of the scenario.
unfoldable pub network_annotations : String → String → Bool → String → String → Option String
unfolding bridge_annotations cudn_annotations sriov_annotations macvlan_annotations
network_annotations bridge bridge_ns cudn sriov macvlan =
    if not (is_empty bridge)
    then bridge_annotations bridge bridge_ns
    else if cudn
    then cudn_annotations cudn_name
    else if not (is_empty sriov)
    then sriov_annotations
    else if not (is_empty macvlan)
    then macvlan_annotations
    else none

-- An element of the array in the annotation "k8s.v1.cni.cncf.io/network-status".
pub record NetworkStatus : Type 0 where
  pub name : String
  pub interface : String
  pub ips : List String
  pub default : Bool

pub data Error : Type 0 where
  no_annotation bad_json not_found bad_cidr : Error

unfoldable pub first_ipv4 : List String → Option String
first_ipv4 [] = none
first_ipv4 (ip ∷ ips) = let rest = first_ipv4 ips in if contains ip "." then some ip else rest

unfoldable pub find_ip : String → List NetworkStatus → Option String
unfolding first_ipv4
find_ip expected [] = none
find_ip expected (s ∷ statuses) =
    let rest = find_ip expected statuses in
    if s.name == expected then elim (first_ipv4 s.ips) [ some ip ↦ some ip | none ↦ rest ] else rest

found : Option String → Result Error String
found none = err not_found
found (some ip) = ok ip

decoded : Option (List NetworkStatus) → String → Result Error String
unfolding find_ip found
decoded none expected = err bad_json
decoded (some statuses) expected = found (find_ip expected statuses)

module _ (decode : String → Option (List NetworkStatus)) where
  -- What the three functions below share, written three times in the code.
  unfoldable pub extract_ip : Pod → String → Result Error String
  unfolding decoded
  extract_ip pod expected =
      let status = pod.annotation "k8s.v1.cni.cncf.io/network-status" in
      if is_empty status then err no_annotation else decoded (decode status) expected

  unfoldable pub extract_macvlan_ip : Pod → Result Error String
  extract_macvlan_ip pod = extract_ip pod (namespace <> "/" <> macvlan_nad_name)

  unfoldable pub extract_sriov_ip : Pod → Result Error String
  extract_sriov_ip pod = extract_ip pod (namespace <> "/" <> sriov_nad_name)

  unfoldable pub extract_bridge_ip : Pod → String → String → Result Error String
  extract_bridge_ip pod network ns = extract_ip pod (ns <> "/" <> network)

-- Each address with a dot is parsed, and the last one stays. A nil `net.IP` prints as "<nil>".
module _ (parse_cidr : String → Option String) where
  unfoldable pub last_ipv4 : String → List String → Result Error String
  last_ipv4 ipv4 [] = ok ipv4
  last_ipv4 ipv4 (ip ∷ ips) =
      if contains ip "."
      then elim (parse_cidr ip) [ none ↦ err bad_cidr | some v ↦ last_ipv4 v ips ]
      else last_ipv4 ipv4 ips

  -- `decode_root` gives the raw value of a key, "" for one that is missing, and `decode_data` the
  -- field `ip_addresses` of a `PodNetworksData`.
  unfoldable pub extract_udn_ip :
      (String → Option (String → String))
      → (String → Option (List String))
      → Pod
      → String
      → Result Error String
  unfolding last_ipv4
  extract_udn_ip decode_root decode_data pod network =
      elim (decode_root (pod.annotation "k8s.ovn.org/pod-networks")) [
        | none ↦ err bad_json
        | some root ↦ elim (decode_data (root (namespace <> "/" <> network))) [
          | none ↦ err bad_json
          | some ips ↦ last_ipv4 "<nil>" ips
        ]
      ]
