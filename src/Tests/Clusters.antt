-- ===== src/Tests/Clusters.antt =====
-- Services, zones and addresses of a cluster.
use k8s_netperf.Prelude.{
  String, true, false, not, ◌&&◌, some, List, [], ◌∷◌, ◌≡◌, ◌⊎◌, refl, ok, err,
}
use k8s_netperf.Cluster.{Pod}
use k8s_netperf.Cluster.Networks.{NetworkStatus, not_found, extract_ip}
use k8s_netperf.Cluster.Networks.Addresses.{IsListed, extract_ip_decoded}
use k8s_netperf.Cluster.Zones.{get_zone, across_az}
use k8s_netperf.Cluster.Zones.Counts.{distinct, across_az-get_zone}

across_az-get_zone_example :
    across_az false (get_zone (some ("a" ∷ "b" ∷ "a" ∷ [])))
    ≡ (not false && distinct [] ("a" ∷ "b" ∷ "a" ∷ []))
across_az-get_zone_example =
    across_az-get_zone false "a" ("b" ∷ "a" ∷ []) (refl, (refl, (refl, tt)))

-- Two networks of a pod, the second with an address of either kind.
abbrev statuses : List NetworkStatus
statuses =
    record { name = "ovn"; interface = "eth0"; ips = "10.1.0.7" ∷ []; default = true }
    ∷ record {
      name = "netperf/sriov-netperf";
      interface = "net1";
      ips = "fd00::7" ∷ "192.168.5.7" ∷ [];
      default = false;
    }
    ∷ []

abbrev annotated : Pod
annotated = record { name = "server"; annotation = λ _. "networks"; pod_ip = "10.1.0.7" }

extract_ip_decoded_example :
    ((ip : String) × (extract_ip (λ _. some statuses) annotated "netperf/sriov-netperf" ≡ ok ip)
      × IsListed "netperf/sriov-netperf" statuses ip)
    ⊎ ((extract_ip (λ _. some statuses) annotated "netperf/sriov-netperf" ≡ err not_found)
        × ((ip : String) → ¬ IsListed "netperf/sriov-netperf" statuses ip))
extract_ip_decoded_example =
    extract_ip_decoded (λ _. some statuses) annotated "netperf/sriov-netperf" statuses refl refl
