-- ===== src/Cluster.antt =====
-- pkg/k8s/kubernetes.go: what the program makes of the cluster's services, networks and zones.
pub mod Services
pub mod Networks
pub mod Zones
pub mod Polling
pub mod Objects
pub mod Infra
pub mod Deployments
use k8s_netperf.Prelude.{String, List}

-- A `corev1.Pod`, by what the program reads. A missing annotation is "".
pub record Pod : Type 0 where
  pub name : String
  pub annotation : String → String
  pub pod_ip : String

abbrev pub namespace : String
namespace = "netperf"

abbrev pub udn_name : String
udn_name = "udn-primary-netperf"

abbrev pub cudn_name : String
cudn_name = "cudn-secondary-netperf"

abbrev pub sriov_nad_name : String
sriov_nad_name = "sriov-netperf"

abbrev pub macvlan_nad_name : String
macvlan_nad_name = "macvlan-netperf"
