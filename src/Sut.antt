-- ===== src/Sut.antt =====
-- `BuildSUT` of pkg/k8s/kubernetes.go: what it is given, and what it makes of the scenario.
pub mod Commands
pub mod Params
pub mod Build
pub mod Ready
pub mod Separate
use k8s_netperf.Prelude.{
  ℕ, String, Bool, true, false, Option, none, some, List, [], ◌∷◌, Result, ok, err,
}
use k8s_netperf.Metrics.Types.{NodeInfo}
use k8s_netperf.Cluster.Networks.{NetworkStatus}
use k8s_netperf.Cluster.Services as Services
use k8s_netperf.Cluster.Deployments as Deployments
use k8s_netperf.Cluster.Zones.{Zones}
use k8s_netperf.Vms
use k8s_netperf.Vms.Create as Create
use k8s_netperf.Vms.Connect as Connect
use k8s_netperf.Vms.Configure as Configure
use k8s_netperf.Workload.{PerfScenarios}

-- The fields of `PerfScenarios` that only pkg/k8s reads.
pub record Options : Type 0 where
  pub host_network_only : Bool
  pub privileged : Bool
  pub ib_write_bw_params : String
  pub bridge_client_network : String
  pub vm_image : String
  pub sockets : ℕ
  pub cores : ℕ
  pub threads : ℕ

-- The scenario with the fields that tell how to reach the client's machine.
pub record Built : Type 0 where
  pub scenario : PerfScenarios
  pub vm_host : String
  pub vm_name : String

pub data Error : Type 0 where
  few_zones no_nodes few_nodes no_node_info bad_ib_params panic : Error
  deployment_failed : Deployments.Error → Error
  service_failed : Services.Error → Error
  vm_failed : Create.Error → Error
  vm_not_running : Connect.Error → Error
  vm_not_configured : Configure.Error → Error

-- What the cluster answers. `zone_labels` are those of the worker nodes; `iterated` is a map in the
-- order of its iteration; `nodes_of` are the running pods with a label, by their nodes.
pub record Api : Type 0 where
  pub deployments : Deployments.Api
  pub services : Services.Api
  pub machines : Create.Api
  pub zone_labels : Option (List String)
  pub iterated : Zones → Zones
  pub labeled : Bool
  pub worker_count : Option ℕ
  pub nodes_of : String → Option (List NodeInfo)
  pub readable : NodeInfo → Bool
  pub vmi_events : String → Option (List Connect.Event)
  pub vmi_replies : String → Configure.Replies
  pub decode : String → Option (List NetworkStatus)

abbrev pub no_info : NodeInfo
no_info = record { ip = ""; node_name = "" }

-- `GetPodNodeInfo`: the first pod's node, and whether the error is nil. No pod is an index out of
-- range.
unfoldable pub get_pod_node_info : Api → String → Result Error (NodeInfo × Bool)
get_pod_node_info api label = elim (api.nodes_of label) [
  | none ↦ ok (no_info, false)
  | some [] ↦ err panic
  | some (info ∷ _) ↦ ok (info, api.readable info)
]

-- Where the error is returned.
unfoldable pub node_info : Api → String → Result Error NodeInfo
unfolding get_pod_node_info
node_info api label = elim (get_pod_node_info api label) [
  | err e ↦ err e
  | ok (info, fine) ↦ elim fine [ true ↦ ok info | false ↦ err no_node_info ]
]

-- Where it is dropped.
unfoldable pub node_info_anyway : Api → String → Result Error NodeInfo
unfolding get_pod_node_info
node_info_anyway api label = elim (get_pod_node_info api label) [
  | err e ↦ err e
  | ok (info, _) ↦ ok info
]
