-- ===== src/Workload.antt =====
-- cmd/k8s-netperf/k8s-netperf.go: the tests that `Run` makes and how each is run.
pub mod Server
pub mod Samples
pub mod Execute
pub mod Plan
pub mod Run
pub mod Stops
use k8s_netperf.Prelude.{String, Bool, Option, none, some, List, [], ◌∷◌}
use k8s_netperf.Config.{Config}
use k8s_netperf.Cluster.{Pod}
use k8s_netperf.Cluster.Services.{Services}
use k8s_netperf.Metrics.Types.{NodeInfo}

-- `PerfScenarios` of pkg/config/config.go, without its clients and what only pkg/k8s reads.
pub record PerfScenarios : Type 0 where
  pub node_local : Bool
  pub across_az : Bool
  pub host_network : Bool
  pub external_server : Bool
  pub configs : List Config
  pub pod : Bool
  pub vm : Bool
  pub udn : Bool
  pub cudn : Bool
  pub udn_plugin_binding : String
  pub bridge_network : String
  pub bridge_namespace : String
  pub bridge_server_network : String
  pub sriov_network : String
  pub macvlan_network : String
  pub requested_drivers : List String
  pub server_node_info : NodeInfo
  pub client_node_info : NodeInfo
  pub client : List Pod
  pub server : List Pod
  pub vm_server : List Pod
  pub client_across : List Pod
  pub vm_client_across : List Pod
  pub client_host : List Pod
  pub server_host : List Pod
  pub services : Services

-- How the program ends early: `log.Fatal`, or a nil pointer or an index out of range.
pub data Stop : Type 0 where
  bad_udn_ip bad_sriov_ip bad_bridge_ip no_bridge_network bad_macvlan_ip : Stop
  unknown_driver run_failed unsuccessful panic : Stop
