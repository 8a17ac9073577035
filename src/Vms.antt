-- ===== src/Vms.antt =====
-- pkg/k8s/kubevirt.go: the virtual machines of the client and the server.
pub mod Networks
pub mod CloudInit
pub mod Create
pub mod Connect
pub mod Configure
use k8s_netperf.Prelude.{ℕ, String, Bool, List}
use k8s_netperf.Cluster.Deployments.Affinity.{PodTerm, NodeAffinity}
use Networks.{Interface, Network}

-- A `VirtualMachineInstance` by what the program sets. The texts for cloud-init are given before
-- their encoding.
pub record Vmi : Type 0 where
  pub name : String
  pub labels : List (String × String)
  pub pod_anti_affinity : List PodTerm
  pub node_affinity : NodeAffinity
  pub grace_period : ℕ
  pub requests : List (String × String)
  pub sockets : ℕ
  pub cores : ℕ
  pub threads : ℕ
  pub disk_bus : String
  pub interfaces : List Interface
  pub networks : List Network
  pub image : String
  pub user_data : String
  pub network_data : String

-- What the scenario says of the machines and their networks.
pub record Options : Type 0 where
  pub image : String
  pub udn : Bool
  pub udn_plugin_binding : String
  pub cudn : Bool
  pub sriov_network : String
  pub sockets : ℕ
  pub cores : ℕ
  pub threads : ℕ
