-- ===== src/Scenario.antt =====
-- The scenario that `Run` (cmd/k8s-netperf/k8s-netperf.go) makes of its flags for `BuildSUT`, with
-- the network of the VMs that it reads from a file.
pub mod Served
pub mod Machines
pub mod Stops
use k8s_netperf.Prelude.{
  ℕ, String, Bool, true, false, not, ◌&&◌, ◌||◌, if◌then◌else◌, Option, none, some, List, [],
  Result, ok, err,
}
use k8s_netperf.Config.{Config}
use k8s_netperf.Cluster.Services.{no_services}
use k8s_netperf.Flags.{Flags, is_set, requested_drivers}
use k8s_netperf.Sut.{Options, Built, no_info}
use k8s_netperf.Workload.{PerfScenarios}

-- `BridgeNetworkConfig` of pkg/config/config.go.
pub record BridgeNetworkConfig : Type 0 where
  pub bridge_server_network : String
  pub bridge_client_network : String

pub data Error : Type 0 where
  not_opened not_read bad_json : Error

-- Opening the file and reading it may each fail.
unfoldable pub parse_network_config :
    (String → Option (Option String))
    → (String → Option BridgeNetworkConfig)
    → String
    → Result Error (String × String)
parse_network_config open_file unmarshal json_file = elim (open_file json_file) [
  | none ↦ err not_opened
  | some none ↦ err not_read
  | some (some content) ↦ elim (unmarshal content) [
    | none ↦ err bad_json
    | some net ↦ ok (net.bridge_server_network, net.bridge_client_network)
  ]
]

-- The flags that only this part reads.
pub record Choices : Type 0 where
  pub full : Bool
  pub node_local : Bool
  pub server_ip : String
  pub bridge_namespace : String
  pub bridge_network : String
  pub udn_plugin_binding : String
  pub vm_image : String
  pub sockets : ℕ
  pub cores : ℕ
  pub threads : ℕ

module _ (open_file : String → Option (Option String))
    (unmarshal : String → Option BridgeNetworkConfig) (f : Flags) (c : Choices) where
  -- The two addresses of the VMs on a bridge; an error is only logged.
  unfoldable pub bridge_networks : String × String
  unfolding parse_network_config
  bridge_networks =
      if f.vm && is_set f.bridge
      then elim (parse_network_config open_file unmarshal c.bridge_network) [
        | ok found ↦ found
        | err _ ↦ ("", "")
      ]
      else ("", "")

  -- `acrossAZ` is the local variable of `Run` here, not the flag `--across`: it is still false.
  unfoldable pub scenario_of : List Config → PerfScenarios
  unfolding bridge_networks
  scenario_of configs = record {
    node_local = c.node_local;
    across_az = false;
    host_network = c.full || f.host_net_only;
    external_server = is_set c.server_ip;
    configs = configs;
    pod = f.pod;
    vm = f.vm;
    udn = f.udnl2 || f.udnl3;
    cudn = is_set f.cudn;
    udn_plugin_binding = if f.vm && (f.udnl2 || f.udnl3) then c.udn_plugin_binding else "";
    bridge_network = f.bridge;
    bridge_namespace = c.bridge_namespace;
    bridge_server_network = bridge_networks.0;
    sriov_network = f.sriov;
    macvlan_network = f.macvlan;
    requested_drivers = requested_drivers f;
    server_node_info = no_info;
    client_node_info = no_info;
    client = [];
    server = [];
    vm_server = [];
    client_across = [];
    vm_client_across = [];
    client_host = [];
    server_host = [];
    services = no_services;
  }

  -- The other fields of `PerfScenarios`.
  unfoldable pub options_of : Options
  unfolding bridge_networks
  options_of = record {
    host_network_only = f.host_net_only;
    privileged = f.privileged;
    ib_write_bw_params = elim f.ib_write_bw [ none ↦ "" | some nic ↦ nic ];
    bridge_client_network = bridge_networks.1;
    vm_image = if f.vm then c.vm_image else "";
    sockets = c.sockets;
    cores = c.cores;
    threads = c.threads;
  }

  unfoldable pub initial : List Config → Built
  unfolding scenario_of
  initial configs = record { scenario = scenario_of configs; vm_host = ""; vm_name = "" }
