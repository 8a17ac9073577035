-- ===== src/Sut/Params.antt =====
-- The parameters of the deployments that `BuildSUT` (pkg/k8s/kubernetes.go) makes.
use k8s_netperf.Prelude.{
  ℕ, String, ◌<>◌, Bool, true, false, not, ◌&&◌, if◌then◌else◌, ◌==◌, Option, none, some, List, [],
  ◌∷◌, ltb,
}
use k8s_netperf.Prelude.Text.{is_empty}
use k8s_netperf.Cluster.Networks.{network_annotations}
use k8s_netperf.Cluster.Zones.{Zones}
use k8s_netperf.Cluster.Deployments.{DeploymentParams}
use k8s_netperf.Cluster.Deployments.Affinity.{
  PodTerm, NodeAffinity, worker_nodes, same_host, zone_nodes, labeled_nodes,
}
use k8s_netperf.Sut.Commands.{bash}
use k8s_netperf.Workload.{PerfScenarios}

-- Where the pods go: the zone and its number of nodes, the other zone of `--across`, the number of
-- workers, and whether nodes have the labels of the tests.
pub record Placement : Type 0 where
  pub zone : String
  pub zone_nodes : ℕ
  pub across_zone : String
  pub workers : ℕ
  pub labeled : Bool

-- The first zone of the map that is not `zone`; "" without one.
unfoldable pub other_zone : String → Zones → String
other_zone zone [] = ""
other_zone zone ((z, n) ∷ zs) = let rest = other_zone zone zs in if z == zone then rest else z

abbrev pub workers_only : NodeAffinity
workers_only = record { required = some worker_nodes; preferred = [] }

module _ (privileged : Bool) (s : PerfScenarios) where
  network_of : Option String
  network_of =
      network_annotations s.bridge_network s.bridge_namespace s.cudn s.sriov_network
        s.macvlan_network

  resources_of : List (String × String)
  resources_of =
      if is_empty s.sriov_network then [] else ("openshift.io/" <> s.sriov_network, "1") ∷ []

  abbrev idle : List (List String)
  idle = bash "sleep 10000000" ∷ []

  -- The client for an external server.
  unfoldable pub external_client : DeploymentParams
  unfolding network_of resources_of
  external_client = record {
    host_network = false;
    privileged = privileged;
    name = "client";
    role = "client-local";
    commands = idle;
    pod_affinity = [];
    pod_anti_affinity = [];
    node_affinity = workers_only;
    port = 12865;
    network_annotation = network_of;
    resource_requests = resources_of;
  }

  -- The client of `--local`: the preference for a zone is assigned and overwritten.
  unfoldable pub local_client : DeploymentParams
  local_client = record external_client { host_network = s.host_network }

  unfoldable pub client_across : Placement → DeploymentParams
  client_across p = record external_client {
    name = "client-across";
    role = "client-across";
    pod_anti_affinity = same_host "client-local";
    node_affinity =
        if is_empty p.zone
        then labeled_nodes "client"
        else if ltb 1 p.zone_nodes
        then record {
          required = some worker_nodes;
          preferred = zone_nodes p.labeled p.zone "client";
        }
        else workers_only;
  }

  -- The client on the host network, as it is deployed.
  unfoldable pub client_host : Placement → DeploymentParams
  client_host p = record {
    host_network = true;
    privileged = privileged;
    name = "client-host";
    role = "host-client";
    commands = idle;
    pod_affinity = [];
    pod_anti_affinity = same_host "client-local";
    node_affinity = record {
      required = some worker_nodes;
      preferred = zone_nodes p.labeled p.zone "client";
    };
    port = 12865;
    network_annotation = none;
    resource_requests = [];
  }

  unfoldable pub server_nodes : Placement → NodeAffinity
  server_nodes p =
      if is_empty p.zone
      then labeled_nodes "server"
      else if ltb 1 p.zone_nodes
      then record {
        required = some worker_nodes;
        preferred = zone_nodes p.labeled (if s.across_az then p.across_zone else p.zone) "server";
      }
      else workers_only

  -- The rule that keeps a server from the host of a client.
  away_from : Placement → String → List PodTerm
  away_from p role = if ltb 1 p.workers && not s.node_local then same_host role else []

  unfoldable pub server : Placement → List (List String) → DeploymentParams
  unfolding network_of resources_of away_from server_nodes
  server p commands = record {
    host_network = s.node_local && s.host_network;
    privileged = privileged;
    name = "server";
    role = "server";
    commands = commands;
    pod_affinity = if s.node_local then same_host "client-local" else [];
    pod_anti_affinity = away_from p "client-across";
    node_affinity = server_nodes p;
    port = 12865;
    network_annotation = network_of;
    resource_requests = resources_of;
  }

  unfoldable pub server_host : Placement → List (List String) → DeploymentParams
  unfolding away_from server_nodes
  server_host p commands = record {
    host_network = true;
    privileged = privileged;
    name = "server-host";
    role = "host-server";
    commands = commands;
    pod_affinity = [];
    pod_anti_affinity = away_from p "host-client";
    node_affinity = server_nodes p;
    port = 12865;
    network_annotation = none;
    resource_requests = [];
  }
