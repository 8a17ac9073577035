-- ===== src/Tests/Deployed.antt =====
-- A cluster in which everything is accepted.
use k8s_netperf.Prelude.{
  true, false, none, some, List, [], ◌∷◌, All, ◌≡◌, ◌≢◌, refl, ◌↔◌, Result, ok, err, ltb,
  if◌then◌else◌, any, ◌==◌, String, subst, arith,
}
use k8s_netperf.Cluster.Services.{Service}
use k8s_netperf.Cluster.Services as Services
use k8s_netperf.Cluster.Objects.{Object, Server, nil}
use k8s_netperf.Cluster.Infra.{
  Answers, no_infra, with_namespace, with_account, with_binding, build_infra,
}
use k8s_netperf.Cluster.Infra.Built.{IsBuilt, build_infra-IsBuilt}
use k8s_netperf.Cluster.Deployments.{Event, deployment, wait_for_ready}
use k8s_netperf.Cluster.Deployments as Deployments
use k8s_netperf.Cluster.Deployments.Waits.{IsSeen, wait_for_ready-eq-ok_iff}
use k8s_netperf.Flags.{Flags}
use k8s_netperf.Deploy as Deploy
use k8s_netperf.Deploy.{deploy_networks, cleanup_networks}
use k8s_netperf.Deploy.Cleaned.{IsCovered, deploy_networks-IsCovered}
use k8s_netperf.Vms.Create as Create
use k8s_netperf.Vms.Connect as Connect
use k8s_netperf.Vms.Connect.Waits.{is_running}
use k8s_netperf.Sut.{Options, Built, Api}
use k8s_netperf.Sut.Build.{build_sut}
use k8s_netperf.Sut.Ready.Chains.{Runs, Launches}
use k8s_netperf.Workload.{PerfScenarios}
use k8s_netperf.Sut.Params.{Placement, server, server_host}
use k8s_netperf.Sut.Separate.{Running, NodeLabels, IsScheduled, server-apart}
use k8s_netperf.Tests.Workloads.{flags, scenario, server_pod, node}

abbrev answers : Answers
answers = record {
  reads_namespace = true;
  reads_account = true;
  reads_binding = true;
  creates_namespace = true;
  creates_account = true;
  creates_binding = true;
}

build_infra-IsBuilt_example : IsBuilt false no_infra (build_infra answers false no_infra).0
unfolding build_infra with_namespace with_account with_binding
build_infra-IsBuilt_example = build_infra-IsBuilt answers false no_infra refl

-- Events of two deployments.
abbrev events : List Event
events = deployment "client" 1 ∷ deployment "server" 0 ∷ deployment "server" 1 ∷ []

wait_for_ready-eq-ok_iff_example :
    (wait_for_ready (some events) "server" ≡ ok tt) ↔ IsSeen "server" events
wait_for_ready-eq-ok_iff_example = wait_for_ready-eq-ok_iff "server" events

abbrev found : Object
found = record {
  api_version = "v1";
  kind = "any";
  name = "default";
  metadata_namespace = "";
  annotations = [];
  spec = nil;
}

abbrev cluster : Server
cluster = record { find = λ _ _ _. some found; accepts = λ _. true }

-- The flags of an SR-IOV network.
abbrev sriov : Flags
sriov = record flags { sriov = "ens1f0" }

abbrev options : Deploy.Options
options = record {
  bridge_namespace = "default";
  sriov_node_selector = "worker";
  nad_at = λ k. if ltb k 2 then none else some found;
}

deploy_networks-IsCovered_example :
    All (IsCovered (cleanup_networks cluster sriov).0) (deploy_networks cluster sriov options).0
deploy_networks-IsCovered_example = deploy_networks-IsCovered cluster cluster sriov options

-- Nothing is there yet, and all that is made runs.
abbrev deployments : Deployments.Api
deployments = record {
  ready_replicas = λ _. none;
  accepts = λ _. true;
  events = λ name. some (deployment name 1 ∷ []);
  running = λ _. some (server_pod ∷ []);
}

abbrev services : Services.Api
services = record {
  get = λ _. none;
  create = λ spec. some (record { spec = spec; cluster_ip = "172.30.0.9" });
}

abbrev machines : Create.Api
machines = record {
  home = some "/home/user";
  read_file = λ _. some "ssh-ed25519 key";
  accepts_vmi = λ _. true;
  accepts_service = λ _. true;
  created_route = λ _. some "route";
  find_route = λ _. some (Create.host "client.example.org");
}

abbrev pub api : Api
api = record {
  deployments = deployments;
  services = services;
  machines = machines;
  zone_labels = some ("a" ∷ "b" ∷ "a" ∷ []);
  iterated = λ zones. zones;
  labeled = false;
  worker_count = some 3;
  nodes_of = λ _. some (node ∷ []);
  readable = λ _. true;
  vmi_events = λ name. some (Connect.vmi name "Running" ∷ []);
  vmi_replies = λ _. record { probe = λ _. none; reply = λ _. none };
  decode = λ _. none;
}

abbrev wanted : Options
wanted = record {
  host_network_only = false;
  privileged = false;
  ib_write_bw_params = "";
  bridge_client_network = "";
  vm_image = "";
  sockets = 2;
  cores = 2;
  threads = 1;
}

-- Tests of pods on both networks, before anything is deployed.
abbrev before : Built
before = record {
  scenario = record scenario {
    client = [];
    server = [];
    client_across = [];
    client_host = [];
    server_host = [];
  };
  vm_host = "";
  vm_name = "";
}

abbrev or_before : {E : Type 0} → Result E Built → Built
or_before (ok b) = b
or_before (err _) = before

after : Built
unfolding build_sut
after = or_before (build_sut api wanted before)

seen_at_once :
    (name : String) (events : List Connect.Event)
    → some (Connect.vmi name "Running" ∷ []) ≡ some events
    → (name == name) ≡ true
    → any (is_running name) events ≡ true
seen_at_once name events e same =
    let listed : Connect.vmi name "Running" ∷ [] ≡ events = cc in
    subst (λ es. any (is_running name) es ≡ true) listed (ground (arith, same))

pub running_pods : Runs api
running_pods = record { deployed = λ dp pods _ _ e none_left. cc }

-- Both machines are seen running at once.
pub running_machines : Launches api
running_machines = record {
  launched = λ name events pods _ _ e none_left. cc;
  client_seen = λ events e. seen_at_once "client-across" events e refl;
  server_seen = λ events e. seen_at_once "vm-server" events e refl;
}

-- Three workers in two zones.
abbrev placement : Placement
placement = record { zone = "a"; zone_nodes = 2; across_zone = "b"; workers = 3; labeled = false }

abbrev pods : List Running
pods =
    record { role = "client-across"; node = "worker-0" }
    ∷ record { role = "host-client"; node = "worker-1" }
    ∷ []

-- Every node has its name as its host name.
abbrev labels : NodeLabels
labels node key = some node

server-apart_example :
    (IsScheduled labels (server false scenario placement []) "worker-2" pods
      → All (λ (q : Running). q.role ≡ "client-across" → q.node ≢ "worker-2") pods)
    × (IsScheduled labels (server_host false scenario placement []) "worker-2" pods
        → All (λ (q : Running). q.role ≡ "host-client" → q.node ≢ "worker-2") pods)
server-apart_example =
    server-apart labels false scenario placement [] "worker-2" "worker-2" pods refl refl refl

abbrev on_one_node : PerfScenarios
on_one_node = record scenario { node_local = true }

-- A local client, on the node on which the server is scheduled too.
abbrev local_pods : List Running
local_pods = record { role = "client-local"; node = "worker-0" } ∷ []
