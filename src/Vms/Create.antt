-- ===== src/Vms/Create.antt =====
-- `CreateVMI`, `CreateVMServer` and `CreateVMClient` of pkg/k8s/kubevirt.go, with the service and the
-- route to the client.
use k8s_netperf.Prelude.{
  ℕ, String, ◌<>◌, Bool, if◌then◌else◌, Option, none, some, List, [], ◌∷◌, ◌++◌, Result, ok, err,
  ◌>>=◌,
}
use k8s_netperf.Prelude.Text.{is_empty}
use k8s_netperf.Cluster.Deployments.Affinity.{PodTerm, NodeAffinity}
use k8s_netperf.Vms.{Vmi, Options}
use k8s_netperf.Vms.Networks.{Wiring, wiring}
use k8s_netperf.Vms.CloudInit.{client_script, server_script}

-- A service of the type NodePort, with one port.
pub record CommService : Type 0 where
  pub name : String
  pub node_port : ℕ
  pub port : ℕ
  pub target_port : ℕ
  pub selector : List (String × String)

pub record Route : Type 0 where
  pub name : String
  pub target_port : ℕ
  pub service : String
  pub weight : ℕ

-- A route that is read back: its field `spec`, and in it the field `host`, where they have the
-- expected types.
pub data Exposed : Type 0 where
  no_spec no_host : Exposed
  host : String → Exposed

-- `fatal` ends the program.
pub data Error : Type 0 where
  no_home no_key vmi_refused service_refused route_refused bad_route fatal : Error

-- The machine that the program runs on, and the server.
pub record Api : Type 0 where
  pub home : Option String
  pub read_file : String → Option String
  pub accepts_vmi : Vmi → Bool
  pub accepts_service : CommService → Bool
  pub created_route : Route → Option String
  pub find_route : String → Option Exposed

-- `if err != nil`, of a call that may fail.
from_option : {A : Type 0} → Error → Option A → Result Error A
from_option e none = err e
from_option e (some a) = ok a

unfoldable pub accepted : Error → Bool → Result Error (Unit {0})
accepted e b = if b then ok tt else err e

-- The resources that a machine asks for.
requests_of : String → List (String × String)
requests_of sriov_network =
    ("memory", "4096Mi")
    ∷ ("cpu", "500m")
    ∷ (if is_empty sriov_network then [] else ("openshift.io/" <> sriov_network, "1") ∷ [])

unfoldable pub vmi_of :
    Options → String → List (String × String) → String → Wiring → List PodTerm → NodeAffinity → Vmi
unfolding requests_of
vmi_of o name labels script w pods nodes = record {
  name = name;
  labels = labels ++ w.extra_labels;
  pod_anti_affinity = pods;
  node_affinity = nodes;
  grace_period = 0;
  requests = requests_of o.sriov_network;
  sockets = o.sockets;
  cores = o.cores;
  threads = o.threads;
  disk_bus = "virtio";
  interfaces = w.interfaces;
  networks = w.networks;
  image = o.image;
  user_data = script;
  network_data = w.network_data;
}

unfoldable pub comm_service : String → List (String × String) → CommService
comm_service name labels = record {
  name = name;
  node_port = 32022;
  port = 22;
  target_port = 22;
  selector = labels;
}

unfoldable pub route_to : String → Route
route_to service = record {
  name = "svc-" <> service <> "-route";
  target_port = 22;
  service = service;
  weight = 100;
}

exposed_host : Option Exposed → Result Error String
exposed_host none = err fatal
exposed_host (some no_spec) = err bad_route
exposed_host (some no_host) = err bad_route
exposed_host (some (host h)) = ok h

module _ (api : Api) where
  -- The authorised key, of the file `id_rsa.pub`.
  unfoldable pub public_key : Result Error String
  unfolding from_option
  public_key = from_option no_home api.home >>= λ dir.
      from_option no_key (api.read_file (dir <> "/.ssh/id_rsa.pub"))

  unfoldable pub create_vmi : Vmi → Result Error (Unit {0})
  unfolding accepted
  create_vmi vmi = accepted vmi_refused (api.accepts_vmi vmi)

  unfoldable pub create_comm_service : List (String × String) → String → Result Error (Unit {0})
  unfolding accepted comm_service
  create_comm_service labels name =
      accepted service_refused (api.accepts_service (comm_service name labels))

  -- The host that the server gives to the route.
  unfoldable pub expose_service : String → Result Error String
  unfolding from_option exposed_host route_to
  expose_service service =
      from_option route_refused (api.created_route (route_to service)) >>= λ route.
      exposed_host (api.find_route route)

  -- The machine of the client.
  unfoldable pub client_vmi : Options → String → String → List PodTerm → NodeAffinity → String → Vmi
  unfolding vmi_of
  client_vmi o key name pods nodes bridge_address =
      vmi_of o name (("app", name) ∷ ("role", name) ∷ []) (client_script key)
        (wiring "udn-primary-netperf" bridge_address o.udn o.udn_plugin_binding o.cudn
          o.sriov_network)
        pods nodes

  unfoldable pub create_vm_client :
      Options → String → List PodTerm → NodeAffinity → String → Result Error String
  create_vm_client o name pods nodes bridge_address = public_key >>= λ key.
      create_vmi (client_vmi o key name pods nodes bridge_address) >>= λ _.
      create_comm_service (client_vmi o key name pods nodes bridge_address).labels (name <> "-svc")
      >>= λ _. expose_service (name <> "-svc")

  unfoldable pub server_vmi :
      Options → String → String → String → List PodTerm → NodeAffinity → String → Vmi
  unfolding vmi_of
  server_vmi o key name role pods nodes bridge_address =
      vmi_of o name (("app", name) ∷ ("role", role) ∷ []) (server_script key)
        (wiring "primary-l2-net" bridge_address o.udn o.udn_plugin_binding o.cudn o.sriov_network)
        pods nodes

  unfoldable pub create_vm_server :
      Options → String → String → List PodTerm → NodeAffinity → String → Result Error (Unit {0})
  create_vm_server o name role pods nodes bridge_address =
      public_key >>= λ key. create_vmi (server_vmi o key name role pods nodes bridge_address)
