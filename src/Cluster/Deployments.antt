-- ===== src/Cluster/Deployments.antt =====
-- The deployments of pkg/k8s/kubernetes.go: their parameters, how they are created, waited for and
-- read back.
pub mod Affinity
pub mod Waits
use k8s_netperf.Prelude.{
  ℕ, zero, suc, ◌+◌, String, ◌<>◌, Bool, true, false, ◌&&◌, if◌then◌else◌, ◌==◌, Option, none, some,
  List, [], ◌∷◌, Result, ok, err, ltb, eqb,
}
use k8s_netperf.Prelude.Text.{show_nat}
use k8s_netperf.Cluster.{Pod, namespace}
use Affinity.{NodeAffinity, PodTerm}

-- Image, namespace and number of replicas are the same for all; the only label is the role.
pub record DeploymentParams : Type 0 where
  pub host_network : Bool
  pub privileged : Bool
  pub name : String
  pub role : String
  pub commands : List (List String)
  pub pod_affinity : List PodTerm
  pub pod_anti_affinity : List PodTerm
  pub node_affinity : NodeAffinity
  pub port : ℕ
  pub network_annotation : Option String
  pub resource_requests : List (String × String)

-- The requests are the limits as well.
pub record Container : Type 0 where
  pub container_name : String
  pub image : String
  pub command : List String
  pub privileged : Bool
  pub requests : List (String × String)
  pub limits : List (String × String)

pub record Deployment : Type 0 where
  pub name : String
  pub replicas : ℕ
  pub role : String
  pub annotations : List (String × String)
  pub service_account : String
  pub host_network : Bool
  pub grace_period : ℕ
  pub containers : List Container
  pub pod_affinity : List PodTerm
  pub pod_anti_affinity : List PodTerm
  pub node_affinity : NodeAffinity

abbrev pub image : String
image = "quay.io/cloud-bulldozer/k8s-netperf:latest"

-- The containers from the i-th command on.
containers_from : DeploymentParams → ℕ → List (List String) → List Container
containers_from dp i [] = []
containers_from dp i (command ∷ commands) =
    record {
      container_name = dp.name <> "-" <> show_nat i;
      image = image;
      command = command;
      privileged = dp.privileged;
      requests = dp.resource_requests;
      limits = dp.resource_requests;
    }
    ∷ containers_from dp (i + 1) commands

-- The network annotation has another key than the default one.
annotations_of : Option String → List (String × String)
annotations_of none = ("sidecar.istio.io/inject", "true") ∷ []
annotations_of (some network) =
    ("sidecar.istio.io/inject", "true") ∷ ("k8s.v1.cni.cncf.io/networks", network) ∷ []

unfoldable pub deployment_of : DeploymentParams → Deployment
unfolding containers_from annotations_of
deployment_of dp = record {
  name = dp.name;
  replicas = 1;
  role = dp.role;
  annotations = annotations_of dp.network_annotation;
  service_account = "netperf";
  host_network = dp.host_network;
  grace_period = 1;
  containers = containers_from dp 0 dp.commands;
  pod_affinity = dp.pod_affinity;
  pod_anti_affinity = dp.pod_anti_affinity;
  node_affinity = dp.node_affinity;
}

-- An event of a watch over deployments: one by its name and its ready replicas, or another object.
pub data Event : Type 0 where
  deployment : String → ℕ → Event
  other : Event

-- `panic` is a read through a nil pointer, or an index out of range.
pub data Error : Type 0 where
  not_created not_watched not_ready no_pods panic : Error

-- The loop over the events. Of another object the code reads a name through a nil pointer.
unfoldable pub ready_among : String → List Event → Result Error (Unit {0})
ready_among name [] = err not_ready
ready_among name (other ∷ events) = err panic
ready_among name (deployment other_name replicas ∷ events) =
    let rest = ready_among name events in
    if (other_name == name) && eqb replicas 1 then ok tt else rest

unfoldable pub wait_for_ready : Option (List Event) → String → Result Error (Unit {0})
unfolding ready_among
wait_for_ready none name = err not_watched
wait_for_ready (some events) name = ready_among name events

-- What the server answers: the ready replicas of an existing deployment, whether it accepts a new
-- one, what a watch sees after that, and the running pods with a label.
pub record Api : Type 0 where
  pub ready_replicas : String → Option ℕ
  pub accepts : Deployment → Bool
  pub events : String → Option (List Event)
  pub running : String → Option (List Pod)

unfoldable pub create_deployment : Api → DeploymentParams → Result Error (Unit {0})
unfolding deployment_of
create_deployment api dp =
    let create = if api.accepts (deployment_of dp) then ok tt else err not_created in
    elim (api.ready_replicas dp.name) [ none ↦ create | some n ↦ if ltb 0 n then ok tt else create ]

unfoldable pub get_pods : Api → String → Result Error (List Pod)
get_pods api label = elim (api.running label) [ none ↦ err no_pods | some pods ↦ ok pods ]

unfoldable pub deploy_deployment : Api → DeploymentParams → Result Error (List Pod)
unfolding create_deployment wait_for_ready get_pods
deploy_deployment api dp = elim (create_deployment api dp) [
  | err e ↦ err e
  | ok _ ↦ elim (wait_for_ready (api.events dp.name) dp.name) [
    | err e ↦ err e
    | ok _ ↦ get_pods api ("role=" <> dp.role)
  ]
]
