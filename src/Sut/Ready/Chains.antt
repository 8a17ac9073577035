-- ===== src/Sut/Ready/Chains.antt =====
-- How a step of `BuildSUT` (pkg/k8s/kubernetes.go) that succeeds leads from one predicate to another.
use k8s_netperf.Prelude.{
  String, ◌<>◌, Bool, true, false, some, List, [], Result, ok, err, ◌>>=◌, >>=-eq-ok, ◌≡◌, ◌≢◌,
  refl, subst, arith, Option-cases, inl, inr, any,
}
use k8s_netperf.Metrics.Types.{NodeInfo}
use k8s_netperf.Cluster.{Pod}
use k8s_netperf.Cluster.Services.{no_services}
use k8s_netperf.Cluster.Deployments.{
  DeploymentParams, create_deployment, wait_for_ready, get_pods, deploy_deployment,
}
use k8s_netperf.Cluster.Deployments as Deployments
use k8s_netperf.Vms.Create.{create_vm_client, create_vm_server}
use k8s_netperf.Vms.Connect.{Event, wait_for_vmi}
use k8s_netperf.Vms.Connect.Waits.{is_running}
use k8s_netperf.Workload.{PerfScenarios}
use k8s_netperf.Sut.{
  no_info, Options, Built, Error, deployment_failed, vm_failed, vm_not_running, Api,
  node_info_anyway,
}
use k8s_netperf.Sut.Build.{
  renamed, Step, step_if, ◌and_then◌, launch_client_vm, launch_server_vm, vm_options, configured,
}

-- A deployment that was made and has become ready has a running pod with its role.
pub record Runs (api : Api) : Type 0 where
  pub deployed :
      (dp : DeploymentParams) (pods : List Pod)
      → create_deployment api.deployments dp ≡ ok tt
      → wait_for_ready (api.deployments.events dp.name) dp.name ≡ ok tt
      → api.deployments.running ("role=" <> dp.role) ≡ some pods
      → pods ≢ []

-- A machine that was seen in the phase "Running" has the pod in which it runs (KubeVirt starts it in
-- one), and neither of the two machines has a watch that ends before it was seen so: `WaitForVMI`
-- itself does not tell such an end from a success.
pub record Launches (api : Api) : Type 0 where
  pub launched :
      (name : String) (events : List Event) (pods : List Pod)
      → api.vmi_events name ≡ some events
      → any (is_running name) events ≡ true
      → api.deployments.running ("app=" <> name) ≡ some pods
      → pods ≢ []
  pub client_seen :
      (events : List Event)
      → api.vmi_events "client-across" ≡ some events
      → any (is_running "client-across") events ≡ true
  pub server_seen :
      (events : List Event)
      → api.vmi_events "vm-server" ≡ some events
      → any (is_running "vm-server") events ≡ true

-- A scenario without what `BuildSUT` sets.
abbrev pub asked : PerfScenarios → PerfScenarios
asked s = record s {
  server_node_info = no_info;
  client_node_info = no_info;
  client = [];
  server = [];
  vm_server = [];
  client_across = [];
  vm_client_across = [];
  client_host = [];
  server_host = [];
  services = no_services;
}

-- From `P` before a step that succeeds follows `Q` after it.
abbrev pub Leads : (Built → Type 0) → Step → (Built → Type 0) → Type 0
Leads P step Q = (b b' : Built) → P b → step b ≡ ok b' → Q b'

pub Leads-and_then :
    (P Q R : Built → Type 0) (first next : Step)
    → Leads P first Q
    → Leads Q next R
    → Leads P (first and_then next) R
Leads-and_then P Q R first next h k b b' p e =
    let (t, e1, e2) = >>=-eq-ok (first b) next e in k t b' (h b t p e1) e2

pub Leads-step_if :
    (P Q : Built → Type 0) (flag : Bool) (step : Step)
    → (flag ≡ true → Leads P step Q)
    → (flag ≡ false → (b : Built) → P b → Q b)
    → Leads P (step_if flag step) Q
unfolding step_if
Leads-step_if P Q true step h k b b' p e = h refl b b' p e
Leads-step_if P Q false step h k b b' p e =
    subst (λ r. elim r [ ok t ↦ Q t | err _ ↦ Q b ]) e (k refl b p)

pub renamed-eq-ok :
    {E A : Type 0} (f : E → Error) (r : Result E A) {a : A} → renamed f r ≡ ok a → r ≡ ok a
unfolding renamed
renamed-eq-ok f (err e) h = cc
renamed-eq-ok f (ok a) h = cc

get_pods-eq-ok :
    (api : Deployments.Api) (label : String) (pods : List Pod)
    → get_pods api label ≡ ok pods
    → api.running label ≡ some pods
unfolding get_pods
get_pods-eq-ok api label pods h = elim (Option-cases (api.running label)) [
  | inl e ↦ absurd (ground (arith, e))
  | inr (ps, e) ↦ ground (arith, e)
]

pub waited_for :
    (api : Api) (name : String) (pods : List Pod)
    → Launches api
    → ((events : List Event)
        → api.vmi_events name ≡ some events
        → any (is_running name) events ≡ true)
    → wait_for_vmi (api.vmi_events name) name ≡ ok tt
    → get_pods api.deployments ("app=" <> name) ≡ ok pods
    → pods ≢ []
unfolding wait_for_vmi
waited_for api name pods launches seen h e = elim (Option-cases (api.vmi_events name)) [
  | inl no_watch ↦ absurd (ground (arith, no_watch, h))
  | inr (events, f) ↦
      launches.launched name events pods f (seen events f)
        (get_pods-eq-ok api.deployments ("app=" <> name) pods e)
]

pub deploy_deployment-eq-ok :
    (api : Api) (dp : DeploymentParams) (pods : List Pod)
    → Runs api
    → deploy_deployment api.deployments dp ≡ ok pods
    → pods ≢ []
unfolding deploy_deployment
deploy_deployment-eq-ok api dp pods runs h =
    let listed : get_pods api.deployments ("role=" <> dp.role) ≡ ok pods = ground arith in
    runs.deployed dp pods (ground arith) (ground arith)
      (get_pods-eq-ok api.deployments ("role=" <> dp.role) pods listed)

-- A step that only sets a value, once a call has succeeded.
pub Leads-setting :
    {A : Type 0} (P Q : Built → Type 0) (call : Result Error A) (set : A → Built → Built)
    → ((a : A) (b : Built) → P b → Q (set a b))
    → (b b' : Built) → P b
    → (call >>= λ a. ok (set a b)) ≡ ok b'
    → Q b'
Leads-setting P Q call set k b b' p h =
    let (a, _, e) = >>=-eq-ok call (λ a. ok (set a b)) h in
    subst (λ (r : Result Error Built). elim r [ ok t ↦ Q t | err _ ↦ Q b ]) e (k a b p)

module _ (api : Api) (o : Options) (P Q : Built → Type 0) where
  -- The client's machine: what is set once all its calls have succeeded.
  pub Leads-launch_client_vm :
      (dp : DeploymentParams)
      → ((pods : List Pod)
          → wait_for_vmi (api.vmi_events "client-across") "client-across" ≡ ok tt
          → get_pods api.deployments "app=client-across" ≡ ok pods
          → (host : String) (info : NodeInfo) (b : Built) → P b
          → Q (record {
            scenario = record b.scenario { vm_client_across = pods; client_node_info = info };
            vm_host = host;
            vm_name = "client-across";
          }))
      → Leads P (launch_client_vm api o dp) Q
  unfolding launch_client_vm
  Leads-launch_client_vm dp k b b' h e =
      let t = b.scenario in
      let (host, _, e1) =
        >>=-eq-ok
          (renamed vm_failed (
            create_vm_client api.machines (vm_options api o t) "client-across" dp.pod_anti_affinity
              dp.node_affinity o.bridge_client_network))
          _ e in
      let (_, ran, e2) =
        >>=-eq-ok
          (renamed vm_not_running (wait_for_vmi (api.vmi_events "client-across") "client-across")) _
          e1 in
      let (pods, listed, e3) =
        >>=-eq-ok (renamed deployment_failed (get_pods api.deployments "app=client-across")) _ e2 in
      let (info, _, e4) = >>=-eq-ok (node_info_anyway api "app=client-across") _ e3 in
      Leads-setting P Q (configured api o t.sriov_network "client-across" pods)
        (λ _ u. record {
          scenario = record u.scenario { vm_client_across = pods; client_node_info = info };
          vm_host = host;
          vm_name = "client-across";
        })
        (λ _ u p.
          k pods (renamed-eq-ok vm_not_running _ ran) (renamed-eq-ok deployment_failed _ listed)
            host info u p)
        b b' h e4

  -- The server's machine.
  pub Leads-launch_server_vm :
      (dp : DeploymentParams)
      → ((pods : List Pod)
          → wait_for_vmi (api.vmi_events "vm-server") "vm-server" ≡ ok tt
          → get_pods api.deployments "app=vm-server" ≡ ok pods
          → (info : NodeInfo) (b : Built) → P b
          → Q (record b {
            scenario = record b.scenario { vm_server = pods; server_node_info = info };
          }))
      → Leads P (launch_server_vm api o dp) Q
  unfolding launch_server_vm
  Leads-launch_server_vm dp k b b' h e =
      let t = b.scenario in
      let (_, _, e1) =
        >>=-eq-ok
          (renamed vm_failed (
            create_vm_server api.machines (vm_options api o t) "vm-server" "vm-server"
              dp.pod_anti_affinity dp.node_affinity t.bridge_server_network))
          _ e in
      let (_, ran, e2) =
        >>=-eq-ok (renamed vm_not_running (wait_for_vmi (api.vmi_events "vm-server") "vm-server")) _
          e1 in
      let (pods, listed, e3) =
        >>=-eq-ok (renamed deployment_failed (get_pods api.deployments "app=vm-server")) _ e2 in
      let (info, _, e4) = >>=-eq-ok (node_info_anyway api "app=vm-server") _ e3 in
      Leads-setting P Q (configured api o t.sriov_network "vm-server" pods)
        (λ _ u. record u {
          scenario = record u.scenario { vm_server = pods; server_node_info = info };
        })
        (λ _ u p.
          k pods (renamed-eq-ok vm_not_running _ ran) (renamed-eq-ok deployment_failed _ listed)
            info u p)
        b b' h e4
