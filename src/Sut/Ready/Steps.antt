-- ===== src/Sut/Ready/Steps.antt =====
-- What the steps of `BuildSUT` (pkg/k8s/kubernetes.go) leave in the lists of pods.
use k8s_netperf.Prelude.{String, Bool, true, List, [], Result, ok, err, >>=-eq-ok, ◌≡◌, ◌≢◌, subst}
use k8s_netperf.Cluster.{Pod}
use k8s_netperf.Cluster.Services.{create_services}
use k8s_netperf.Cluster.Deployments.{DeploymentParams, deploy_deployment}
use k8s_netperf.Workload.{PerfScenarios}
use k8s_netperf.Sut.{Options, Built, Error, deployment_failed, service_failed, Api, node_info}
use k8s_netperf.Sut.Build.{
  renamed, deploying, client_info, server_info, build_services, launch_client_vm, launch_server_vm,
  store_client, store_across, store_client_host, store_server, store_server_host,
}
use k8s_netperf.Sut.Ready.Chains.{
  Runs, Launches, asked, Leads, renamed-eq-ok, waited_for, deploy_deployment-eq-ok, Leads-setting,
  Leads-launch_client_vm, Leads-launch_server_vm,
}

-- Which lists are filled.
pub record Made : Type 0 where
  pub client : Bool
  pub across : Bool
  pub client_host : Bool
  pub server : Bool
  pub server_host : Bool
  pub vm_server : Bool
  pub vm_client : Bool

-- The lists are filled where `m` says so, those of machines where these are launched, and the
-- scenario asks for what `s` does.
abbrev pub IsMade : Api → Made → PerfScenarios → Built → Type 0
IsMade api m s b =
    (b.scenario.pod ≡ s.pod)
    × (b.scenario.vm ≡ s.vm)
    × (b.scenario.host_network ≡ s.host_network)
    × (b.scenario.node_local ≡ s.node_local)
    × (m.client ≡ true → b.scenario.client ≢ [])
    × (m.across ≡ true → b.scenario.client_across ≢ [])
    × (m.client_host ≡ true → b.scenario.client_host ≢ [])
    × (m.server ≡ true → b.scenario.server ≢ [])
    × (m.server_host ≡ true → b.scenario.server_host ≢ [])
    × (m.vm_server ≡ true → Launches api → b.scenario.vm_server ≢ [])
    × (m.vm_client ≡ true → Launches api → b.scenario.vm_client_across ≢ [])
    × (asked b.scenario ≡ asked s)

module _ (api : Api) (o : Options) (runs : Runs api) where
  pub Leads-deploying :
      (P Q : Built → Type 0) (dp : DeploymentParams) (store : List Pod → Built → Built)
      → ((pods : List Pod) (b : Built) → pods ≢ [] → P b → Q (store pods b))
      → Leads P (deploying api o dp store) Q
  unfolding deploying
  Leads-deploying P Q dp store k b b' p h =
      let (pods, e, e') =
        >>=-eq-ok (renamed deployment_failed (deploy_deployment api.deployments dp))
          (λ pods. ok (store pods b)) h in
      let filled = deploy_deployment-eq-ok api dp pods runs (renamed-eq-ok deployment_failed _ e) in
      subst (λ (r : Result Error Built). elim r [ ok t ↦ Q t | err _ ↦ Q b ]) e' (k pods b filled p)

  module _ (m : Made) (s : PerfScenarios) where
    pub client_info-IsMade :
        (label : String) → Leads (IsMade api m s) (client_info api o label) (IsMade api m s)
    unfolding client_info
    client_info-IsMade label b b' h e =
        Leads-setting (IsMade api m s) (IsMade api m s) (node_info api label)
          (λ info t. record t { scenario = record t.scenario { client_node_info = info } })
          (λ info t p. p) b b' h e

    pub server_info-IsMade :
        (label : String) → Leads (IsMade api m s) (server_info api o label) (IsMade api m s)
    unfolding server_info
    server_info-IsMade label b b' h e =
        Leads-setting (IsMade api m s) (IsMade api m s) (node_info api label)
          (λ info t. record t { scenario = record t.scenario { server_node_info = info } })
          (λ info t p. p) b b' h e

    pub build_services-IsMade : Leads (IsMade api m s) (build_services api o) (IsMade api m s)
    unfolding build_services
    build_services-IsMade b b' h e =
        Leads-setting (IsMade api m s) (IsMade api m s)
          (renamed service_failed (
            create_services api.services b.scenario.requested_drivers b.scenario.pod b.scenario.vm
              b.scenario.services))
          (λ services t. record t { scenario = record t.scenario { services = services } })
          (λ services t p. p) b b' h e

    pub launch_client_vm-IsMade :
        (dp : DeploymentParams)
        → Leads
            (IsMade api m s)
            (launch_client_vm api o dp)
            (IsMade api (record m { vm_client = true }) s)
    launch_client_vm-IsMade dp =
        Leads-launch_client_vm api o _ (IsMade api (record m { vm_client = true }) s) dp
          (λ pods ran e host info u p.
            let filled =
              λ (l : Launches api). waited_for api "client-across" pods l l.client_seen ran e in
            (p.0, p.1, p.2, p.3, p.4, p.5, p.6, p.7, p.8, p.9, λ _. filled, p.11))

    pub launch_server_vm-IsMade :
        (dp : DeploymentParams)
        → Leads
            (IsMade api m s)
            (launch_server_vm api o dp)
            (IsMade api (record m { vm_server = true }) s)
    launch_server_vm-IsMade dp =
        Leads-launch_server_vm api o _ (IsMade api (record m { vm_server = true }) s) dp
          (λ pods ran e info u p.
            let filled =
              λ (l : Launches api). waited_for api "vm-server" pods l l.server_seen ran e in
            (p.0, p.1, p.2, p.3, p.4, p.5, p.6, p.7, p.8, λ _. filled, p.10, p.11))

    deploying-IsMade :
        (m' : Made) (dp : DeploymentParams) (store : List Pod → Built → Built)
        → ((pods : List Pod) (t : Built)
            → pods ≢ []
            → IsMade api m s t
            → IsMade api m' s (store pods t))
        → Leads (IsMade api m s) (deploying api o dp store) (IsMade api m' s)
    deploying-IsMade m' dp store k = Leads-deploying (IsMade api m s) (IsMade api m' s) dp store k

    pub client-IsMade :
        (dp : DeploymentParams)
        → Leads
            (IsMade api m s)
            (deploying api o dp (store_client api o))
            (IsMade api (record m { client = true }) s)
    client-IsMade dp =
        deploying-IsMade _ dp (store_client api o)
          (λ pods t f p. (p.0, p.1, p.2, p.3, λ _. f, p.5, p.6, p.7, p.8, p.9, p.10, p.11))

    pub across-IsMade :
        (dp : DeploymentParams)
        → Leads
            (IsMade api m s)
            (deploying api o dp (store_across api o))
            (IsMade api (record m { across = true }) s)
    across-IsMade dp =
        deploying-IsMade _ dp (store_across api o)
          (λ pods t f p. (p.0, p.1, p.2, p.3, p.4, λ _. f, p.6, p.7, p.8, p.9, p.10, p.11))

    pub client_host-IsMade :
        (dp : DeploymentParams)
        → Leads
            (IsMade api m s)
            (deploying api o dp (store_client_host api o))
            (IsMade api (record m { client_host = true }) s)
    client_host-IsMade dp =
        deploying-IsMade _ dp (store_client_host api o)
          (λ pods t f p. (p.0, p.1, p.2, p.3, p.4, p.5, λ _. f, p.7, p.8, p.9, p.10, p.11))

    pub server-IsMade :
        (dp : DeploymentParams)
        → Leads
            (IsMade api m s)
            (deploying api o dp (store_server api o))
            (IsMade api (record m { server = true }) s)
    server-IsMade dp =
        deploying-IsMade _ dp (store_server api o)
          (λ pods t f p. (p.0, p.1, p.2, p.3, p.4, p.5, p.6, λ _. f, p.8, p.9, p.10, p.11))

    pub server_host-IsMade :
        (dp : DeploymentParams)
        → Leads
            (IsMade api m s)
            (deploying api o dp (store_server_host api o))
            (IsMade api (record m { server_host = true }) s)
    server_host-IsMade dp =
        deploying-IsMade _ dp (store_server_host api o)
          (λ pods t f p. (p.0, p.1, p.2, p.3, p.4, p.5, p.6, p.7, λ _. f, p.9, p.10, p.11))
