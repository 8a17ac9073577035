-- ===== src/Sut/Ready/Kept.antt =====
-- The services that `BuildSUT` (pkg/k8s/kubernetes.go) leaves for the tests.
use k8s_netperf.Prelude.{
  String, Bool, false, not, ◌&&◌, ◌||◌, List, ltb, Result, ok, err, >>=-eq-ok, ◌≡◌, refl, subst, ap,
  sym, arith, Option-cases, inl, inr,
}
use k8s_netperf.Cluster.{Pod}
use k8s_netperf.Cluster.Services.{Services, create_services}
use k8s_netperf.Cluster.Deployments.{DeploymentParams, deploy_deployment}
use k8s_netperf.Cluster.Zones.{get_zone}
use k8s_netperf.Workload.{PerfScenarios}
use k8s_netperf.Sut.{Options, Built, Error, deployment_failed, service_failed, Api, node_info}
use k8s_netperf.Sut.Commands.{server_commands}
use k8s_netperf.Sut.Params.{
  Placement, local_client, client_across, client_host, server, server_host,
}
use k8s_netperf.Sut.Build.{
  renamed, Step, step_if, ◌and_then◌, deploying, client_info, server_info, build_local,
  build_services, build_clients, build_host_server, build_server, build_servers, build_placed,
  build_sut, placed, zones_of, store_client, store_across, store_client_host, store_server,
  store_server_host, launch_client_vm, launch_server_vm,
}
use k8s_netperf.Sut.Ready.Chains.{
  asked, Leads, Leads-and_then, Leads-step_if, Leads-setting, Leads-launch_client_vm,
  Leads-launch_server_vm, renamed-eq-ok,
}

-- A predicate of the services and of what the scenario asks for. Only the step that makes the
-- services can change it.
module _ (api : Api) (o : Options) (P : Services → PerfScenarios → Type 0) where
  abbrev Holds : Built → Type 0
  Holds b = P b.scenario.services (asked b.scenario)

  abbrev Keeps : Step → Type 0
  Keeps step = Leads Holds step Holds

  Keeps-and_then : (first next : Step) → Keeps first → Keeps next → Keeps (first and_then next)
  Keeps-and_then first next h k = Leads-and_then Holds Holds Holds first next h k

  Keeps-step_if : (flag : Bool) (step : Step) → Keeps step → Keeps (step_if flag step)
  Keeps-step_if flag step h = Leads-step_if Holds Holds flag step (λ _. h) (λ _ b p. p)

  Keeps-deploying :
      (dp : DeploymentParams) (store : List Pod → Built → Built)
      → ((pods : List Pod) (b : Built) → Holds b → Holds (store pods b))
      → Keeps (deploying api o dp store)
  unfolding deploying
  Keeps-deploying dp store k =
      Leads-setting Holds Holds (renamed deployment_failed (deploy_deployment api.deployments dp))
        store k

  Keeps-client_info : (label : String) → Keeps (client_info api o label)
  unfolding client_info
  Keeps-client_info label =
      Leads-setting Holds Holds (node_info api label)
        (λ info t. record t { scenario = record t.scenario { client_node_info = info } })
        (λ info t p. p)

  Keeps-server_info : (label : String) → Keeps (server_info api o label)
  unfolding server_info
  Keeps-server_info label =
      Leads-setting Holds Holds (node_info api label)
        (λ info t. record t { scenario = record t.scenario { server_node_info = info } })
        (λ info t p. p)

  Keeps-client_vm : (dp : DeploymentParams) → Keeps (launch_client_vm api o dp)
  Keeps-client_vm dp = Leads-launch_client_vm api o Holds Holds dp (λ pods ran e host info b p. p)

  Keeps-server_vm : (dp : DeploymentParams) → Keeps (launch_server_vm api o dp)
  Keeps-server_vm dp = Leads-launch_server_vm api o Holds Holds dp (λ pods ran e info b p. p)

  Keeps-build_local : Keeps (build_local api o)
  unfolding build_local
  Keeps-build_local b =
      Keeps-and_then _ _
        (Keeps-step_if b.scenario.pod _ (
          Keeps-deploying (local_client o.privileged b.scenario) (store_client api o)
            (λ pods t p. p)))
        (Keeps-client_info "role=client-local") b

  Keeps-build_clients : (p : Placement) → Keeps (build_clients api o p)
  unfolding build_clients
  Keeps-build_clients p b =
      let s = b.scenario in
      Keeps-and_then _ _
        (Keeps-and_then _ _
          (Keeps-and_then _ _
            (Keeps-step_if (s.host_network && s.pod) _ (
              Keeps-deploying (client_host o.privileged s p) (store_client_host api o)
                (λ pods t h. h)))
            (Keeps-step_if (o.host_network_only && s.host_network) _
              (Keeps-client_info "role=host-client")))
          (Keeps-step_if (not o.host_network_only && s.pod) _ (
            Keeps-deploying (client_across o.privileged s p) (store_across api o) (λ pods t h. h))))
        (Keeps-step_if (not o.host_network_only && s.vm) _
          (Keeps-client_vm (client_across o.privileged s p)))
        b

  Keeps-build_host_server :
      (p : Placement) (commands : List (List String)) → Keeps (build_host_server api o p commands)
  unfolding build_host_server
  Keeps-build_host_server p commands b =
      let s = b.scenario in
      Keeps-and_then _ _
        (Keeps-step_if (s.pod && s.host_network) _ (
          Keeps-deploying (server_host o.privileged s p commands) (store_server_host api o)
            (λ pods t h. h)))
        (Keeps-step_if (o.host_network_only && s.host_network) _
          (Keeps-server_info "role=host-server"))
        b

  Keeps-build_server :
      (p : Placement) (commands : List (List String)) → Keeps (build_server api o p commands)
  unfolding build_server
  Keeps-build_server p commands b =
      let s = b.scenario in
      let dp = server o.privileged s p commands in
      Keeps-and_then _ _
        (Keeps-and_then _ _
          (Keeps-and_then _ _
            (Keeps-step_if s.pod _ (Keeps-deploying dp (store_server api o) (λ pods t h. h)))
            (Keeps-step_if s.pod _ (Keeps-server_info "role=server")))
          (Keeps-step_if (s.pod && not s.node_local) _ (Keeps-client_info "role=client-across")))
        (Keeps-step_if s.vm _ (Keeps-server_vm dp)) b

  Keeps-build_servers :
      (p : Placement) (commands : List (List String)) → Keeps (build_servers api o p commands)
  unfolding build_servers
  Keeps-build_servers p commands b =
      Keeps-and_then _ _ (Keeps-step_if (ltb 1 p.workers) _ (Keeps-build_host_server p commands))
        (Keeps-step_if (not o.host_network_only || b.scenario.node_local) _
          (Keeps-build_server p commands))
        b

-- The services are those that `create_services` makes of what the scenario asks for.
abbrev pub IsServiced : Api → PerfScenarios → Services → PerfScenarios → Type 0
IsServiced api s services t =
    (create_services api.services s.requested_drivers s.pod s.vm s.services ≡ ok services)
    × (t ≡ asked s)

-- Nothing is made yet.
abbrev IsBefore : PerfScenarios → Services → PerfScenarios → Type 0
IsBefore s services t = (services ≡ s.services) × (t ≡ asked s)

module _ (api : Api) (o : Options) (s : PerfScenarios) where
  abbrev Before : Built → Type 0
  Before = Holds api o (IsBefore s)

  abbrev Serviced : Built → Type 0
  Serviced = Holds api o (IsServiced api s)

  build_services-IsServiced : Leads Before (build_services api o) Serviced
  unfolding build_services
  build_services-IsServiced b b' (kept, same) e =
      let t = b.scenario in
      let made = create_services api.services t.requested_drivers t.pod t.vm t.services in
      let (services, e1, e2) = >>=-eq-ok (renamed service_failed made) _ e in
      let drivers = ap (λ (u : PerfScenarios). u.requested_drivers) same in
      let pods = ap (λ (u : PerfScenarios). u.pod) same in
      let vms = ap (λ (u : PerfScenarios). u.vm) same in
      let e3 : create_services api.services s.requested_drivers s.pod s.vm s.services
          ≡ ok services =
        rw (sym drivers, sym pods, sym vms, sym kept) (renamed-eq-ok service_failed made e1) in
      subst (λ (r : Result Error Built). elim r [ ok u ↦ Serviced u | err _ ↦ Serviced b ]) e2
        (e3, same)

  build_placed-IsServiced : (p : Placement) → Leads Before (build_placed api o p) Serviced
  unfolding build_placed
  build_placed-IsServiced p b b' i e =
      let (t, e1, e2) = >>=-eq-ok _ _ e in
      let first =
        Leads-and_then Before Serviced Serviced _ _
          (Leads-and_then Before Before Serviced _ _
            (Keeps-step_if api o (IsBefore s) b.scenario.node_local _
              (Keeps-build_local api o (IsBefore s)))
            build_services-IsServiced)
          (Keeps-step_if api o (IsServiced api s) (ltb 1 p.workers) _
            (Keeps-build_clients api o (IsServiced api s) p))
          b t i e1 in
      elim (Option-cases
        (server_commands b.scenario.requested_drivers b.scenario.configs o.ib_write_bw_params)) [
          | inl none_found ↦ absurd (ground (arith, none_found, e2))
          | inr (commands, e3) ↦
              Keeps-build_servers api o (IsServiced api s) p commands t b' first (rw e3 at e2)
        ]

-- Where `BuildSUT` has succeeded without an external server, the services are those made for the
-- requested drivers, and the scenario asks for what it did before.
pub build_sut-IsServiced :
    (api : Api) (o : Options) (b b' : Built)
    → b.scenario.external_server ≡ false
    → build_sut api o b ≡ ok b'
    → IsServiced api b.scenario b'.scenario.services (asked b'.scenario)
unfolding build_sut placed
build_sut-IsServiced api o b b' here e = elim (Option-cases api.worker_count) [
  | inl none_found ↦ absurd (ground (arith, none_found, here, e))
  | inr (workers, e1) ↦
      let p = placed api o (zones_of api o (get_zone api.zone_labels)) workers b.scenario in
      let e2 : build_placed api o p b ≡ ok b' = ground (arith, e1, here, e) in
      build_placed-IsServiced api o b.scenario p b b' (refl, refl) e2
]
