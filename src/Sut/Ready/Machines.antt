-- ===== src/Sut/Ready/Machines.antt =====
-- The machines that `BuildSUT` (pkg/k8s/kubernetes.go) leaves, and the tests of `Run` on VMs.
use k8s_netperf.Prelude.{
  Bool, true, false, not, ◌&&◌, List, [], All, All-map, ok, err, ◌≡◌, ◌≢◌, ap, ◌∙◌, arith,
  Bool-cases, inl, inr,
}
use k8s_netperf.Prelude.Text.{is_empty}
use k8s_netperf.Cluster.{Pod}
use k8s_netperf.Flags.{Flags}
use k8s_netperf.Workload.{PerfScenarios, panic}
use k8s_netperf.Workload.Plan.{Call, all_calls}
use k8s_netperf.Workload.Plan.Allowed.{IsAllowed, all_calls-IsAllowed}
use k8s_netperf.Workload.Server.{Decoders, choose_server, choose_client}
use k8s_netperf.Workload.Server.Safe.{if-ne, choose_server_vm-ne-panic}
use k8s_netperf.Sut.{Options, Built, Api}
use k8s_netperf.Sut.Build.{build_sut}
use k8s_netperf.Sut.Ready.{all_made, start-IsMade, build_sut-IsMade}
use k8s_netperf.Sut.Ready.Steps.{IsMade}
use k8s_netperf.Sut.Ready.Chains.{Runs, Launches}

-- The test of VMs has a client, and, if it is not through a service, the choice of its server reads
-- no list out of range.
pub record IsServedVm (D : Decoders) (f : Flags) (s : PerfScenarios) (c : Call) : Type 0 where
  pub client : choose_client s c.host_net true ≢ []
  pub server :
      c.config.service ≡ false
      → choose_server D f "" c.config s c.host_net c.driver true ≢ err panic

module _ (D : Decoders) (f : Flags) (api : Api) (o : Options) (runs : Runs api) (s : PerfScenarios)
    (b' : Built) (across many : Bool) (i : IsMade api (all_made api o runs s many) s b')
    (several : s.node_local ≡ false → many ≡ true) (c : Call)
    (allowed : IsAllowed b'.scenario o.host_network_only across c) (vm : c.virt ≡ true)
    (launches : Launches api) where
  -- A test on a VM is not on the host network, so there are tests of the pod network.
  vm-regular : c.host_net ≡ false
  vm-regular = elim (Bool-cases c.host_net) [
    | inl on ↦ absurd (ground (arith, (allowed.on_host on).2, vm))
    | inr off ↦ off
  ]

  client-filled :
      s.external_server ≡ false
      → (s.node_local ≡ true → s.pod ≡ true)
      → choose_client b'.scenario c.host_net true ≢ []
  unfolding choose_client
  client-filled outside local =
      let t = b'.scenario in
      let away : t.external_server ≡ false =
        ap (λ (u : PerfScenarios). u.external_server) i.11 ∙ outside in
      let vms : t.vm ≡ true = rw vm at allowed.runs in
      let only = allowed.on_pods vm-regular in
      let none_left : List Pod = [] in
      rw vm-regular (
        if-ne (not t.node_local && not t.external_server) t.vm_client_across t.client none_left
          (λ k. i.10 (ground (arith, k, i.1, i.3, vms, several, only)) launches)
          (λ k. i.4 (ground (arith, k, i.3, away, local))))

  server-filled :
      s.udn ≡ false
      → s.cudn ≡ false
      → is_empty s.macvlan_network ≡ true
      → c.config.service ≡ false
      → choose_server D f "" c.config b'.scenario c.host_net c.driver true ≢ err panic
  server-filled no_udn no_cudn no_macvlan direct =
      let t = b'.scenario in
      let vms : t.vm ≡ true = rw vm at allowed.runs in
      let only = allowed.on_pods vm-regular in
      choose_server_vm-ne-panic D f t c.host_net c.config c.driver direct
        (ap (λ (u : PerfScenarios). u.udn) i.11 ∙ no_udn)
        (ap (λ (u : PerfScenarios). u.cudn) i.11 ∙ no_cudn)
        (ap (λ (u : PerfScenarios). is_empty u.macvlan_network) i.11 ∙ no_macvlan)
        (i.9 (ground (arith, i.1, vms, only)) launches)

-- When `BuildSUT` has succeeded, without an external server, a user-defined network and macvlan,
-- and with pods if client and server are on one node, and both machines are launched, every test of `Run` on VMs has a client and,
-- if it is not through a service, a server.
pub build_sut-IsServedVm :
    (D : Decoders) (f : Flags) (api : Api) (o : Options) (across : Bool) (b b' : Built)
    → Runs api
    → Launches api
    → b.scenario.external_server ≡ false
    → (b.scenario.node_local ≡ true → b.scenario.pod ≡ true)
    → b.scenario.udn ≡ false
    → b.scenario.cudn ≡ false
    → is_empty b.scenario.macvlan_network ≡ true
    → build_sut api o b ≡ ok b'
    → All
        (λ (c : Call). c.virt ≡ true → IsServedVm D f b'.scenario c)
        (all_calls b'.scenario o.host_network_only across)
build_sut-IsServedVm D f api o across b b' runs launches outside local no_udn no_cudn no_macvlan e =
    let s = b.scenario in
    let (many, i, several) = build_sut-IsMade api o runs s b b' (start-IsMade api b) outside e in
    All-map (IsAllowed b'.scenario o.host_network_only across) _ _
      (λ c allowed vm. record {
        client =
            client-filled D f api o runs s b' across many i several c allowed vm launches outside
              local;
        server =
            server-filled D f api o runs s b' across many i several c allowed vm launches no_udn
              no_cudn no_macvlan;
      })
      (all_calls-IsAllowed b'.scenario o.host_network_only across)
