-- ===== src/Sut/Ready/Served.antt =====
-- The pods that `BuildSUT` (pkg/k8s/kubernetes.go) leaves, and the tests of `Run` on pods.
use k8s_netperf.Prelude.{
  Bool, true, false, not, ◌&&◌, if◌then◌else◌, List, [], All, All-map, ok, err, ◌≡◌, ◌≢◌, ap, ◌∙◌,
  arith,
}
use k8s_netperf.Cluster.{Pod}
use k8s_netperf.Flags.{Flags}
use k8s_netperf.Workload.{PerfScenarios, panic}
use k8s_netperf.Workload.Plan.{Call, all_calls}
use k8s_netperf.Workload.Plan.Allowed.{IsAllowed, all_calls-IsAllowed}
use k8s_netperf.Workload.Server.{Decoders, choose_server, choose_client}
use k8s_netperf.Workload.Server.Safe.{on_host, if-ne, choose_server-ne-panic}
use k8s_netperf.Sut.{Options, Built, Api}
use k8s_netperf.Sut.Build.{build_sut}
use k8s_netperf.Sut.Ready.{all_made, start-IsMade, build_sut-IsMade}
use k8s_netperf.Sut.Ready.Steps.{IsMade}
use k8s_netperf.Sut.Ready.Chains.{Runs}

-- The test of pods has a client, and, if it is not through a service, the choice of its server
-- reads no list out of range.
pub record IsServed (D : Decoders) (f : Flags) (s : PerfScenarios) (c : Call) : Type 0 where
  pub client : choose_client s c.host_net false ≢ []
  pub server :
      c.config.service ≡ false
      → choose_server D f "" c.config s c.host_net c.driver false ≢ err panic

module _ (D : Decoders) (f : Flags) (api : Api) (o : Options) (runs : Runs api) (s : PerfScenarios)
    (b' : Built) (across many : Bool) where
  client-filled :
      IsMade api (all_made api o runs s many) s b'
      → s.pod ≡ true
      → s.external_server ≡ false
      → (s.node_local ≡ false → many ≡ true)
      → (c : Call) → IsAllowed b'.scenario o.host_network_only across c
      → choose_client b'.scenario c.host_net false ≢ []
  unfolding choose_client
  client-filled i pods outside several c allowed =
      let t = b'.scenario in
      let away : t.external_server ≡ false =
        ap (λ (u : PerfScenarios). u.external_server) i.11 ∙ outside in
      let rest = if not t.node_local && not t.external_server then t.client_across else t.client in
      let none_left : List Pod = [] in
      if-ne (c.host_net && not t.node_local) t.client_host rest none_left
        (λ h.
          let on_host = allowed.on_host (ground (arith, h)) in
          i.6 (ground (arith, h, i.3, i.2, pods, on_host.0, several)))
        (λ h.
          if-ne (not t.node_local && not t.external_server) t.client_across t.client none_left
            (λ k. i.5 (ground (arith, h, k, i.3, pods, several, allowed.on_pods)))
            (λ k. i.4 (ground (arith, k, i.3, pods, away))))

  server-filled :
      IsMade api (all_made api o runs s many) s b'
      → s.pod ≡ true
      → (s.node_local ≡ false → many ≡ true)
      → (o.host_network_only ≡ true → s.node_local ≡ false → on_host s true ≡ true)
      → (c : Call) → IsAllowed b'.scenario o.host_network_only across c
      → c.config.service ≡ false
      → choose_server D f "" c.config b'.scenario c.host_net c.driver false ≢ err panic
  server-filled i pods several only c allowed direct =
      let t = b'.scenario in
      let same : on_host t c.host_net ≡ on_host s c.host_net =
        ap (λ (u : PerfScenarios). on_host u c.host_net) i.11 in
      choose_server-ne-panic D f t c.host_net c.config c.driver direct
        (λ h.
          let asked = allowed.on_host (ground (arith, h)) in
          i.8 (ground (arith, h, i.3, i.2, pods, asked.0, several)))
        (λ h. i.7 (ground (arith, h, same, i.3, pods, only, allowed.on_pods)))

-- When `BuildSUT` has succeeded, without an external server and with pods, every test of `Run` on
-- pods has a client pod and, if it is not through a service, finds the pods among which its server
-- is chosen. On a run over the host network alone this holds where no other network is asked for.
pub build_sut-IsServed :
    (D : Decoders) (f : Flags) (api : Api) (o : Options) (across : Bool) (b b' : Built)
    → Runs api
    → b.scenario.pod ≡ true
    → b.scenario.external_server ≡ false
    → (o.host_network_only ≡ true → b.scenario.node_local ≡ false → on_host b.scenario true ≡ true)
    → build_sut api o b ≡ ok b'
    → All
        (λ (c : Call). c.virt ≡ false → IsServed D f b'.scenario c)
        (all_calls b'.scenario o.host_network_only across)
build_sut-IsServed D f api o across b b' runs pods outside only e =
    let s = b.scenario in
    let start = start-IsMade api b in
    let (many, i, several) = build_sut-IsMade api o runs s b b' start outside e in
    All-map (IsAllowed b'.scenario o.host_network_only across) _ _
      (λ c allowed _. record {
        client = client-filled D f api o runs s b' across many i pods outside several c allowed;
        server = server-filled D f api o runs s b' across many i pods several only c allowed;
      })
      (all_calls-IsAllowed b'.scenario o.host_network_only across)
