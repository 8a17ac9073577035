-- ===== src/Report/Collected.antt =====
-- What the metrics loop of `Run` (cmd/k8s-netperf/k8s-netperf.go) changes of a result.
use k8s_netperf.Prelude.{
  Bool, true, false, not, ◌&&◌, if◌then◌else◌, some, [], Result, ok, err, >>=-eq-ok, ◌≡◌, refl, ap,
  sym, subst, ◌∙◌, arith, Option-cases, inl, inr,
}
use k8s_netperf.Prelude.Text.{is_empty}
use k8s_netperf.Float.{Float64}
use k8s_netperf.Metrics.Types.{NodeInfo, NodeCpu, PodValues, PromConnect}
use k8s_netperf.Metrics.Collect.{
  query_range, query_node_cpu, vswitch_cpu, vswitch_mem, top_pod_cpu, top_pod_mem,
}
use k8s_netperf.Metrics.NodeCpu.{zero_cpu}
use k8s_netperf.Metrics.Queries.{vswitch_cpu_query, vswitch_mem_query}
use k8s_netperf.Results.{Data}
use k8s_netperf.Report.{
  Side, client, server, Prometheus, with_client_cpu, with_server_cpu, vswitch, with_vswitch,
  with_pods, collect_metrics,
}

abbrev is_ok : {E A : Type 0} → Result E A → Bool
is_ok (ok a) = true
is_ok (err e) = false

module _ (F : Float64) where
  open F use {Real, of_ℕ}

  -- The metrics of a node without those of Open vSwitch.
  abbrev pub modes : NodeCpu Real → NodeCpu Real
  modes c = record c { vswitch_cpu = of_ℕ 0; vswitch_mem = of_ℕ 0 }

  abbrev no_pods : PodValues Real
  no_pods = record { results = []; mem_results = [] }

  -- A result without its metrics.
  abbrev pub measured : Data Real → Data Real
  measured r = record r {
    client_metrics = zero_cpu F;
    server_metrics = zero_cpu F;
    client_cpu_collected = false;
    server_cpu_collected = false;
    client_pod_cpu = no_pods;
    client_pod_mem = no_pods;
    server_pod_cpu = no_pods;
    server_pod_mem = no_pods;
  }

  -- The flags tell which queries have succeeded; without that the modes are as before.
  pub record IsCollected (asked_client asked_server : Bool) (r r' : Data Real) : Type 0 where
    pub same : measured r' ≡ measured r
    pub client_flag :
        r'.client_cpu_collected ≡ (if asked_client then true else r.client_cpu_collected)
    pub server_flag :
        r'.server_cpu_collected ≡ (if asked_server then true else r.server_cpu_collected)
    pub client_zero : asked_client ≡ false → modes r'.client_metrics ≡ modes r.client_metrics
    pub server_zero : asked_server ≡ false → modes r'.server_metrics ≡ modes r.server_metrics

  IsCollected-vswitch :
      (a b : Bool) (r r' : Data Real) (c s : NodeCpu Real)
      → IsCollected a b r r'
      → modes c ≡ modes r'.client_metrics
      → modes s ≡ modes r'.server_metrics
      → IsCollected a b r (record r' { client_metrics = c; server_metrics = s })
  IsCollected-vswitch a b r r' c s h ec es = record {
    same = h.same;
    client_flag = h.client_flag;
    server_flag = h.server_flag;
    client_zero = λ e. ec ∙ h.client_zero e;
    server_zero = λ e. es ∙ h.server_zero e;
  }

  IsCollected-cpus :
      {E : Type 0} (x y : Result E (NodeCpu Real)) (r : Data Real)
      → IsCollected (is_ok x) (is_ok y) r (with_server_cpu F y (with_client_cpu F x r))
  unfolding with_client_cpu with_server_cpu
  IsCollected-cpus (ok c) (ok s) r = record {
    same = refl;
    client_flag = refl;
    server_flag = refl;
    client_zero = λ e. cc;
    server_zero = λ e. cc;
  }
  IsCollected-cpus (ok c) (err f) r = record {
    same = refl;
    client_flag = refl;
    server_flag = refl;
    client_zero = λ e. cc;
    server_zero = λ e. refl;
  }
  IsCollected-cpus (err e) (ok s) r = record {
    same = refl;
    client_flag = refl;
    server_flag = refl;
    client_zero = λ e. refl;
    server_zero = λ e. cc;
  }
  IsCollected-cpus (err e) (err f) r = record {
    same = refl;
    client_flag = refl;
    server_flag = refl;
    client_zero = λ e. refl;
    server_zero = λ e. refl;
  }

  vswitch_cpu-modes :
      (node : NodeInfo) (conn : PromConnect Real) (c : NodeCpu Real) (out : NodeCpu Real × Bool)
      → vswitch_cpu F node conn c ≡ ok out
      → modes out.0 ≡ modes c
  unfolding vswitch_cpu
  vswitch_cpu-modes node conn c out h =
      let (found, _, e) = >>=-eq-ok (query_range F conn (vswitch_cpu_query node conn)) _ h in
      elim (Option-cases found) [
        | inl n ↦ ground (arith, n, e)
        | inr (ss, n) ↦ ground (arith, n, e)
      ]

  vswitch_mem-modes :
      (node : NodeInfo) (conn : PromConnect Real) (c : NodeCpu Real) (out : NodeCpu Real × Bool)
      → vswitch_mem F node conn c ≡ ok out
      → modes out.0 ≡ modes c
  unfolding vswitch_mem
  vswitch_mem-modes node conn c out h =
      let (found, _, e) = >>=-eq-ok (query_range F conn (vswitch_mem_query node conn)) _ h in
      elim (Option-cases found) [
        | inl n ↦ ground (arith, n, e)
        | inr (ss, n) ↦ ground (arith, n, e)
      ]

  vswitch-modes :
      (node : NodeInfo) (conn : PromConnect Real) (c out : NodeCpu Real)
      → vswitch F node conn c ≡ ok out
      → modes out ≡ modes c
  unfolding vswitch
  vswitch-modes node conn c out h =
      let (a, ea, e1) = >>=-eq-ok (vswitch_cpu F node conn c) _ h in
      let (b, eb, e2) = >>=-eq-ok (vswitch_mem F node conn a.0) _ e1 in
      let last : b.0 ≡ out = cc in
      ap modes (sym last)
      ∙ vswitch_mem-modes node conn a.0 b eb
      ∙ vswitch_cpu-modes node conn c a ea

  with_vswitch-IsCollected :
      (a b : Bool) (conn : PromConnect Real) (r r1 r2 : Data Real)
      → IsCollected a b r r1
      → with_vswitch F conn r1 ≡ ok r2
      → IsCollected a b r r2
  unfolding with_vswitch
  with_vswitch-IsCollected a b conn r r1 r2 i h =
      let (c, ec, h1) = >>=-eq-ok (vswitch F r1.client_node_info conn r1.client_metrics) _ h in
      let (s, es, h2) = >>=-eq-ok (vswitch F r1.server_node_info conn r1.server_metrics) _ h1 in
      let last : record r1 { client_metrics = c; server_metrics = s } ≡ r2 = cc in
      subst (IsCollected a b r) last (
        IsCollected-vswitch a b r r1 c s i
          (vswitch-modes r1.client_node_info conn r1.client_metrics c ec)
          (vswitch-modes r1.server_node_info conn r1.server_metrics s es))

  with_pods-IsCollected :
      (a b : Bool) (conn : PromConnect Real) (r r1 r2 : Data Real)
      → IsCollected a b r r1
      → with_pods F conn r1 ≡ ok r2
      → IsCollected a b r r2
  unfolding with_pods
  with_pods-IsCollected a b conn r r1 r2 i h =
      let (w, _, h1) = >>=-eq-ok (top_pod_cpu F r1.client_node_info conn) _ h in
      let (x, _, h2) = >>=-eq-ok (top_pod_cpu F r1.server_node_info conn) _ h1 in
      let (y, _, h3) = >>=-eq-ok (top_pod_mem F r1.client_node_info conn) _ h2 in
      let (z, _, h4) = >>=-eq-ok (top_pod_mem F r1.server_node_info conn) _ h3 in
      let r3 : Data Real = record r1 {
        client_pod_cpu = w.0;
        server_pod_cpu = x.0;
        client_pod_mem = y.0;
        server_pod_mem = z.0;
      } in
      let last : r3 ≡ r2 = cc in
      let i3 : IsCollected a b r r3 = record {
        same = i.same;
        client_flag = i.client_flag;
        server_flag = i.server_flag;
        client_zero = i.client_zero;
        server_zero = i.server_zero;
      } in
      subst (IsCollected a b r) last i3

  module _ (p : Prometheus F) (conn : PromConnect Real) (r : Data Real) where
    abbrev pub asking : PromConnect Real
    asking = record conn { client = some (p.answers r) }

    -- The outcome of the two queries of `QueryNodeCPU`.
    abbrev pub asked_of : NodeInfo → Side → Bool
    asked_of node side = is_ok (query_node_cpu F node asking (p.attempts r side)).result

    -- The loop changes of a result only its metrics. Where both nodes are known, each node's flag
    -- tells that its query succeeded, and where it failed the modes stay, which are zero before.
    pub collect_metrics-IsCollected :
        (r' : Data Real)
        → (not (is_empty r.client_node_info.node_name)
            && not (is_empty r.server_node_info.node_name))
          ≡ true
        → collect_metrics F p conn r ≡ ok r'
        → IsCollected (asked_of r.client_node_info client) (asked_of r.server_node_info server) r r'
    unfolding collect_metrics
    collect_metrics-IsCollected r' named h =
        let x = (query_node_cpu F r.client_node_info asking (p.attempts r client)).result in
        let y = (query_node_cpu F r.server_node_info asking (p.attempts r server)).result in
        let r2 = with_server_cpu F y (with_client_cpu F x r) in
        let (r3, e3, e4) = >>=-eq-ok (with_vswitch F asking r2) _ (rw named at h) in
        with_pods-IsCollected (is_ok x) (is_ok y) asking r r3 r'
          (with_vswitch-IsCollected (is_ok x) (is_ok y) asking r r2 r3 (IsCollected-cpus x y r) e3)
          e4
