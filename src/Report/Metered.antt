-- ===== src/Report/Metered.antt =====
-- What the metrics loop of `Run` (cmd/k8s-netperf/k8s-netperf.go) changes of all results.
use k8s_netperf.Prelude.{
  Bool, true, false, not, ◌&&◌, List, [], ◌∷◌, Pairwise, ok, >>=-eq-ok, ◌≡◌, subst, sym, arith,
}
use k8s_netperf.Prelude.Text.{is_empty}
use k8s_netperf.Float.{Float64}
use k8s_netperf.Metrics.Types.{PromConnect}
use k8s_netperf.Results.{Data}
use k8s_netperf.Report.{client, server, Prometheus, collect_metrics, collect_all}
use k8s_netperf.Report.Collected.{IsCollected, asked_of, collect_metrics-IsCollected}

module _ (F : Float64) (p : Prometheus F) (conn : PromConnect F.Real) where
  open F use {Real}

  -- The names of both nodes are there.
  abbrev pub are_named : Data Real → Bool
  are_named r =
      not (is_empty r.client_node_info.node_name) && not (is_empty r.server_node_info.node_name)

  pub record IsMetered (r r' : Data Real) : Type 0 where
    pub collected :
        are_named r ≡ true
        → IsCollected F
            (asked_of F p conn r r.client_node_info client)
            (asked_of F p conn r r.server_node_info server)
            r
            r'
    pub untouched : are_named r ≡ false → r' ≡ r

  collect_metrics-IsMetered :
      (r r' : Data Real) → collect_metrics F p conn r ≡ ok r' → IsMetered r r'
  unfolding collect_metrics
  collect_metrics-IsMetered r r' h = record {
    collected = λ named. collect_metrics-IsCollected F p conn r r' named h;
    untouched = λ unnamed. let same : r ≡ r' = ground (arith, unnamed, h) in sym same;
  }

  -- The loop over the results keeps their number and order and changes of each only its metrics, and
  -- nothing where a node is not known. Where both are, each node's flag tells that its query
  -- succeeded, and where it failed the modes stay.
  pub collect_all-IsMetered :
      (rs rs' : List (Data Real)) → collect_all F p conn rs ≡ ok rs' → Pairwise IsMetered rs rs'
  unfolding collect_all
  collect_all-IsMetered [] rs' h =
      let none_left : List (Data Real) = [] in
      let same : none_left ≡ rs' = cc in subst (Pairwise IsMetered []) same tt
  collect_all-IsMetered (r ∷ rs) rs' h =
      let (r1, e1, e2) = >>=-eq-ok (collect_metrics F p conn r) _ h in
      let (rs1, e3, e4) = >>=-eq-ok (collect_all F p conn rs) _ e2 in
      let same : r1 ∷ rs1 ≡ rs' = cc in
      subst (Pairwise IsMetered (r ∷ rs)) same
        (collect_metrics-IsMetered r r1 e1, collect_all-IsMetered rs rs1 e3)
