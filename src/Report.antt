-- ===== src/Report.antt =====
-- The end of `Run` (cmd/k8s-netperf/k8s-netperf.go): the connection to Prometheus, the metrics of the
-- results, and what is written.
pub mod Collected
pub mod Metered
use k8s_netperf.Prelude.{
  ℕ, String, Bool, true, false, not, ◌&&◌, if◌then◌else◌, Option, none, some, List, [], ◌∷◌, Result,
  ok, err, ◌>>=◌,
}
use k8s_netperf.Prelude.Text.{is_empty}
use k8s_netperf.Float.{Float64}
use k8s_netperf.Metrics.Types.{NodeInfo, NodeCpu, PodValues, Client, PromConnect}
use k8s_netperf.Metrics.Collect.{
  Panic, discover, query_node_cpu, vswitch_cpu, vswitch_mem, top_pod_cpu, top_pod_mem,
}
use k8s_netperf.Results.{Data, exit_code}
use k8s_netperf.Archive.{Statistics, ScenarioResults}
use k8s_netperf.Archive.Docs.{Doc, build_docs}
use k8s_netperf.Archive.Csv.{write_csv_result, write_prom_csv_result, write_specific_csv}

-- The distribution of the cluster, by the constants of the metadata library.
pub data Distribution : Type 0 where
  openshift microshift kubernetes unknown : Distribution

unfoldable pub should_discover_prometheus : Distribution → String → Bool → Bool → Bool
should_discover_prometheus distribution prom_url agent degraded =
    if not agent then false else if degraded then true else elim distribution [
      | openshift ↦ true
      | microshift ↦ false
      | kubernetes ↦ false
      | unknown ↦ is_empty prom_url
    ]

module _ {R : Type 0} where
  unfoldable pub apply_cluster_distribution : Distribution → PromConnect R → PromConnect R
  apply_cluster_distribution openshift conn = record conn { openshift = true }
  apply_cluster_distribution microshift conn = record conn { microshift = true }
  apply_cluster_distribution kubernetes conn = conn
  apply_cluster_distribution unknown conn = conn

  abbrev no_connection : PromConnect R
  no_connection = (discover none).0

  -- `prometheus.NewClient`, or no connection, and whether Prometheus is available.
  opened : (PromConnect R → Option (Client R)) → PromConnect R → PromConnect R × Bool
  opened new_client conn = if is_empty conn.url then (conn, false) else elim (new_client conn) [
    | none ↦ (record conn { client = none }, false)
    | some c ↦ (record conn { client = some c }, true)
  ]

  -- `agent` is the metadata library's client, and in it what it says of Prometheus.
  unfoldable pub connect_prometheus :
      (PromConnect R → Option (Client R))
      → Distribution
      → String
      → Option (Option (String × String))
      → Bool
      → PromConnect R × Bool
  unfolding opened discover
  connect_prometheus new_client distribution prom_url agent degraded =
      let available : Bool = elim agent [ none ↦ false | some _ ↦ true ] in
      let conn =
        if should_discover_prometheus distribution prom_url available degraded
        then (discover agent).0
        else no_connection in
      let conn = if is_empty prom_url then conn else record conn { url = prom_url } in
      opened new_client (apply_cluster_distribution distribution conn)

-- Which of a test's two nodes a query is about.
pub data Side : Type 0 where
  client server : Side

module _ (F : Float64) where
  open F use {Real}

  -- How Prometheus answers: the queries of a result, whose times it fixes, and the repeated one at
  -- each attempt.
  pub record Prometheus : Type 0 where
    pub answers : Data Real → Client Real
    pub attempts : Data Real → Side → ℕ → Client Real

  -- An error leaves the zeros, and the flag that says so.
  with_client_cpu : {E : Type 0} → Result E (NodeCpu Real) → Data Real → Data Real
  with_client_cpu (err e) r = r
  with_client_cpu (ok cpu) r = record r { client_metrics = cpu; client_cpu_collected = true }

  with_server_cpu : {E : Type 0} → Result E (NodeCpu Real) → Data Real → Data Real
  with_server_cpu (err e) r = r
  with_server_cpu (ok cpu) r = record r { server_metrics = cpu; server_cpu_collected = true }

  -- What `VSwitchCPU` and `VSwitchMem` leave in a node's metrics.
  vswitch : NodeInfo → PromConnect Real → NodeCpu Real → Result Panic (NodeCpu Real)
  unfolding vswitch_cpu vswitch_mem
  vswitch node conn cpu =
      vswitch_cpu F node conn cpu >>= λ (c, _). vswitch_mem F node conn c >>= λ (m, _). ok m

  with_vswitch : PromConnect Real → Data Real → Result Panic (Data Real)
  unfolding vswitch
  with_vswitch conn r = vswitch r.client_node_info conn r.client_metrics >>= λ c.
      vswitch r.server_node_info conn r.server_metrics >>= λ s.
      ok (record r { client_metrics = c; server_metrics = s })

  with_pods : PromConnect Real → Data Real → Result Panic (Data Real)
  unfolding top_pod_cpu top_pod_mem
  with_pods conn r = top_pod_cpu F r.client_node_info conn >>= λ (a, _).
      top_pod_cpu F r.server_node_info conn >>= λ (b, _).
      top_pod_mem F r.client_node_info conn >>= λ (c, _).
      top_pod_mem F r.server_node_info conn >>= λ (d, _).
      ok (record r {
        client_pod_cpu = a;
        server_pod_cpu = b;
        client_pod_mem = c;
        server_pod_mem = d;
      })

  -- The body of the loop.
  unfoldable pub collect_metrics :
      Prometheus → PromConnect Real → Data Real → Result Panic (Data Real)
  unfolding with_client_cpu with_server_cpu with_vswitch with_pods query_node_cpu
  collect_metrics p conn r =
      let c = record conn { client = some (p.answers r) } in
      let r1 =
        with_client_cpu (query_node_cpu F r.client_node_info c (p.attempts r client)).result r in
      let r2 =
        with_server_cpu (query_node_cpu F r.server_node_info c (p.attempts r server)).result r1 in
      if not (is_empty r.client_node_info.node_name) && not (is_empty r.server_node_info.node_name)
      then (with_vswitch c r2 >>= with_pods c)
      else ok r

  unfoldable pub collect_all :
      Prometheus → PromConnect Real → List (Data Real) → Result Panic (List (Data Real))
  unfolding collect_metrics
  collect_all p conn [] = ok []
  collect_all p conn (r ∷ rs) =
      collect_metrics p conn r >>= λ r'. collect_all p conn rs >>= λ rs'. ok (r' ∷ rs')

-- The flags that decide what is written.
pub record Options : Type 0 where
  pub csv : Bool
  pub search : Bool
  pub host_net_only : Bool

-- The fatal errors.
pub data Error : Type 0 where
  csv_failed no_documents : Error

fatal : {E A : Type 0} → Error → Result E A → Result Error A
fatal e (err _) = err e
fatal e (ok a) = ok a

-- Which rows of the three files are accepted.
pub record Disk : Type 0 where
  pub results : ℕ → Bool
  pub metrics : ℕ → Bool
  pub specific : ℕ → Bool

module _ (F : Float64) (S : Statistics F.Real) where
  open F use {Real}

  unfoldable pub write_files : Disk → Bool → List (Data Real) → Result Error (Unit {0})
  unfolding fatal write_csv_result write_prom_csv_result write_specific_csv
  write_files disk available results =
      fatal csv_failed (write_csv_result F S disk.results results) >>= λ _.
      (if available
        then fatal csv_failed (write_prom_csv_result F S disk.metrics results)
        else ok tt)
      >>= λ _. fatal csv_failed (write_specific_csv F S disk.specific results)

  documents : {M : Type 0} → Bool → String → ℕ → ScenarioResults Real M → Result Error (Unit {0})
  unfolding fatal build_docs
  documents false uuid now sr = ok tt
  documents true uuid now sr = fatal no_documents (build_docs F S sr uuid now) >>= λ _. ok tt

  -- From the files to the exit code; a failure of the index is only logged.
  unfoldable pub finish :
      {M : Type 0}
      → Options
      → Disk
      → Bool
      → (List Real → Real)
      → Real
      → String
      → ℕ
      → ScenarioResults Real M
      → Result Error ℕ
  unfolding documents exit_code write_files
  finish o disk available average tolerance uuid now sr =
      (if o.csv then write_files disk available sr.results else ok tt) >>= λ _.
      documents o.search uuid now sr >>= λ _.
      ok (exit_code F average o.host_net_only tolerance sr.results)
