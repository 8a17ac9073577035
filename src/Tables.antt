-- ===== src/Tables.antt =====
-- The tables that the Show functions of pkg/results/result.go print.
pub mod Widths
pub mod Shown
pub mod Cells
use k8s_netperf.Prelude.{
  ℕ, zero, suc, String, ◌<>◌, Bool, not, ◌&&◌, if◌then◌else◌, ◌==◌, List, [], ◌∷◌, ◌++◌,
}
use k8s_netperf.Prelude.Int.{above}
use k8s_netperf.Prelude.Text.{contains, is_empty, itoa, format_bool, to_lower}
use k8s_netperf.Float.{Float64}
use k8s_netperf.Metrics.Types.{NodeCpu, PodCpu, PodMem}
use k8s_netperf.Results.{Data, check_results}
use k8s_netperf.Archive.{Statistics, interval}
use k8s_netperf.Archive.Csv.{Row, row_if}
use k8s_netperf.Tables.Cells.{
  first_characters, pod_header, node_header, specific_table_header, throughput_header,
  stream_latency_header, rr_latency_header, network_cells, size_cells, run_cells, role_cells,
  test_cells, stream_latency_cells,
}

-- What `tablewriter` is given before `Render`.
pub record Table : Type 0 where
  pub header : Row
  pub rows : List Row

module _ (F : Float64) where
  open F use {Real, format_fixed}

  pod_row : String → Data Real → PodCpu Real → Row
  unfolding role_cells first_characters
  pod_row role r pod =
      role_cells "Pod CPU Utilization" role r
      ++ (first_characters 20 pod.name ∷ format_fixed pod.value ∷ [])

  mem_row : String → Data Real → PodMem Real → Row
  unfolding role_cells first_characters
  mem_row role r pod =
      role_cells "Pod Mem RSS Utilization" role r
      ++ (first_characters 20 pod.name ∷ format_fixed pod.value ∷ [])

  node_row : String → Data Real → NodeCpu Real → Row
  unfolding role_cells
  node_row role r cpu =
      role_cells "Node CPU Utilization" role r
      ++ (format_fixed cpu.idle
          ∷ format_fixed cpu.user
          ∷ format_fixed cpu.system
          ∷ format_fixed cpu.steal
          ∷ format_fixed cpu.iowait
          ∷ format_fixed cpu.nice
          ∷ format_fixed cpu.softirq
          ∷ format_fixed cpu.irq
          ∷ [])

  pod_cpu_rows : String → Data Real → List (PodCpu Real) → List Row
  unfolding pod_row
  pod_cpu_rows role r [] = []
  pod_cpu_rows role r (pod ∷ pods) = pod_row role r pod ∷ pod_cpu_rows role r pods

  mem_rows : String → Data Real → List (PodMem Real) → List Row
  unfolding mem_row
  mem_rows role r [] = []
  mem_rows role r (pod ∷ pods) = mem_row role r pod ∷ mem_rows role r pods

  all_pod_rows : List (Data Real) → List Row
  unfolding pod_cpu_rows
  all_pod_rows [] = []
  all_pod_rows (r ∷ rs) =
      pod_cpu_rows "Client" r r.client_pod_cpu.results
      ++ (pod_cpu_rows "Server" r r.server_pod_cpu.results ++ all_pod_rows rs)

  all_mem_rows : List (Data Real) → List Row
  unfolding mem_rows
  all_mem_rows [] = []
  all_mem_rows (r ∷ rs) =
      mem_rows "Client" r r.client_pod_mem.mem_results
      ++ (mem_rows "Server" r r.server_pod_mem.mem_results ++ all_mem_rows rs)

  -- Tests of transactions are skipped, unless netperf made them.
  all_node_rows : List (Data Real) → List Row
  unfolding node_row
  all_node_rows [] = []
  all_node_rows (r ∷ rs) =
      let rest = all_node_rows rs in
      if contains r.config.profile "RR" && not (r.driver == "netperf")
      then rest
      else node_row "Client" r r.client_metrics ∷ node_row "Server" r r.server_metrics ∷ rest

  unfoldable pub show_pod_cpu : List (Data Real) → Table
  unfolding all_pod_rows pod_header
  show_pod_cpu results = record { header = pod_header; rows = all_pod_rows results }

  unfoldable pub show_pod_mem : List (Data Real) → Table
  unfolding all_mem_rows pod_header
  show_pod_mem results = record { header = pod_header; rows = all_mem_rows results }

  unfoldable pub show_node_cpu : List (Data Real) → Table
  unfolding all_node_rows node_header
  show_node_cpu results = record { header = node_header; rows = all_node_rows results }

  -- The tables of `--metrics`.
  unfoldable pub metrics_tables : Bool → List (Data Real) → List Table
  metrics_tables show_metrics results =
      if show_metrics
      then show_node_cpu results ∷ show_pod_cpu results ∷ show_pod_mem results ∷ []
      else []

-- The title caser of golang.org/x/text is a parameter.
module _ (F : Float64) (S : Statistics F.Real) (title : String → String) where
  open F use {Real, of_ℕ, format_fixed}

  mean : List Real → Real
  mean values = (S.average values).0

  specific_rows : List (Data Real) → List Row
  unfolding test_cells mean row_if
  specific_rows [] = []
  specific_rows (r ∷ rs) =
      row_if (contains r.config.profile "TCP_STREAM")
        (test_cells "TCP Retransmissions" r ++ (format_fixed (mean r.retransmit_summary) ∷ []))
      ++ (row_if (contains r.config.profile "UDP_STREAM")
            (test_cells "UDP Loss Percent" r ++ (format_fixed (mean r.loss_summary) ∷ []))
          ++ specific_rows rs)

  unfoldable pub show_specific_results : List (Data Real) → Table
  unfolding specific_rows specific_table_header
  show_specific_results results = record {
    header = specific_table_header;
    rows = specific_rows results;
  }

  -- A row of `renderResults`. The bounds are zero with fewer than two samples.
  throughput_row : String → Data Real → Row
  unfolding test_cells mean interval
  throughput_row test_type r =
      let (lo, hi) = interval F S r in
      test_cells ("📊 " <> title (to_lower test_type) <> " Results") r
      ++ ((format_fixed (mean r.throughput_summary) <> " (" <> r.metric <> ")")
          ∷ (format_fixed lo <> "-" <> format_fixed hi <> " (" <> r.metric <> ")")
          ∷ [])

  throughput_rows : String → List (Data Real) → List Row
  unfolding throughput_row
  throughput_rows test_type [] = []
  throughput_rows test_type (r ∷ rs) =
      row_if (contains r.config.profile test_type && not (is_empty r.driver))
        (throughput_row test_type r)
      ++ throughput_rows test_type rs

  unfoldable pub render_results : String → List (Data Real) → Table
  unfolding throughput_rows throughput_header
  render_results test_type results = record {
    header = throughput_header;
    rows = throughput_rows test_type results;
  }

  -- What a function prints: no table where no result is of its kind.
  unfoldable pub table_if : Bool → Table → List Table
  table_if b t = if b then t ∷ [] else []

  unfoldable pub show_stream_result : List (Data Real) → List Table
  unfolding table_if check_results
  show_stream_result results =
      table_if (check_results results "STREAM") (render_results "STREAM" results)

  unfoldable pub show_rr_result : List (Data Real) → List Table
  unfolding table_if check_results
  show_rr_result results = table_if (check_results results "RR") (render_results "RR" results)

  usec : List Real → String
  unfolding mean
  usec values = format_fixed (mean values) <> " (usec)"

  stream_latency_rows : List (Data Real) → List Row
  unfolding stream_latency_cells usec row_if
  stream_latency_rows [] = []
  stream_latency_rows (r ∷ rs) =
      row_if (contains r.config.profile "STREAM_LAT") (
        stream_latency_cells r
        ++ (usec r.latency_avg_summary ∷ usec r.latency50_summary ∷ usec r.latency_summary ∷ []))
      ++ stream_latency_rows rs

  rr_latency_rows : List (Data Real) → List Row
  unfolding test_cells usec row_if
  rr_latency_rows [] = []
  rr_latency_rows (r ∷ rs) =
      row_if (contains r.config.profile "RR")
        (test_cells "RR Latency Results" r ++ (usec r.latency_summary ∷ []))
      ++ rr_latency_rows rs

  unfoldable pub show_latency_result : List (Data Real) → List Table
  unfolding table_if check_results stream_latency_rows rr_latency_rows stream_latency_header
      rr_latency_header
  show_latency_result results =
      table_if (check_results results "STREAM_LAT")
        (record { header = stream_latency_header; rows = stream_latency_rows results })
      ++ table_if (check_results results "RR")
          (record { header = rr_latency_header; rows = rr_latency_rows results })

  -- What `Run` prints without `--json`.
  unfoldable pub tables : Bool → List (Data Real) → List Table
  tables show_metrics results =
      show_stream_result results
      ++ (show_rr_result results
          ++ (show_latency_result results
              ++ (show_specific_results results ∷ metrics_tables F show_metrics results)))
