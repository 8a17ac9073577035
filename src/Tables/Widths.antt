-- ===== src/Tables/Widths.antt =====
-- The widths of the rows and headers of the printed tables of pkg/results/result.go.
use k8s_netperf.Prelude.{
  String, Bool, true, false, not, ◌&&◌, ◌==◌, List, [], ◌∷◌, ◌++◌, All, All-append, refl, length,
  ◌≡◌, Bool-cases, inl, inr,
}
use k8s_netperf.Prelude.Text.{contains, is_empty}
use k8s_netperf.Float.{Float64}
use k8s_netperf.Results.{Data, check_results}
use k8s_netperf.Metrics.Types.{PodCpu, PodMem}
use k8s_netperf.Archive.{Statistics}
use k8s_netperf.Archive.Csv.{Row, row_if}
use k8s_netperf.Tables.{
  Table, pod_row, mem_row, node_row, pod_cpu_rows, mem_rows, all_pod_rows, all_mem_rows,
  all_node_rows, show_pod_cpu, show_pod_mem, show_node_cpu, specific_rows, show_specific_results,
  throughput_row, throughput_rows, render_results, table_if, show_stream_result, show_rr_result,
  stream_latency_rows, rr_latency_rows, show_latency_result, metrics_tables, tables,
}
use k8s_netperf.Tables.Cells.{
  pod_header, node_header, specific_table_header, throughput_header, stream_latency_header,
  rr_latency_header, network_cells, size_cells, run_cells, role_cells, test_cells,
  stream_latency_cells,
}

-- Every row has as many cells as the header.
pub IsAligned : Table → Type 0
IsAligned t = All (λ row. length row ≡ length t.header) t.rows

abbrev Wide : Row → List Row → Type 0
Wide header = All (λ row. length row ≡ length header)

row_if-Wide :
    (header : Row) (b : Bool) (row : Row) → length row ≡ length header → Wide header (row_if b row)
unfolding row_if
row_if-Wide header true row h = (h, tt)
row_if-Wide header false row h = tt

module _ (F : Float64) where
  open F use {Real}

  pod_cpu_rows-Wide :
      (role : String) (r : Data Real) (pods : List (PodCpu Real))
      → Wide pod_header (pod_cpu_rows F role r pods)
  unfolding pod_cpu_rows pod_row pod_header role_cells network_cells size_cells
  pod_cpu_rows-Wide role r [] = tt
  pod_cpu_rows-Wide role r (pod ∷ pods) = (refl, pod_cpu_rows-Wide role r pods)

  mem_rows-Wide :
      (role : String) (r : Data Real) (pods : List (PodMem Real))
      → Wide pod_header (mem_rows F role r pods)
  unfolding mem_rows mem_row pod_header role_cells network_cells size_cells
  mem_rows-Wide role r [] = tt
  mem_rows-Wide role r (pod ∷ pods) = (refl, mem_rows-Wide role r pods)

  all_pod_rows-Wide : (rs : List (Data Real)) → Wide pod_header (all_pod_rows F rs)
  unfolding all_pod_rows
  all_pod_rows-Wide [] = tt
  all_pod_rows-Wide (r ∷ rs) =
      All-append _ (pod_cpu_rows F "Client" r r.client_pod_cpu.results) _
        (pod_cpu_rows-Wide "Client" r _)
        (All-append _ (pod_cpu_rows F "Server" r r.server_pod_cpu.results) (all_pod_rows F rs)
          (pod_cpu_rows-Wide "Server" r _) (all_pod_rows-Wide rs))

  all_mem_rows-Wide : (rs : List (Data Real)) → Wide pod_header (all_mem_rows F rs)
  unfolding all_mem_rows
  all_mem_rows-Wide [] = tt
  all_mem_rows-Wide (r ∷ rs) =
      All-append _ (mem_rows F "Client" r r.client_pod_mem.mem_results) _
        (mem_rows-Wide "Client" r _)
        (All-append _ (mem_rows F "Server" r r.server_pod_mem.mem_results) (all_mem_rows F rs)
          (mem_rows-Wide "Server" r _) (all_mem_rows-Wide rs))

  all_node_rows-Wide : (rs : List (Data Real)) → Wide node_header (all_node_rows F rs)
  unfolding all_node_rows node_row node_header role_cells network_cells size_cells
  all_node_rows-Wide [] = tt
  all_node_rows-Wide (r ∷ rs) =
      elim (Bool-cases (contains r.config.profile "RR" && not (r.driver == "netperf"))) [
        | inl skipped ↦ rw skipped (all_node_rows-Wide rs)
        | inr kept ↦ rw kept (refl, (refl, all_node_rows-Wide rs))
      ]

  metrics-IsAligned :
      (show_metrics : Bool) (rs : List (Data Real))
      → All IsAligned (metrics_tables F show_metrics rs)
  unfolding metrics_tables show_node_cpu show_pod_cpu show_pod_mem IsAligned
  metrics-IsAligned true rs =
      (all_node_rows-Wide rs, (all_pod_rows-Wide rs, (all_mem_rows-Wide rs, tt)))
  metrics-IsAligned false rs = tt

module _ (F : Float64) (S : Statistics F.Real) (title : String → String) where
  open F use {Real}

  specific_rows-Wide :
      (rs : List (Data Real)) → Wide specific_table_header (specific_rows F S title rs)
  unfolding specific_rows specific_table_header test_cells network_cells size_cells run_cells
  specific_rows-Wide [] = tt
  specific_rows-Wide (r ∷ rs) =
      All-append _ _ _
        (row_if-Wide specific_table_header (contains r.config.profile "TCP_STREAM") _ refl)
        (All-append _ _ _
          (row_if-Wide specific_table_header (contains r.config.profile "UDP_STREAM") _ refl)
          (specific_rows-Wide rs))

  throughput_rows-Wide :
      (test_type : String) (rs : List (Data Real))
      → Wide throughput_header (throughput_rows F S title test_type rs)
  unfolding throughput_rows throughput_row throughput_header test_cells network_cells size_cells
      run_cells
  throughput_rows-Wide test_type [] = tt
  throughput_rows-Wide test_type (r ∷ rs) =
      All-append _ _ _
        (row_if-Wide throughput_header
          (contains r.config.profile test_type && not (is_empty r.driver)) _ refl)
        (throughput_rows-Wide test_type rs)

  stream_latency_rows-Wide :
      (rs : List (Data Real)) → Wide stream_latency_header (stream_latency_rows F S title rs)
  unfolding stream_latency_rows stream_latency_header stream_latency_cells network_cells size_cells
      run_cells
  stream_latency_rows-Wide [] = tt
  stream_latency_rows-Wide (r ∷ rs) =
      All-append _ _ _
        (row_if-Wide stream_latency_header (contains r.config.profile "STREAM_LAT") _ refl)
        (stream_latency_rows-Wide rs)

  rr_latency_rows-Wide :
      (rs : List (Data Real)) → Wide rr_latency_header (rr_latency_rows F S title rs)
  unfolding rr_latency_rows rr_latency_header test_cells network_cells size_cells run_cells
  rr_latency_rows-Wide [] = tt
  rr_latency_rows-Wide (r ∷ rs) =
      All-append _ _ _ (row_if-Wide rr_latency_header (contains r.config.profile "RR") _ refl)
        (rr_latency_rows-Wide rs)

  table_if-IsAligned : (b : Bool) (t : Table) → IsAligned t → All IsAligned (table_if F S title b t)
  unfolding table_if
  table_if-IsAligned true t h = (h, tt)
  table_if-IsAligned false t h = tt

  stream_result-IsAligned :
      (rs : List (Data Real)) → All IsAligned (show_stream_result F S title rs)
  unfolding show_stream_result render_results IsAligned
  stream_result-IsAligned rs = table_if-IsAligned _ _ (throughput_rows-Wide "STREAM" rs)

  rr_result-IsAligned : (rs : List (Data Real)) → All IsAligned (show_rr_result F S title rs)
  unfolding show_rr_result render_results IsAligned
  rr_result-IsAligned rs = table_if-IsAligned _ _ (throughput_rows-Wide "RR" rs)

  latency_result-IsAligned :
      (rs : List (Data Real)) → All IsAligned (show_latency_result F S title rs)
  unfolding show_latency_result IsAligned
  latency_result-IsAligned rs =
      let stream : Table = record {
        header = stream_latency_header;
        rows = stream_latency_rows F S title rs;
      } in
      let rr : Table = record { header = rr_latency_header; rows = rr_latency_rows F S title rs } in
      All-append IsAligned (table_if F S title (check_results rs "STREAM_LAT") stream)
        (table_if F S title (check_results rs "RR") rr)
        (table_if-IsAligned _ stream (stream_latency_rows-Wide rs))
        (table_if-IsAligned _ rr (rr_latency_rows-Wide rs))

  specific_results-IsAligned :
      (rs : List (Data Real)) → IsAligned (show_specific_results F S title rs)
  unfolding show_specific_results IsAligned
  specific_results-IsAligned rs = specific_rows-Wide rs

  -- Every row of every table that `Run` prints has as many cells as its table's header.
  pub tables-IsAligned :
      (show_metrics : Bool) (rs : List (Data Real))
      → All IsAligned (tables F S title show_metrics rs)
  unfolding tables
  tables-IsAligned show_metrics rs =
      let streams = show_stream_result F S title rs in
      let rrs = show_rr_result F S title rs in
      let latencies = show_latency_result F S title rs in
      let last = show_specific_results F S title rs ∷ metrics_tables F show_metrics rs in
      All-append IsAligned streams (rrs ++ (latencies ++ last)) (stream_result-IsAligned rs) (
        All-append IsAligned rrs (latencies ++ last) (rr_result-IsAligned rs) (
          All-append IsAligned latencies last (latency_result-IsAligned rs)
            (specific_results-IsAligned rs, metrics-IsAligned F show_metrics rs)))
