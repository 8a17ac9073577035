-- ===== src/Archive/Widths.antt =====
-- The widths of the rows and headers of the CSV files of pkg/archive/archive.go.
use k8s_netperf.Prelude.{
  String, Bool, true, false, List, [], ◌∷◌, ◌++◌, length, All, All-append, ◌≡◌, refl,
}
use k8s_netperf.Prelude.Text.{contains}
use k8s_netperf.Float.{Float64}
use k8s_netperf.Results.{Data}
use k8s_netperf.Metrics.Types.{PodCpu, PodMem}
use k8s_netperf.Archive.{Statistics}
use k8s_netperf.Archive.Csv.{
  Row, File, header_of, result_header, specific_header, common_csv_header_fields,
  common_csv_data_fields, pod_rows, pod_mem_rows, archive_rows, prom_data_rows, prom_rows, row_if,
  specific_data_rows, result_data_rows,
}

-- A row has the width of the header of its file.
pub Fits : File × Row → Type 0
Fits r = length r.1 ≡ length (header_of r.0)

pub IsWide : Row → Row → Type 0
IsWide header row = length row ≡ length header

module _ (F : Float64) (S : Statistics F.Real) where
  open F use {Real}

  pod_rows-Fits :
      (role : String) (row : Data Real) (pods : List (PodCpu Real))
      → All Fits (pod_rows F S role row pods)
  unfolding pod_rows Fits header_of common_csv_header_fields common_csv_data_fields
  pod_rows-Fits role row [] = tt
  pod_rows-Fits role row (pod ∷ pods) = (refl, pod_rows-Fits role row pods)

  pod_mem_rows-Fits :
      (role : String) (row : Data Real) (pods : List (PodMem Real))
      → All Fits (pod_mem_rows F S role row pods)
  unfolding pod_mem_rows Fits header_of common_csv_header_fields common_csv_data_fields
  pod_mem_rows-Fits role row [] = tt
  pod_mem_rows-Fits role row (pod ∷ pods) = (refl, pod_mem_rows-Fits role row pods)

  archive_rows-Fits :
      (role : String) (row : Data Real) (pods : List (PodCpu Real)) (mems : List (PodMem Real))
      → All Fits (archive_rows F S role row pods mems)
  unfolding archive_rows Fits header_of common_csv_header_fields common_csv_data_fields
  archive_rows-Fits role row pods mems =
      All-append Fits _ _ (pod_rows-Fits role row pods)
        (All-append Fits _ _ (pod_mem_rows-Fits role row mems) (refl, (refl, tt)))

  prom_data_rows-Fits : (rows : List (Data Real)) → All Fits (prom_data_rows F S rows)
  unfolding prom_data_rows
  prom_data_rows-Fits [] = tt
  prom_data_rows-Fits (row ∷ rows) =
      let cpus = row.client_pod_cpu.results in
      let mems = row.client_pod_mem.mem_results in
      let server_cpus = row.server_pod_cpu.results in
      let server_mems = row.server_pod_mem.mem_results in
      let server = archive_rows F S "Server" row server_cpus server_mems in
      All-append Fits (archive_rows F S "Client" row cpus mems) (server ++ prom_data_rows F S rows)
        (archive_rows-Fits "Client" row cpus mems)
        (All-append Fits server (prom_data_rows F S rows)
          (archive_rows-Fits "Server" row server_cpus server_mems) (prom_data_rows-Fits rows))

  -- Every row that `WritePromCSVResult` writes is as wide as the header of its file.
  pub prom_rows-Fits : (rows : List (Data Real)) → All Fits (prom_rows F S rows)
  unfolding prom_rows Fits
  prom_rows-Fits rows = (refl, (refl, (refl, (refl, prom_data_rows-Fits rows))))

  row_if-IsWide :
      (b : Bool) (row : Row)
      → IsWide specific_header row
      → All (IsWide specific_header) (row_if b row)
  unfolding row_if
  row_if-IsWide true row h = (h, tt)
  row_if-IsWide false row h = tt

  specific_data_rows-IsWide :
      (rows : List (Data Real)) → All (IsWide specific_header) (specific_data_rows F S rows)
  unfolding specific_data_rows IsWide specific_header common_csv_header_fields
      common_csv_data_fields
  specific_data_rows-IsWide [] = tt
  specific_data_rows-IsWide (row ∷ rows) =
      All-append (IsWide specific_header) _ _
        (row_if-IsWide (contains row.config.profile "UDP_STREAM") _ refl)
        (All-append (IsWide specific_header) _ _
          (row_if-IsWide (contains row.config.profile "TCP_STREAM") _ refl)
          (specific_data_rows-IsWide rows))

  result_data_rows-IsWide :
      (rows : List (Data Real)) → All (IsWide result_header) (result_data_rows F S rows)
  unfolding result_data_rows IsWide result_header common_csv_header_fields common_csv_data_fields
  result_data_rows-IsWide [] = tt
  result_data_rows-IsWide (row ∷ rows) = (refl, result_data_rows-IsWide rows)

  -- Every row of results is as wide as its header, in the file of the results and in the one of
  -- losses and retransmissions.
  data_rows-IsWide :
      (rows : List (Data Real))
      → All (IsWide result_header) (result_data_rows F S rows)
        × All (IsWide specific_header) (specific_data_rows F S rows)
  data_rows-IsWide rows = (result_data_rows-IsWide rows, specific_data_rows-IsWide rows)
