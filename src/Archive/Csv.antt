-- ===== src/Archive/Csv.antt =====
-- The CSV files of pkg/archive/archive.go.
use k8s_netperf.Prelude.{
  ℕ, suc, String, Bool, if◌then◌else◌, ◌==◌, List, [], ◌∷◌, ◌++◌, Result, ok, err,
}
use k8s_netperf.Prelude.Text.{contains, itoa, format_bool}
use k8s_netperf.Float.{Float64}
use k8s_netperf.Results.{Data}
use k8s_netperf.Metrics.Types.{PodCpu, PodMem}
use k8s_netperf.Archive.{Statistics, interval}

abbrev pub Row : Type 0
Row = List String

pub data Error : Type 0 where
  write_failed : Error

-- The files of the metrics.
pub data File : Type 0 where
  vswitch cpu_archive pod_archive pod_mem_archive : File

unfoldable pub common_csv_header_fields : Row
common_csv_header_fields =
    "Driver" ∷ "Profile" ∷ "Same node" ∷ "Host Network" ∷ "VM mode" ∷ "Service" ∷ "External Server"
    ∷ "UDN Info" ∷ "Bridge Info" ∷ "SR-IOV Info" ∷ "Macvlan Info" ∷ "Duration" ∷ "Parallelism"
    ∷ "# of Samples" ∷ "Message Size" ∷ "Burst" ∷ "Confidence metric - low"
    ∷ "Confidence metric - high" ∷ []

-- The rows after the ones that are written, one write after the other; the k-th may fail.
unfoldable pub write_all : {A : Type 0} → (ℕ → Bool) → ℕ → List A → Result Error (Unit {0})
write_all accepts k [] = ok tt
write_all accepts k (row ∷ rows) =
    let rest = write_all accepts (suc k) rows in if accepts k then rest else err write_failed

-- The header of each file of the metrics.
unfoldable pub header_of : File → Row
unfolding common_csv_header_fields
header_of vswitch =
    "Role" ∷ (common_csv_header_fields ++ ("CPU Utilization" ∷ "Memory Utilization" ∷ []))
header_of cpu_archive =
    "Role"
    ∷ (common_csv_header_fields
        ++ ("Idle CPU" ∷ "User CPU" ∷ "System CPU" ∷ "IOWait CPU" ∷ "Steal CPU" ∷ "SoftIRQ CPU"
            ∷ "IRQ CPU" ∷ []))
header_of pod_archive = "Role" ∷ (common_csv_header_fields ++ ("Pod Name" ∷ "Utilization" ∷ []))
header_of pod_mem_archive = "Role" ∷ (common_csv_header_fields ++ ("Pod Name" ∷ "Utilization" ∷ []))

unfoldable pub result_header : Row
unfolding common_csv_header_fields
result_header =
    common_csv_header_fields
    ++ ("Avg Throughput" ∷ "Throughput Metric" ∷ "99%tile Observed Latency" ∷ "Latency Metric" ∷ [])

unfoldable pub specific_header : Row
unfolding common_csv_header_fields
specific_header = "Type" ∷ (common_csv_header_fields ++ ("Value" ∷ []))

unfoldable pub row_if : Bool → Row → List Row
row_if b row = if b then row ∷ [] else []

module _ (F : Float64) (S : Statistics F.Real) where
  open F use {Real, format_fixed, format_short, format_plain}

  unfoldable pub common_csv_data_fields : Data Real → Row
  unfolding interval
  common_csv_data_fields row =
      let (lo, hi) = interval F S row in
      row.driver
      ∷ row.config.profile
      ∷ format_bool row.same_node
      ∷ format_bool row.host_network
      ∷ format_bool row.virt
      ∷ format_bool row.service
      ∷ format_bool row.external_server
      ∷ row.udn_info
      ∷ row.bridge_info
      ∷ row.sriov_info
      ∷ row.macvlan_info
      ∷ itoa row.config.duration
      ∷ itoa row.config.parallelism
      ∷ itoa row.config.samples
      ∷ itoa row.config.message_size
      ∷ itoa row.config.burst
      ∷ format_plain lo
      ∷ format_plain hi
      ∷ []

  -- The two loops of `writeArchive` over pods.
  unfoldable pub pod_rows : String → Data Real → List (PodCpu Real) → List (File × Row)
  unfolding common_csv_data_fields
  pod_rows role row [] = []
  pod_rows role row (pod ∷ pods) =
      (pod_archive, role ∷ (common_csv_data_fields row ++ (pod.name ∷ format_fixed pod.value ∷ [])))
      ∷ pod_rows role row pods

  unfoldable pub pod_mem_rows : String → Data Real → List (PodMem Real) → List (File × Row)
  unfolding common_csv_data_fields
  pod_mem_rows role row [] = []
  pod_mem_rows role row (pod ∷ pods) =
      (
        pod_mem_archive,
        role ∷ (common_csv_data_fields row ++ (pod.name ∷ format_fixed pod.value ∷ [])),
      )
      ∷ pod_mem_rows role row pods

  -- The rows of `writeArchive`, in the order in which they are written.
  unfoldable pub archive_rows :
      String → Data Real → List (PodCpu Real) → List (PodMem Real) → List (File × Row)
  unfolding pod_rows pod_mem_rows common_csv_data_fields
  archive_rows role row pods mems =
      let cpu = if role == "Server" then row.server_metrics else row.client_metrics in
      pod_rows role row pods
      ++ (pod_mem_rows role row mems
          ++ ((
            vswitch,
            role
                ∷ (common_csv_data_fields row
                    ++ (format_fixed cpu.vswitch_cpu ∷ format_fixed cpu.vswitch_mem ∷ [])),
          )
              ∷ (
                cpu_archive,
                role
                    ∷ (common_csv_data_fields row
                        ++ (format_fixed cpu.idle
                            ∷ format_fixed cpu.user
                            ∷ format_fixed cpu.system
                            ∷ format_fixed cpu.iowait
                            ∷ format_fixed cpu.steal
                            ∷ format_fixed cpu.softirq
                            ∷ format_fixed cpu.irq
                            ∷ [])),
              )
              ∷ []))

  unfoldable pub prom_data_rows : List (Data Real) → List (File × Row)
  unfolding archive_rows
  prom_data_rows [] = []
  prom_data_rows (row ∷ rows) =
      archive_rows "Client" row row.client_pod_cpu.results row.client_pod_mem.mem_results
      ++ (archive_rows "Server" row row.server_pod_cpu.results row.server_pod_mem.mem_results
          ++ prom_data_rows rows)

  -- `WritePromCSVResult`, once its files are open.
  unfoldable pub prom_rows : List (Data Real) → List (File × Row)
  unfolding prom_data_rows header_of
  prom_rows results =
      (cpu_archive, header_of cpu_archive)
      ∷ (pod_archive, header_of pod_archive)
      ∷ (pod_mem_archive, header_of pod_mem_archive)
      ∷ (vswitch, header_of vswitch)
      ∷ prom_data_rows results

  unfoldable pub write_prom_csv_result : (ℕ → Bool) → List (Data Real) → Result Error (Unit {0})
  unfolding write_all prom_rows
  write_prom_csv_result accepts results = write_all accepts 0 (prom_rows results)

  -- `WriteSpecificCSV`: a profile may have both rows.
  unfoldable pub specific_data_rows : List (Data Real) → List Row
  unfolding common_csv_data_fields row_if
  specific_data_rows [] = []
  specific_data_rows (row ∷ rows) =
      let loss = (S.average row.loss_summary).0 in
      let rt = (S.average row.retransmit_summary).0 in
      let common = common_csv_data_fields row in
      row_if (contains row.config.profile "UDP_STREAM")
        ("UDP Percent Loss" ∷ (common ++ (format_fixed loss ∷ [])))
      ++ (row_if (contains row.config.profile "TCP_STREAM")
            ("TCP Retransmissions" ∷ (common ++ (format_fixed rt ∷ [])))
          ++ specific_data_rows rows)

  unfoldable pub write_specific_csv : (ℕ → Bool) → List (Data Real) → Result Error (Unit {0})
  unfolding write_all specific_data_rows specific_header
  write_specific_csv accepts results =
      write_all accepts 0 (specific_header ∷ specific_data_rows results)

  -- `WriteCSVResult`
  unfoldable pub result_data_rows : List (Data Real) → List Row
  unfolding common_csv_data_fields
  result_data_rows [] = []
  result_data_rows (row ∷ rows) =
      let avg = (S.average row.throughput_summary).0 in
      let lavg = (S.average row.latency_summary).0 in
      (common_csv_data_fields row
        ++ (format_fixed avg ∷ row.metric ∷ format_short lavg ∷ "usec" ∷ []))
      ∷ result_data_rows rows

  unfoldable pub write_csv_result : (ℕ → Bool) → List (Data Real) → Result Error (Unit {0})
  unfolding write_all result_data_rows result_header
  write_csv_result accepts results = write_all accepts 0 (result_header ∷ result_data_rows results)
