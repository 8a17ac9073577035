-- ===== src/Results.antt =====
-- pkg/results/result.go: what a test leaves, and the comparison of host and pod network.
pub mod Difference
use k8s_netperf.Prelude.{
  ℕ, String, Bool, true, false, not, ◌&&◌, ◌||◌, if◌then◌else◌, ◌==◌, List, [], ◌∷◌, any,
}
use k8s_netperf.Prelude.Int.{ℤ, pos, is_num, same_int}
use k8s_netperf.Prelude.Text.{contains}
use k8s_netperf.Float.{Float64}
use k8s_netperf.Config.{Config}
use k8s_netperf.Drivers.{Sample}
use k8s_netperf.Metrics.Types.{NodeInfo, NodeCpu, PodValues}

-- The embedded `Config` is the field `config`. Times are in any unit.
pub record Data (R : Type 0) : Type 0 where
  pub config : Config
  pub driver : String
  pub metric : String
  pub same_node : Bool
  pub host_network : Bool
  pub client_node_info : NodeInfo
  pub server_node_info : NodeInfo
  pub sample : Sample R
  pub start_time : ℕ
  pub end_time : ℕ
  pub service : Bool
  pub across_az : Bool
  pub throughput_summary : List R
  pub latency_avg_summary : List R
  pub latency50_summary : List R
  pub latency_summary : List R
  pub loss_summary : List R
  pub retransmit_summary : List R
  pub client_metrics : NodeCpu R
  pub server_metrics : NodeCpu R
  pub client_cpu_collected : Bool
  pub server_cpu_collected : Bool
  pub client_pod_cpu : PodValues R
  pub client_pod_mem : PodValues R
  pub server_pod_cpu : PodValues R
  pub server_pod_mem : PodValues R
  pub external_server : Bool
  pub udn_info : String
  pub bridge_info : String
  pub sriov_info : String
  pub macvlan_info : String
  pub virt : Bool

unfoldable pub check_results : {R : Type 0} → List (Data R) → String → Bool
check_results results check = any (λ t. contains t.config.profile check) results

unfoldable pub check_host_results : {R : Type 0} → List (Data R) → Bool
check_host_results results = any (λ t. t.host_network) results

pub record DiffData (R : Type 0) : Type 0 where
  pub message_size : ℤ
  pub streams : ℤ
  pub host_perf : R
  pub pod_perf : R

pub record Diff (R : Type 0) : Type 0 where
  pub message_size : ℤ
  pub result : R
  pub streams : ℤ

module _ (F : Float64) where
  open F use {Real, of_ℕ, add, sub, mul, div, lt}

  unfoldable pub cal_diff : Real → Real → Real
  cal_diff a b = mul (div (sub a b) (div (add a b) (of_ℕ 2))) (of_ℕ 100)

  -- The loop of `doPerfDiff`: the last positive value of each network.
  unfoldable pub perfs : ℤ → ℤ → Real → Real → List (DiffData Real) → Real × Real
  perfs msg streams host pod [] = (host, pod)
  perfs msg streams host pod (d ∷ ds) =
      if same_int d.message_size msg && same_int d.streams streams
      then perfs msg streams (if lt (of_ℕ 0) d.host_perf then d.host_perf else host)
          (if lt (of_ℕ 0) d.pod_perf then d.pod_perf else pod) ds
      else perfs msg streams host pod ds

  unfoldable pub do_perf_diff : List (DiffData Real) → ℤ → ℤ → Real
  unfolding perfs cal_diff
  do_perf_diff diff msg streams =
      let (host, pod) = perfs msg streams (of_ℕ 0) (of_ℕ 0) diff in cal_diff host pod

  -- The value of `Average`, whose error is dropped, is a parameter: it is a library's mean.
  module _ (average : List Real → Real) where
    -- The first loop of `TCPThroughputDiff`.
    unfoldable pub diff_data : List (Data Real) → List (DiffData Real)
    diff_data [] = []
    diff_data (t ∷ ts) =
        let rest = diff_data ts in
        let perf = average t.throughput_summary in
        if (t.config.profile == "TCP_STREAM") && (not t.service && not t.virt)
        then record {
          message_size = t.config.message_size;
          streams = t.config.parallelism;
          host_perf = if t.host_network then perf else of_ℕ 0;
          pod_perf = if t.host_network then of_ℕ 0 else perf;
        }
          ∷ rest
        else rest

    -- The second loop.
    unfoldable pub diffs_of : List (DiffData Real) → List (Data Real) → List (Diff Real)
    unfolding do_perf_diff
    diffs_of diff [] = []
    diffs_of diff (msg ∷ msgs) =
        let rest = diffs_of diff msgs in
        if not msg.service
          && (is_num msg.config.parallelism 1
              && (msg.host_network && (msg.config.profile == "TCP_STREAM")))
        then record {
          message_size = msg.config.message_size;
          result = do_perf_diff diff msg.config.message_size (pos 1);
          streams = msg.config.parallelism;
        }
          ∷ rest
        else rest

    -- Its error is always nil.
    unfoldable pub tcp_throughput_diff : List (Data Real) → List (Diff Real)
    unfolding diff_data diffs_of
    tcp_throughput_diff results = diffs_of (diff_data results) results

    -- What the end of `Run` exits with after the comparison: 1 when a difference is above the
    -- tolerance. The errors on which `Run` exits earlier are not part of it.
    unfoldable pub exit_code : Bool → Real → List (Data Real) → ℕ
    unfolding check_host_results tcp_throughput_diff
    exit_code host_net_only tcpt results =
        if not host_net_only && check_host_results results
        then (if any (λ d. lt tcpt d.result) (tcp_throughput_diff results) then 1 else 0)
        else 0
