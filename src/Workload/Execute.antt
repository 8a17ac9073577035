-- ===== src/Workload/Execute.antt =====
-- `executeWorkload` of cmd/k8s-netperf/k8s-netperf.go.
pub mod Outcome
use k8s_netperf.Prelude.{
  ℕ, String, Bool, true, false, not, ◌&&◌, if◌then◌else◌, Option, none, some, List, [], Result, ok,
  err,
}
use k8s_netperf.Prelude.Int.{ℤ, rounds}
use k8s_netperf.Float.{Float64}
use k8s_netperf.Config.{Config}
use k8s_netperf.Cluster.{Pod}
use k8s_netperf.Drivers.{Sample, Driver, new_driver, is_test_supported, zero_sample}
use k8s_netperf.Drivers.Parse.{Libraries, parse_with}
use k8s_netperf.Metrics.Types.{NodeInfo, PodValues}
use k8s_netperf.Metrics.NodeCpu.{zero_cpu}
use k8s_netperf.Results.{Data}
use k8s_netperf.Flags.{Flags}
use k8s_netperf.Workload.{PerfScenarios, Stop, unknown_driver}
use k8s_netperf.Workload.Server.{Decoders, Chosen, choose_server, choose_client}
use k8s_netperf.Workload.Samples.{Summaries, sample_client}

-- What the function calls: the k-th `driver.Run` on a client that has a pod and an address, the libraries of the
-- drivers' `ParseResults`, and the clock before and after.
pub record World (R : Type 0) : Type 0 where
  pub run : Driver → List Pod → String → Bool → ℕ → Option String
  pub libraries : Libraries R
  pub started : ℕ
  pub ended : ℕ

module _ (F : Float64) (D : Decoders) (f : Flags) (server_ip : String) where
  open F use {Real}

  abbrev pub no_values : PodValues Real
  no_values = record { results = []; mem_results = [] }

  abbrev pub no_info : NodeInfo
  no_info = record { ip = ""; node_name = "" }

  -- The result before the first sample.
  unfoldable pub prepared : ℕ → Config → PerfScenarios → Bool → String → Bool → Chosen → Data Real
  prepared started nc s host_net driver virt c = record {
    config = nc;
    driver = driver;
    metric = nc.metric;
    same_node = s.node_local;
    host_network = host_net;
    client_node_info = no_info;
    server_node_info = no_info;
    sample = zero_sample F;
    start_time = started;
    end_time = 0;
    service = nc.service;
    across_az = if s.node_local then false else if s.across_az then true else nc.across_az;
    throughput_summary = [];
    latency_avg_summary = [];
    latency50_summary = [];
    latency_summary = [];
    loss_summary = [];
    retransmit_summary = [];
    client_metrics = zero_cpu F;
    server_metrics = zero_cpu F;
    client_cpu_collected = false;
    server_cpu_collected = false;
    client_pod_cpu = no_values;
    client_pod_mem = no_values;
    server_pod_cpu = no_values;
    server_pod_mem = no_values;
    external_server = c.external_server;
    udn_info = c.udn_info;
    bridge_info = c.bridge_info;
    sriov_info = c.sriov_info;
    macvlan_info = c.macvlan_info;
    virt = virt;
  }

  -- The result after the last one.
  unfoldable pub completed : ℕ → PerfScenarios → Summaries Real → Data Real → Data Real
  completed ended s t npr = record npr {
    end_time = ended;
    client_node_info = s.client_node_info;
    server_node_info = s.server_node_info;
    throughput_summary = t.throughput;
    latency_avg_summary = t.latency_avg;
    latency50_summary = t.latency50;
    latency_summary = t.latency99;
    loss_summary = t.loss;
    retransmit_summary = t.retransmits;
  }

  -- What the loop over the samples gives.
  unfoldable pub reported :
      ℕ
      → PerfScenarios
      → Data Real
      → Option (Result Stop (Summaries Real × ℕ))
      → Option (Result Stop (Data Real × Bool × ℕ))
  unfolding completed
  reported ended s npr none = none
  reported ended s npr (some (err e)) = some (err e)
  reported ended s npr (some (ok (t, k))) = some (ok (completed ended s t npr, true, k))

  -- `none` while a retry goes on; `(npr, ok)` and the number of runs so far.
  unfoldable pub execute_workload :
      World Real
      → ℕ
      → Config
      → PerfScenarios
      → Bool
      → String
      → Bool
      → ℕ
      → Option (Result Stop (Data Real × Bool × ℕ))
  unfolding prepared reported
  execute_workload w fuel nc s host_net driver virt k =
      elim (choose_server D f server_ip nc s host_net driver virt) [
        | err e ↦ some (err e)
        | ok c ↦ elim (new_driver driver nc) [
          | none ↦ some (err unknown_driver)
          | some d ↦
              let npr = prepared w.started nc s host_net driver virt c in
              let client = choose_client s host_net virt in
              let sampled =
                sample_client (w.run d client c.server_ip virt) (parse_with F w.libraries d nc) fuel
                  client (rounds nc.samples) k in
              if not (is_test_supported d)
              then some (ok (npr, false, k))
              else reported w.ended s npr sampled
        ]
      ]
