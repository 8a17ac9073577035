-- ===== src/Archive/Docs.antt =====
-- `BuildDocs` of pkg/archive/archive.go.
use k8s_netperf.Prelude.{ℕ, String, Bool, if◌then◌else◌, List, [], ◌∷◌, Result, ok, err}
use k8s_netperf.Prelude.Int.{ℤ}
use k8s_netperf.Prelude.Text.{is_empty}
use k8s_netperf.Float.{Float64}
use k8s_netperf.Results.{Data}
use k8s_netperf.Metrics.Types.{NodeInfo, NodeCpu, PodCpu, PodMem}
use k8s_netperf.Archive.{Statistics, ScenarioResults, interval}

pub record Doc (R M : Type 0) : Type 0 where
  pub uuid : String
  pub timestamp : ℕ
  pub host_network : Bool
  pub driver : String
  pub parallelism : ℤ
  pub profile : String
  pub duration : ℤ
  pub service : Bool
  pub local : Bool
  pub virt : Bool
  pub across_az : Bool
  pub samples : ℤ
  pub messagesize : ℤ
  pub burst : ℤ
  pub throughput : R
  pub latency : R
  pub tput_metric : String
  pub ltcy_metric : String
  pub tcp_retransmit : R
  pub udp_loss_percent : R
  pub tool_version : String
  pub tool_git_commit : String
  pub metadata : M
  pub server_node_cpu : NodeCpu R
  pub server_cpu_collected : Bool
  pub server_pod_cpu : List (PodCpu R)
  pub server_pod_mem : List (PodMem R)
  pub client_node_cpu : NodeCpu R
  pub client_cpu_collected : Bool
  pub client_pod_cpu : List (PodCpu R)
  pub client_pod_mem : List (PodMem R)
  pub confidence : List R
  pub server_node_info : NodeInfo
  pub client_node_info : NodeInfo
  pub server_vswitch_cpu : R
  pub server_vswitch_mem : R
  pub client_vswitch_cpu : R
  pub client_vswitch_mem : R
  pub external_server : Bool
  pub udn_info : String
  pub bridge_info : String
  pub sriov_info : String
  pub macvlan_info : String

pub data Error : Type 0 where
  no_documents : Error

module _ (F : Float64) (S : Statistics F.Real) where
  open F use {Real, of_ℕ}

  -- The mean, or zero where its error is not nil.
  mean_or_zero : List Real → Real
  mean_or_zero values = let (mean, fine) = S.average values in if fine then mean else of_ℕ 0

module _ (F : Float64) (S : Statistics F.Real) {M : Type 0} where
  open F use {Real}

  -- The body of the loop; `now` is the time of the call.
  unfoldable pub doc_of : ScenarioResults Real M → String → ℕ → Data Real → Doc Real M
  unfolding interval mean_or_zero
  doc_of sr uuid now r =
      let (lo, hi) = interval F S r in
      record {
        uuid = uuid;
        timestamp = now;
        host_network = r.host_network;
        driver = r.driver;
        parallelism = r.config.parallelism;
        profile = r.config.profile;
        duration = r.config.duration;
        service = r.service;
        local = r.same_node;
        virt = r.virt;
        across_az = r.across_az;
        samples = r.config.samples;
        messagesize = r.config.message_size;
        burst = r.config.burst;
        throughput = mean_or_zero F S r.throughput_summary;
        latency = mean_or_zero F S r.latency_summary;
        tput_metric = r.metric;
        ltcy_metric = "usec";
        tcp_retransmit = mean_or_zero F S r.retransmit_summary;
        udp_loss_percent = mean_or_zero F S r.loss_summary;
        tool_version = sr.version;
        tool_git_commit = sr.git_commit;
        metadata = sr.metadata;
        server_node_cpu = r.server_metrics;
        server_cpu_collected = r.server_cpu_collected;
        server_pod_cpu = r.server_pod_cpu.results;
        server_pod_mem = r.server_pod_mem.mem_results;
        client_node_cpu = r.client_metrics;
        client_cpu_collected = r.client_cpu_collected;
        client_pod_cpu = r.client_pod_cpu.results;
        client_pod_mem = r.client_pod_mem.mem_results;
        confidence = lo ∷ hi ∷ [];
        server_node_info = r.server_node_info;
        client_node_info = r.client_node_info;
        server_vswitch_cpu = r.server_metrics.vswitch_cpu;
        server_vswitch_mem = r.server_metrics.vswitch_mem;
        client_vswitch_cpu = r.client_metrics.vswitch_cpu;
        client_vswitch_mem = r.client_metrics.vswitch_mem;
        external_server = r.external_server;
        udn_info = r.udn_info;
        bridge_info = r.bridge_info;
        sriov_info = r.sriov_info;
        macvlan_info = r.macvlan_info;
      }

  -- A result without a driver is skipped.
  unfoldable pub docs_of :
      ScenarioResults Real M → String → ℕ → List (Data Real) → List (Doc Real M)
  unfolding doc_of
  docs_of sr uuid now [] = []
  docs_of sr uuid now (r ∷ rs) =
      let rest = docs_of sr uuid now rs in
      if is_empty r.driver then rest else doc_of sr uuid now r ∷ rest

  unfoldable pub docs_from :
      ScenarioResults Real M → String → ℕ → List (Data Real) → Result Error (List (Doc Real M))
  unfolding docs_of
  docs_from sr uuid now [] = err no_documents
  docs_from sr uuid now (r ∷ rs) = ok (docs_of sr uuid now (r ∷ rs))

  unfoldable pub build_docs : ScenarioResults Real M → String → ℕ → Result Error (List (Doc Real M))
  unfolding docs_from
  build_docs sr uuid now = docs_from sr uuid now sr.results
