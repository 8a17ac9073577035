-- ===== src/Metrics/Collect.antt =====
-- The operations of pkg/metrics/system.go that ask Prometheus.
pub mod Bounds
use mathlib.Core.Option
use k8s_netperf.Prelude.{
  ℕ, zero, suc, ◌^◌, String, Bool, true, false, ◌||◌, ◌&&◌, not, if◌then◌else◌, Option, none, some,
  List, [], ◌∷◌, ◌++◌, last_or, Result, ok, err, ◌>>=◌,
}
use k8s_netperf.Prelude.Int.{ℤ, pos}
use k8s_netperf.Float.{Float64}
use k8s_netperf.Metrics.Types.{
  NodeInfo, NodeCpu, PodCpu, PodMem, PodValues, Stream, Value, matrix, vector, other, Client,
  PromConnect,
}
use k8s_netperf.Metrics.NodeCpu.{
  Error, no_client, query_failed, unexpected_type, unavailable, avg, extract_node_cpu, extract_mtu,
}
use k8s_netperf.Metrics.Retry.{Trace, Duration, query_prometheus_with_retry}
use k8s_netperf.Metrics.Queries.{
  node_details_query, node_cpu_query, top_pod_cpu_query, vswitch_cpu_query, vswitch_mem_query,
  top_pod_mem_query,
}

-- A type assertion that fails, or a nil pointer that is followed, stops the program.
pub data Panic : Type 0 where
  nil_pointer bad_assertion : Panic

abbrev pub prometheus_query_attempts : ℤ
prometheus_query_attempts = pos 3

-- A second, in nanoseconds.
abbrev pub prometheus_query_initial_backoff : Duration
prometheus_query_initial_backoff = 1_000_000_000

-- `Metadata.GetPrometheus` of go-commons, a parameter: the URL and the token, or an error.
unfoldable pub discover : {R : Type 0} → Option (Option (String × String)) → PromConnect R × Bool
discover meta = elim meta [
  | none ↦ (
    record {
      url = "";
      token = "";
      client = none;
      skip_tls_verify = false;
      openshift = false;
      microshift = false;
    },
    false,
  )
  | some none ↦ (
    record {
      url = "";
      token = "";
      client = none;
      skip_tls_verify = false;
      openshift = false;
      microshift = false;
    },
    false,
  )
  | some (some (url, token)) ↦ (
    record {
      url = url;
      token = token;
      client = none;
      skip_tls_verify = true;
      openshift = true;
      microshift = false;
    },
    true,
  )
]

module _ (F : Float64) where
  open F use {Real, of_ℕ}

  or_failed : Option (Value Real) → Result Error (Value Real)
  or_failed none = err query_failed
  or_failed (some v) = ok v

  -- The k-th time that the range is asked for, the client answers as `client k` does.
  unfoldable pub query_node_cpu_once :
      NodeInfo → PromConnect Real → Client Real → Result Error (NodeCpu Real)
  unfolding or_failed
  query_node_cpu_once node conn client =
      or_failed (client.query_range (node_cpu_query node conn)) >>= extract_node_cpu F

  -- `QueryNodeCPU`. Between two attempts the server may change, so each has a client of its own.
  unfoldable pub query_node_cpu :
      NodeInfo → PromConnect Real → (ℕ → Client Real) → Trace Error (NodeCpu Real)
  query_node_cpu node conn at_attempt = elim conn.client [
    | none ↦ record { result = err no_client; queries = 0; sleeps = [] }
    | some _ ↦
        query_prometheus_with_retry (λ k. query_node_cpu_once node conn (at_attempt k))
          prometheus_query_attempts prometheus_query_initial_backoff
  ]

  -- The loop over `val.(model.Matrix)`, with the dereference of each pointer.
  streams : List (Option (Stream Real)) → Result Panic (List (Stream Real))
  streams [] = ok []
  streams (none ∷ v) = err nil_pointer
  streams (some s ∷ v) = streams v >>= λ rest. ok (s ∷ rest)

  as_matrix : Value Real → Result Panic (List (Stream Real))
  unfolding streams
  as_matrix (matrix v) = streams v
  as_matrix (vector v) = err bad_assertion
  as_matrix other = err bad_assertion

  -- `conn.Client.QueryRange`: `none` is its error.
  unfoldable pub query_range :
      PromConnect Real → String → Result Panic (Option (List (Stream Real)))
  unfolding as_matrix
  query_range conn query = elim conn.client [
    | none ↦ err nil_pointer
    | some c ↦ elim (c.query_range query) [
      | none ↦ ok none
      | some v ↦ as_matrix v >>= λ ss. ok (some ss)
    ]
  ]

  pod_cpus : List (Stream Real) → List (PodCpu Real)
  pod_cpus [] = []
  pod_cpus (s ∷ ss) = record { name = s.label "pod"; value = avg F s.values } ∷ pod_cpus ss

  pod_mems : List (Stream Real) → List (PodMem Real)
  pod_mems [] = []
  pod_mems (s ∷ ss) = record { name = s.label "pod"; value = avg F s.values } ∷ pod_mems ss

  unfoldable pub top_pod_cpu : NodeInfo → PromConnect Real → Result Panic (PodValues Real × Bool)
  unfolding query_range pod_cpus
  top_pod_cpu node conn = query_range conn (top_pod_cpu_query node conn) >>= elim [
    | none ↦ ok (record { results = []; mem_results = [] }, false)
    | some ss ↦ ok (record { results = pod_cpus ss; mem_results = [] }, true)
  ]

  unfoldable pub top_pod_mem : NodeInfo → PromConnect Real → Result Panic (PodValues Real × Bool)
  unfolding query_range pod_mems
  top_pod_mem node conn = query_range conn (top_pod_mem_query node conn) >>= elim [
    | none ↦ ok (record { results = []; mem_results = [] }, false)
    | some ss ↦ ok (record { results = []; mem_results = pod_mems ss }, true)
  ]

  -- The value that the loop over the series leaves in a field.
  last_avg : Real → List (Stream Real) → Real
  last_avg x [] = x
  last_avg x (s ∷ ss) = last_avg (avg F s.values) ss

  unfoldable pub vswitch_cpu :
      NodeInfo → PromConnect Real → NodeCpu Real → Result Panic (NodeCpu Real × Bool)
  unfolding query_range last_avg
  vswitch_cpu node conn ndata = query_range conn (vswitch_cpu_query node conn) >>= elim [
    | none ↦ ok (ndata, false)
    | some ss ↦ ok (record ndata { vswitch_cpu = last_avg ndata.vswitch_cpu ss }, true)
  ]

  unfoldable pub vswitch_mem :
      NodeInfo → PromConnect Real → NodeCpu Real → Result Panic (NodeCpu Real × Bool)
  unfolding query_range last_avg
  vswitch_mem node conn ndata = query_range conn (vswitch_mem_query node conn) >>= elim [
    | none ↦ ok (ndata, false)
    | some ss ↦ ok (record ndata { vswitch_mem = last_avg ndata.vswitch_mem ss }, true)
  ]

  -- `NodeMTU`: the query is not made unless the cluster is known to answer it.
  unfoldable pub node_mtu : PromConnect Real → Result Panic (Result Error ℤ)
  unfolding or_failed
  node_mtu conn =
      if not conn.openshift && not conn.microshift then ok (err unavailable) else elim conn.client [
        | none ↦ err nil_pointer
        | some c ↦ ok (or_failed (c.query_range "node_network_mtu_bytes") >>= extract_mtu F)
      ]

  -- `unmarshalVector`: the first sample that decodes. `decode` stands for the round through JSON.
  unfoldable pub unmarshal_vector :
      ((String → String) → Option String) → List (String → String) → Option String
  unmarshal_vector decode [] = none
  unmarshal_vector decode (s ∷ v) = elim (decode s) [
    | none ↦ unmarshal_vector decode v
    | some kernel ↦ some kernel
  ]

  -- `NodeDetails`, by the kernel version that it finds, "" if none.
  first_release : List (String → String) → String
  first_release [] = ""
  first_release (labels ∷ v) = labels "release"

  as_vector : Value Real → Result Panic (List (String → String))
  as_vector (matrix v) = err bad_assertion
  as_vector (vector v) = ok v
  as_vector other = err bad_assertion

  read_details :
      ((String → String) → Option String) → Bool → Option (Value Real) → Result Panic String
  unfolding as_vector first_release unmarshal_vector
  read_details decode micro none = ok ""
  read_details decode micro (some value) = as_vector value >>= λ v.
      ok (if micro then first_release v else Option.get_or (unmarshal_vector decode v) "")

  unfoldable pub node_details :
      ((String → String) → Option String) → PromConnect Real → Result Panic String
  unfolding read_details
  node_details decode conn = elim (node_details_query conn) [
    | none ↦ ok ""
    | some query ↦ elim conn.client [
      | none ↦ err nil_pointer
      | some c ↦ read_details decode conn.microshift (c.query query)
    ]
  ]
