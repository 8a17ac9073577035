-- ===== src/Tests/Monitoring.antt =====
-- Queries of Prometheus.
use k8s_netperf.Prelude.{
  ℕ, ◌≤◌, String, true, false, Option, none, some, List, [], ◌∷◌, ◌≡◌, refl, map, last_or, Result,
  ok, err, ltb, if◌then◌else◌,
}
use k8s_netperf.Metrics.Types.{NodeCpu, Stream, matrix, Client, PromConnect}
use k8s_netperf.Metrics.NodeCpu.{
  avg, get_mode, extract_node_cpu, idle, zero_cpu, read_all, read_series, mode_of,
}
use k8s_netperf.Metrics.Extraction.{series_of, extract_node_cpu_modes}
use k8s_netperf.Metrics.Retry.Schedule.{sum}
use k8s_netperf.Metrics.Collect.{query_node_cpu, query_node_cpu_once}
use k8s_netperf.Metrics.Collect.Bounds.{query_node_cpu_bounds}
use k8s_netperf.Tests.{whole}
use k8s_netperf.Tests.Workloads.{node}

-- The third query is the first that succeeds.
abbrev query : ℕ → Result String ℕ
query k = if ltb k 3 then err "down" else ok k

-- A series of idle time, and one of a mode that is not known.
abbrev series : String → List ℕ → Option (Stream ℕ)
series mode values = some (record { label = λ key. mode; values = values })

abbrev answer : List (Option (Stream ℕ))
answer = series "idle" (80 ∷ 90 ∷ []) ∷ none ∷ series "guest" (5 ∷ []) ∷ []

cpu : NodeCpu ℕ
unfolding extract_node_cpu
cpu = elim (extract_node_cpu whole (matrix answer)) [ ok c ↦ c | err _ ↦ zero_cpu whole ]

extract_node_cpu_modes_example :
    get_mode idle cpu ≡ last_or 0 (map (avg whole) (series_of idle answer))
unfolding cpu extract_node_cpu read_all read_series mode_of
extract_node_cpu_modes_example = extract_node_cpu_modes whole answer cpu idle refl

-- The first answer has no series.
abbrev client : ℕ → Client ℕ
client k = record {
  query = λ _. none;
  query_range = λ _. some (matrix (if ltb k 2 then [] else answer));
}

abbrev connection : PromConnect ℕ
connection = record {
  url = "https://prometheus";
  token = "";
  client = some (client 1);
  skip_tls_verify = true;
  openshift = true;
  microshift = false;
}

query_node_cpu_bounds_example :
    let t = query_node_cpu whole node connection client in
    (1 ≤ t.queries)
    × (t.queries ≤ 3)
    × (sum t.sleeps ≤ 3_000_000_000)
    × (t.result ≡ query_node_cpu_once whole node connection (client t.queries))
query_node_cpu_bounds_example = query_node_cpu_bounds whole node connection (client 1) client refl
