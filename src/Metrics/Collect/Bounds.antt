-- ===== src/Metrics/Collect/Bounds.antt =====
-- The load that `QueryNodeCPU` (pkg/metrics/system.go) puts on Prometheus.
use k8s_netperf.Prelude.{
  ℕ, zero, suc, ◌+◌, ◌*◌, ◌^◌, ◌≤◌, ◌<◌, some, Result, ◌≡◌, refl, ap, ◌∙◌, arith, Result-cases, inl,
  inr,
}
use k8s_netperf.Prelude.Int.{pos}
use k8s_netperf.Float.{Float64}
use k8s_netperf.Metrics.Types.{NodeInfo, Client, PromConnect}
use k8s_netperf.Metrics.Retry.{Duration, Trace, query_prometheus_with_retry}
use k8s_netperf.Metrics.Retry.Schedule.{
  sum, Fails, Ends, Answers, query_prometheus_with_retry-Answers,
}
use k8s_netperf.Metrics.Queries.{node_cpu_query}
use k8s_netperf.Metrics.Collect.{query_node_cpu_once, query_node_cpu}

-- What three attempts that start with a second of waiting can do.
abbrev Within : {E A : Type 0} → (ℕ → Result E A) → Trace E A → Type 0
Within query t =
    (1 ≤ t.queries)
    × (t.queries ≤ 3)
    × (sum t.sleeps ≤ 3_000_000_000)
    × (t.result ≡ query t.queries)

abbrev second : Duration
second = 1_000_000_000

Answers-Within :
    {E A : Type 0} (query : ℕ → Result E A) (j : ℕ) (t : Trace E A)
    → j ≤ 2
    → Answers query j second (query (1 + j)) t
    → Within query t
Answers-Within query zero t h a = (
  omega (arith, a.queries),
  omega (arith, a.queries),
  omega (arith, a.total),
  a.result ∙ ap query (omega (arith, a.queries)),
)
Answers-Within query (suc zero) t h a = (
  omega (arith, a.queries),
  omega (arith, a.queries),
  omega (arith, a.total),
  a.result ∙ ap query (omega (arith, a.queries)),
)
Answers-Within query (suc (suc j)) t h a =
    let e : j ≡ 0 = omega arith in
    let total : sum t.sleeps + second ≡ second * 2 ^ 2 = a.total ∙ rw e in
    (
      omega (arith, a.queries),
      omega (arith, a.queries),
      omega (arith, total),
      a.result ∙ ap query (omega (arith, a.queries)),
    )

three_attempts :
    {E A : Type 0} (query : ℕ → Result E A)
    → Within query (query_prometheus_with_retry query (pos 3) second)
three_attempts query = elim (Result-cases (query 1)) [
  | inl (v, first) ↦ answer 0 (omega arith) (omega arith) tt (inr (v, first))
  | inr (e, first) ↦ elim (Result-cases (query 2)) [
    | inl (v, next) ↦ answer 1 (omega arith) (omega arith) ((e, first), tt) (inr (v, next))
    | inr (e', next) ↦
        answer 2 (omega arith) (omega arith) ((e, first), ((e', next), tt)) (inl refl)
  ]
]
  where
    answer :
        (j : ℕ)
        → j ≤ 2
        → second * 2 ^ j < 2 ^ 63
        → Fails query 1 j
        → Ends query 2 1 j
        → Within query (query_prometheus_with_retry query (pos 3) second)
    answer j h small fails ends = Answers-Within query j _ h (
        query_prometheus_with_retry-Answers query (pos 3) j second h (omega arith) small fails ends)

module _ (F : Float64) where
  open F use {Real}

  -- With a client, `QueryNodeCPU` makes at least one and at most three queries, sleeps at most
  -- three seconds in all, and returns what the last of its queries gave.
  pub query_node_cpu_bounds :
      (node : NodeInfo) (conn : PromConnect Real) (c : Client Real) (at_attempt : ℕ → Client Real)
      → conn.client ≡ some c
      → let t = query_node_cpu F node conn at_attempt in
        (1 ≤ t.queries)
        × (t.queries ≤ 3)
        × (sum t.sleeps ≤ 3_000_000_000)
        × (t.result ≡ query_node_cpu_once F node conn (at_attempt t.queries))
  unfolding query_node_cpu query_node_cpu_once node_cpu_query
  query_node_cpu_bounds node conn c at_attempt connected =
      rw (connected, query_node_cpu)
        (three_attempts (λ k. query_node_cpu_once F node conn (at_attempt k)))
