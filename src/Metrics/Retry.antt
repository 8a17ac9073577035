-- ===== src/Metrics/Retry.antt =====
-- `queryPrometheusWithRetry` of pkg/metrics/system.go.
pub mod Schedule
use k8s_netperf.Prelude.{
  ℕ, zero, suc, ◌+◌, ◌-◌, ◌*◌, ◌%◌, ◌^◌, ◌≤◌, ◌<◌, Bool, true, false, ◌&&◌, List, [], ◌∷◌, ltb,
  if◌then◌else◌, ◌≡◌, refl, arith, Result, ok, err,
}
use k8s_netperf.Prelude.Int.{ℤ, pos, negsuc}

-- A `time.Duration` by its 64 bits: from 2 ^ 63 on it is negative.
abbrev pub Duration : Type 0
Duration = ℕ

pub is_positive : Duration → Bool
is_positive d = ltb 0 d && ltb d (2 ^ 63)

pub double : Duration → Duration
double d = (2 * d) % 2 ^ 64

-- What a call returns, and what it did: how many queries it made and how long it slept.
pub record Trace (E A : Type 0) : Type 0 where
  pub result : Result E A
  pub queries : ℕ
  pub sleeps : List Duration

sleep : Duration → List Duration → List Duration
unfolding is_positive
sleep d rest = if is_positive d then d ∷ rest else rest

module _ {E A : Type 0} (query : ℕ → Result E A) where
  -- The rounds from `attempt` on, with `left` more after it.
  pub attempts_from : ℕ → ℕ → Duration → Trace E A
  unfolding sleep double
  attempts_from zero attempt backoff = record { result = query attempt; queries = 1; sleeps = [] }
  attempts_from (suc left) attempt backoff = elim (query attempt) [
    | ok v ↦ record { result = ok v; queries = 1; sleeps = [] }
    | err e ↦
        let rest = attempts_from left (attempt + 1) (double backoff) in
        record {
          result = rest.result;
          queries = suc rest.queries;
          sleeps = sleep backoff rest.sleeps;
        }
  ]

  -- The k-th call of the query closure is `query k`.
  unfoldable pub query_prometheus_with_retry : ℤ → Duration → Trace E A
  unfolding attempts_from
  query_prometheus_with_retry (pos zero) backoff = attempts_from 0 1 backoff
  query_prometheus_with_retry (pos (suc n)) backoff = attempts_from n 1 backoff
  query_prometheus_with_retry (negsuc n) backoff = attempts_from 0 1 backoff
