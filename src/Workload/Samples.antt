-- ===== src/Workload/Samples.antt =====
-- The loop of `executeWorkload` over the samples, with the retries of one of them.
pub mod Retries
pub mod Lengths
use k8s_netperf.Prelude.{
  ℕ, zero, suc, ◌+◌, String, Option, none, some, List, [], ◌∷◌, ◌++◌, Result, ok, err,
}
use k8s_netperf.Drivers.{Sample}
use k8s_netperf.Cluster.{Pod}
use k8s_netperf.Workload.{Stop, run_failed, unsuccessful, panic}

-- What the retries end with, and how many calls of `Run` were made before.
pub data Tried (R : Type 0) : Type 0 where
  parsed : Sample R → ℕ → Tried R
  gave_up : ℕ → Tried R
  still_running : Tried R

pub record Summaries (R : Type 0) : Type 0 where
  pub loss : List R
  pub retransmits : List R
  pub throughput : List R
  pub latency_avg : List R
  pub latency50 : List R
  pub latency99 : List R

abbrev pub no_summaries : {R : Type 0} → Summaries R
no_summaries = record {
  loss = [];
  retransmits = [];
  throughput = [];
  latency_avg = [];
  latency50 = [];
  latency99 = [];
}

unfoldable pub append_sample : {R : Type 0} → Sample R → Summaries R → Summaries R
append_sample nr t = record {
  loss = t.loss ++ (nr.loss_percent ∷ []);
  retransmits = t.retransmits ++ (nr.retransmits ∷ []);
  throughput = t.throughput ++ (nr.throughput ∷ []);
  latency_avg = t.latency_avg ++ (nr.latency ∷ []);
  latency50 = t.latency50 ++ (nr.latency50ptile ∷ []);
  latency99 = t.latency99 ++ (nr.latency99ptile ∷ []);
}

-- The k-th call of `driver.Run` is `run k`, `none` for an error; `parse` is `ParseResults`.
module _ {R : Type 0} (run : ℕ → Option String) (parse : String → Option (Sample R)) where
  -- `for try < retry`, with `left` for `retry - try`. A run that fails does not count as a try, so
  -- the rounds are bounded by fuel alone.
  unfoldable pub retry_from : ℕ → ℕ → ℕ → Tried R
  retry_from fuel zero k = gave_up k
  retry_from zero (suc left) k = still_running
  retry_from (suc fuel) (suc left) k =
      let again = retry_from fuel (suc left) (suc k) in
      let next = retry_from fuel left (suc k) in
      elim (run k) [
        | none ↦ again
        | some out ↦ elim (parse out) [ some nr ↦ parsed nr (suc k) | none ↦ next ]
      ]

  -- One round of the loop over the samples: `none` while the retries go on.
  unfoldable pub take_sample : ℕ → ℕ → Option (Result Stop (Sample R × ℕ))
  unfolding retry_from
  take_sample fuel k = elim (run k) [
    | none ↦ some (err run_failed)
    | some out ↦ elim (parse out) [
      | some nr ↦ some (ok (nr, suc k))
      | none ↦ elim (retry_from fuel 3 (suc k)) [
        | parsed nr k' ↦ some (ok (nr, k'))
        | gave_up k' ↦ some (err unsuccessful)
        | still_running ↦ none
      ]
    ]
  ]

  -- `left` samples are still to be taken.
  unfoldable pub take_samples : ℕ → ℕ → ℕ → Summaries R → Option (Result Stop (Summaries R × ℕ))
  unfolding take_sample append_sample
  take_samples fuel zero k t = some (ok (t, k))
  take_samples fuel (suc left) k t = elim (take_sample fuel k) [
    | none ↦ none
    | some (err e) ↦ some (err e)
    | some (ok (nr, k')) ↦ take_samples fuel left k' (append_sample nr t)
  ]

  -- All samples on a client, of which every driver's `Run` reads the first pod before it runs a
  -- command: without one the first sample is an index out of range.
  unfoldable pub sample_client : ℕ → List Pod → ℕ → ℕ → Option (Result Stop (Summaries R × ℕ))
  unfolding take_samples
  sample_client fuel [] zero k = some (ok (no_summaries, k))
  sample_client fuel [] (suc left) k = some (err panic)
  sample_client fuel (pod ∷ pods) left k = take_samples fuel left k no_summaries
