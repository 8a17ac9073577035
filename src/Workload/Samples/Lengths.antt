-- ===== src/Workload/Samples/Lengths.antt =====
-- The summaries after the loop over the samples (`executeWorkload`).
use k8s_netperf.Prelude.{
  ℕ, zero, suc, ◌+◌, ◌≤◌, String, Option, none, some, Option-cases, List, [], ◌∷◌, ◌++◌, length,
  length-append, Result, ok, err, Result-cases, ◌≡◌, ◌≢◌, ◌⊎◌, refl, arith, inl, inr, subst,
}
use k8s_netperf.Drivers.{Sample}
use k8s_netperf.Cluster.{Pod}
use k8s_netperf.Workload.{Stop, panic}
use k8s_netperf.Workload.Samples.{
  Summaries, append_sample, Tried, parsed, gave_up, still_running, retry_from, take_sample,
  take_samples, no_summaries, sample_client,
}
use k8s_netperf.Workload.Samples.Retries.{successes, IsOver, retry_from-IsOver}

-- All six summaries have `n` values.
pub record IsSized {R : Type 0} (n : ℕ) (t : Summaries R) : Type 0 where
  pub loss : length t.loss ≡ n
  pub retransmits : length t.retransmits ≡ n
  pub throughput : length t.throughput ≡ n
  pub latency_avg : length t.latency_avg ≡ n
  pub latency50 : length t.latency50 ≡ n
  pub latency99 : length t.latency99 ≡ n

module _ {R : Type 0} where
  longer : (xs : List R) (x : R) (n : ℕ) → length xs ≡ n → length (xs ++ (x ∷ [])) ≡ n + 1
  longer xs x n h = omega (arith, length-append xs (x ∷ []), h)

  IsSized-append_sample :
      (n : ℕ) (nr : Sample R) (t : Summaries R) → IsSized n t → IsSized (n + 1) (append_sample nr t)
  unfolding append_sample
  IsSized-append_sample n nr t h = record {
    loss = longer t.loss nr.loss_percent n h.loss;
    retransmits = longer t.retransmits nr.retransmits n h.retransmits;
    throughput = longer t.throughput nr.throughput n h.throughput;
    latency_avg = longer t.latency_avg nr.latency n h.latency_avg;
    latency50 = longer t.latency50 nr.latency50ptile n h.latency50;
    latency99 = longer t.latency99 nr.latency99ptile n h.latency99;
  }

module _ {R : Type 0} where
  Tried-cases :
      (t : Tried R)
      → ((nr : Sample R) × (j : ℕ) × (t ≡ parsed nr j))
        ⊎ (((j : ℕ) × (t ≡ gave_up j)) ⊎ (t ≡ still_running))
  Tried-cases (parsed nr j) = inl (nr, j, refl)
  Tried-cases (gave_up j) = inr (inl (j, refl))
  Tried-cases still_running = inr (inr refl)

no_summaries-IsSized : {R : Type 0} → IsSized 0 (no_summaries {R = R})
no_summaries-IsSized = record {
  loss = refl;
  retransmits = refl;
  throughput = refl;
  latency_avg = refl;
  latency50 = refl;
  latency99 = refl;
}

module _ {R : Type 0} (run : ℕ → Option String) (parse : String → Option (Sample R)) where
  -- A loop over the samples that succeeds appends one value for each to all six summaries.
  pub take_samples-IsSized :
      (fuel left k n : ℕ) (t : Summaries R) (t' : Summaries R) (k' : ℕ)
      → IsSized n t
      → take_samples run parse fuel left k t ≡ some (ok (t', k'))
      → IsSized (n + left) t'
  unfolding take_samples
  take_samples-IsSized fuel zero k n t t' k' s h =
      let same : t ≡ t' = cc h in
      let zero_more : n ≡ n + 0 = omega arith in
      subst (λ m. IsSized m t') zero_more (subst (IsSized n) same s)
  take_samples-IsSized fuel (suc left) k n t t' k' s h =
      elim (Option-cases (take_sample run parse fuel k)) [
        | inl e ↦ let never : ⊥ = ground (arith, e, h) in absurd never
        | inr (r, e) ↦ elim (Result-cases r) [
          | inr (x, f) ↦ let never : ⊥ = ground (arith, e, f, h) in absurd never
          | inl ((nr, j), f) ↦
              let rest : take_samples run parse fuel left j (append_sample nr t)
                  ≡ some (ok (t', k')) =
                ground (arith, e, f, h) in
              let sized =
                take_samples-IsSized fuel left j (n + 1) (append_sample nr t) t' k'
                  (IsSized-append_sample n nr t s) rest in
              subst (λ m. IsSized m t') (omega arith) sized
        ]
      ]

  successes_all :
      (k n : ℕ) → ((j : ℕ) → (out : String) × (run j ≡ some out)) → successes run k n ≡ n
  successes_all k zero h = refl
  successes_all k (suc n) h = let (out, e) = h k in ground (arith, e, successes_all (suc k) n h)

  take_sample_ends :
      (fuel k : ℕ)
      → ((j : ℕ) → (out : String) × (run j ≡ some out))
      → 3 ≤ fuel
      → take_sample run parse fuel k ≢ none
  unfolding take_sample
  take_sample_ends fuel k h enough bad =
      let (out, e) = h k in
      let over =
        retry_from-IsOver run parse fuel 3 (suc k)
          (omega (arith, enough, successes_all (suc k) fuel h)) in
      elim (Option-cases (parse out)) [
        | inr (nr, p) ↦ let never : ⊥ = ground (arith, e, p, bad) in never
        | inl p ↦ elim (Tried-cases (retry_from run parse fuel 3 (suc k))) [
          | inl (nr, j, f) ↦ let never : ⊥ = ground (arith, e, p, f, bad) in never
          | inr (inl (j, f)) ↦ let never : ⊥ = ground (arith, e, p, f, bad) in never
          | inr (inr f) ↦ subst (IsOver (suc k) fuel) f over
        ]
      ]

  -- Where no run fails, three rounds of fuel for the retries are enough for the loop over the
  -- samples to end.
  pub take_samples_ends :
      (fuel left k : ℕ) (t : Summaries R)
      → ((j : ℕ) → (out : String) × (run j ≡ some out))
      → 3 ≤ fuel
      → (r : Result Stop (Summaries R × ℕ)) × (take_samples run parse fuel left k t ≡ some r)
  unfolding take_samples
  take_samples_ends fuel zero k t h enough = (ok (t, k), refl)
  take_samples_ends fuel (suc left) k t h enough =
      elim (Option-cases (take_sample run parse fuel k)) [
        | inl e ↦ absurd (take_sample_ends fuel k h enough e)
        | inr (r, e) ↦ elim (Result-cases r) [
          | inr (x, f) ↦ (err x, ground (arith, e, f))
          | inl ((nr, j), f) ↦
              let (q, g) = take_samples_ends fuel left j (append_sample nr t) h enough in
              (q, ground (arith, e, f, g))
        ]
      ]

  -- The same for the samples on a client, where a client without a pod ends the program.
  pub sample_client_ends :
      (fuel : ℕ) (client : List Pod) (left k : ℕ)
      → ((j : ℕ) → (out : String) × (run j ≡ some out))
      → 3 ≤ fuel
      → (r : Result Stop (Summaries R × ℕ)) × (sample_client run parse fuel client left k ≡ some r)
  unfolding sample_client
  sample_client_ends fuel [] zero k h enough = (ok (no_summaries, k), refl)
  sample_client_ends fuel [] (suc left) k h enough = (err panic, refl)
  sample_client_ends fuel (pod ∷ pods) left k h enough =
      take_samples_ends fuel left k no_summaries h enough

  -- Samples on a client that succeed leave one value for each in all six summaries.
  pub sample_client-IsSized :
      (fuel : ℕ) (client : List Pod) (left k : ℕ) (t : Summaries R) (k' : ℕ)
      → sample_client run parse fuel client left k ≡ some (ok (t, k'))
      → IsSized left t
  unfolding sample_client
  sample_client-IsSized fuel [] zero k t k' h =
      let same : no_summaries ≡ t = cc h in subst (IsSized 0) same no_summaries-IsSized
  sample_client-IsSized fuel [] (suc left) k t k' h = absurd (ground (arith, h))
  sample_client-IsSized fuel (pod ∷ pods) left k t k' h =
      let sized : IsSized (0 + left) t =
        take_samples-IsSized fuel left k 0 no_summaries t k' no_summaries-IsSized h in
      subst (λ m. IsSized m t) (omega arith) sized
