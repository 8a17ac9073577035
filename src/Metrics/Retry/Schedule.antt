-- ===== src/Metrics/Retry/Schedule.antt =====
-- How many queries `queryPrometheusWithRetry` (pkg/metrics/system.go) makes, and how long it waits.
use native.Mathlib.Nat.{one-le-pow, pow-suc}
use k8s_netperf.Prelude.{
  ℕ, zero, suc, ◌+◌, ◌-◌, ◌*◌, ◌%◌, ◌^◌, ◌≤◌, ◌<◌, List, [], ◌∷◌, length, ◌≡◌, refl, true, arith,
  ap, ◌⊎◌, inl, inr, Result, ok, err,
}
use k8s_netperf.Prelude.Int.{ℤ, pos, negsuc, rounds}
use k8s_netperf.Metrics.Retry.{
  Duration, is_positive, double, Trace, attempts_from, query_prometheus_with_retry,
}

abbrev pub sum : List Duration → ℕ
sum [] = 0
sum (d ∷ ds) = d + sum ds

small-is_positive : (b j : ℕ) → 0 < b → b * 2 ^ suc j < 2 ^ 63 → is_positive b ≡ true
unfolding is_positive
small-is_positive b j some_wait h =
    let p : 1 ≤ 2 ^ suc j = one-le-pow (suc j) 2 (omega arith) in
    let m : b ≤ b * 2 ^ suc j = grind arith in ground arith

-- Nothing overflows while the last wait fits.
double_exact :
    (b j : ℕ) → b * 2 ^ suc j < 2 ^ 63 → (double b ≡ 2 * b) × (double b * 2 ^ j ≡ b * 2 ^ suc j)
unfolding double
double_exact b j h =
    let p : 1 ≤ 2 ^ j = one-le-pow j 2 (omega arith) in
    let e : b * 2 ^ suc j ≡ 2 * (b * 2 ^ j) = rw pow-suc (omega arith) in
    let m : b ≤ b * 2 ^ j = grind arith in
    let d : (2 * b) % 2 ^ 64 ≡ 2 * b = omega arith in (d, rw d (omega (arith, e)))

module _ {E A : Type 0} (query : ℕ → Result E A) where
  -- The `j` calls from the `k`-th on fail.
  abbrev pub Fails : ℕ → ℕ → Type 0
  Fails k zero = Unit
  Fails k (suc j) = ((e : E) × (query k ≡ err e)) × Fails (k + 1) j

  -- A trace that ends with the answer of the call that follows `j` failures.
  pub record Answers (j : ℕ) (backoff : Duration) (r : Result E A) (t : Trace E A) : Type 0 where
    pub result : t.result ≡ r
    pub queries : t.queries ≡ j + 1
    pub sleeps : length t.sleeps ≡ j
    pub total : sum t.sleeps + backoff ≡ backoff * 2 ^ j

  -- The run ends at the call after `j` failures if that succeeds, or if no attempt is left.
  abbrev pub Ends : ℕ → ℕ → ℕ → Type 0
  Ends left k j = (j ≡ left) ⊎ ((v : A) × (query (k + j) ≡ ok v))

  attempts_from-Answers :
      (left k j : ℕ) (backoff : Duration)
      → j ≤ left
      → 0 < backoff
      → backoff * 2 ^ j < 2 ^ 63
      → Fails k j
      → Ends left k j
      → Answers j backoff (query (k + j)) (attempts_from query left k backoff)
  unfolding attempts_from
  attempts_from-Answers zero k zero backoff le some_wait small fails ends = record {
    result = ap query (omega arith);
    queries = refl;
    sleeps = refl;
    total = omega arith;
  }
  attempts_from-Answers zero k (suc j) backoff le some_wait small fails ends = absurd (omega arith)
  attempts_from-Answers (suc left) k zero backoff le some_wait small fails (inl never) =
      absurd (omega arith)
  attempts_from-Answers (suc left) k zero backoff le some_wait small fails (inr (v, good)) =
      let here : k + 0 ≡ k = omega arith in
      let good' : query k ≡ ok v = rw here at good in
      rw (here, good', attempts_from)
        (record { result = refl; queries = refl; sleeps = refl; total = omega arith })
  attempts_from-Answers (suc left) k (suc j) backoff le some_wait small ((e, bad), fails) ends =
      let shift : k + suc j ≡ (k + 1) + j = omega arith in
      let (exact, product) = double_exact backoff j small in
      let next : Ends left (k + 1) j = elim ends [
        | inl last ↦ inl (omega arith)
        | inr (v, good) ↦ inr (v, rw shift at good)
      ] in
      let ih =
        attempts_from-Answers left (k + 1) j (double backoff) (omega arith) (omega arith)
          (omega arith) fails next in
      let waits : is_positive backoff ≡ true = small-is_positive backoff j some_wait small in
      rw (shift, bad, attempts_from, waits)
        (record {
          result = ih.result;
          queries = omega (arith, ih.queries);
          sleeps = omega (arith, ih.sleeps);
          total = omega (arith, ih.total, exact, product);
        })

  pub query_prometheus_with_retry-Answers :
      (attempts : ℤ) (j : ℕ) (backoff : Duration)
      → j ≤ rounds attempts - 1
      → 0 < backoff
      → backoff * 2 ^ j < 2 ^ 63
      → Fails 1 j
      → Ends (rounds attempts - 1) 1 j
      → Answers j backoff (query (1 + j)) (query_prometheus_with_retry query attempts backoff)
  unfolding query_prometheus_with_retry
  query_prometheus_with_retry-Answers (pos zero) j backoff le some_wait small fails ends =
      attempts_from-Answers 0 1 j backoff le some_wait small fails ends
  query_prometheus_with_retry-Answers (pos (suc n)) j backoff le some_wait small fails ends =
      let e : suc n - 1 ≡ n = omega arith in
      attempts_from-Answers n 1 j backoff (omega arith) some_wait small fails (rw e at ends)
  query_prometheus_with_retry-Answers (negsuc n) j backoff le some_wait small fails ends =
      attempts_from-Answers 0 1 j backoff le some_wait small fails ends
