-- ===== src/Workload/Samples/Retries.antt =====
-- The retries of a sample whose runs fail (`executeWorkload`).
use k8s_netperf.Prelude.{
  ℕ, zero, suc, ◌+◌, ◌≤◌, String, Option, none, some, Option-cases, ◌≡◌, refl, arith, inl, inr,
}
use k8s_netperf.Drivers.{Sample}
use k8s_netperf.Workload.Samples.{Tried, parsed, gave_up, still_running, retry_from}

-- How many of the `n` runs from the k-th on succeed.
abbrev pub successes : (ℕ → Option String) → ℕ → ℕ → ℕ
successes run k zero = 0
successes run k (suc n) = elim (run k) [
  | none ↦ successes run (suc k) n
  | some _ ↦ suc (successes run (suc k) n)
]

-- The retries are over, after at most `most` runs from the k-th on.
abbrev pub IsOver : {R : Type 0} → ℕ → ℕ → Tried R → Type 0
IsOver k most (parsed nr k') = (suc k ≤ k') × (k' ≤ k + most)
IsOver k most (gave_up k') = (k ≤ k') × (k' ≤ k + most)
IsOver k most still_running = ⊥

module _ {R : Type 0} where
  IsOver-suc : (k most : ℕ) (t : Tried R) → IsOver (suc k) most t → IsOver k (suc most) t
  IsOver-suc k most (parsed nr k') h = (omega (arith, h.0), omega (arith, h.1))
  IsOver-suc k most (gave_up k') h = (omega (arith, h.0), omega (arith, h.1))
  IsOver-suc k most still_running h = h

module _ {R : Type 0} (run : ℕ → Option String) (parse : String → Option (Sample R)) where
  -- The retries of a sample are over, within as many runs as there is fuel, when as many of these
  -- runs succeed as there are tries left: a run that fails is not counted, one that succeeds is.
  pub retry_from-IsOver :
      (fuel left k : ℕ)
      → left ≤ successes run k fuel
      → IsOver k fuel (retry_from run parse fuel left k)
  unfolding retry_from
  retry_from-IsOver fuel zero k h = (omega arith, omega arith)
  retry_from-IsOver zero (suc left) k h = let never : ⊥ = omega (arith, h) in never
  retry_from-IsOver (suc fuel) (suc left) k h = elim (Option-cases (run k)) [
    | inl e ↦
        let again = retry_from-IsOver fuel (suc left) (suc k) (ground (arith, e, h)) in
        rw (e, IsOver, retry_from) (IsOver-suc k fuel _ again)
    | inr (out, e) ↦ elim (Option-cases (parse out)) [
      | inr (nr, p) ↦ rw (e, p, IsOver, retry_from) (omega arith, omega arith)
      | inl p ↦
          let next = retry_from-IsOver fuel left (suc k) (ground (arith, e, h)) in
          rw (e, p, IsOver, retry_from) (IsOver-suc k fuel _ next)
    ]
  ]

  -- While every run fails the retries never end, whatever the fuel: the loop does not count them.
  pub retry_from_unending :
      (fuel left k : ℕ)
      → ((j : ℕ) → run j ≡ none)
      → retry_from run parse fuel (suc left) k ≡ still_running
  unfolding retry_from
  retry_from_unending zero left k h = refl
  retry_from_unending (suc fuel) left k h =
      rw (h k, retry_from) (retry_from_unending fuel left (suc k) h)
