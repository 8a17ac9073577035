-- ===== src/Drivers/Uperf/Lengths.antt =====
-- How many values the loop of `(*uperf).ParseResults` collects.
use k8s_netperf.Prelude.{
  ℕ, suc, ◌+◌, ◌≤◌, Bool, true, false, not, ◌&&◌, if◌then◌else◌, List, [], ◌∷◌, ◌++◌, length,
  length-append, to_ℕ, ◌≡◌, refl, arith,
}
use k8s_netperf.Float.{Float64}
use k8s_netperf.Drivers.Uperf.{Transaction, Scan, scan_transaction, scan_transactions, start}

-- The three lists have the same length, of at most `n`.
pub record IsLevel {R : Type 0} (n : ℕ) (t : Scan R) : Type 0 where
  pub bytes : length t.byte_summary ≡ length t.op_summary
  pub latencies : length t.lat_summary ≡ length t.op_summary
  pub bounded : length t.op_summary ≤ n

length-append_if :
    {R : Type 0} (b : Bool) (xs : List R) (x : R)
    → length (if b then xs ++ (x ∷ []) else xs) ≡ length xs + to_ℕ b
length-append_if true xs x = length-append xs (x ∷ [])
length-append_if false xs x = omega arith

at_most_one : (b : Bool) → to_ℕ b ≤ 1
at_most_one b = ground arith

module _ (F : Float64) where
  open F use {Real, of_ℕ, eq, sub, mul, div, parse_float}

  scan_transaction-IsLevel :
      (rr : Bool) (t : Scan Real) (m : Transaction) (n : ℕ)
      → IsLevel n t
      → IsLevel (suc n) (scan_transaction F rr t m)
  unfolding scan_transaction
  scan_transaction-IsLevel rr t m n h =
      let all_ops = sub (parse_float m.ops) t.prev_ops in
      let norm_ops = if rr then div all_ops (of_ℕ 2) else all_ops in
      let latency =
        mul (div (sub (parse_float m.timestamp) t.prev_timestamp) norm_ops) (of_ℕ 1000) in
      let counted = not (eq norm_ops (of_ℕ 0)) && not (eq t.prev_timestamp (of_ℕ 0)) in
      let b = length-append_if counted t.byte_summary (sub (parse_float m.bytes) t.prev_bytes) in
      let l = length-append_if counted t.lat_summary latency in
      let o = length-append_if counted t.op_summary norm_ops in
      record {
        bytes = omega (arith, b, o, h.bytes);
        latencies = omega (arith, l, o, h.latencies);
        bounded = omega (arith, o, h.bounded, at_most_one counted);
      }

  scan_transactions-IsLevel :
      (rr : Bool) (ms : List Transaction) (t : Scan Real) (n : ℕ)
      → IsLevel n t
      → IsLevel (n + length ms) (scan_transactions F rr t ms)
  unfolding scan_transactions
  scan_transactions-IsLevel rr [] t n h = record {
    bytes = h.bytes;
    latencies = h.latencies;
    bounded = omega (arith, h.bounded);
  }
  scan_transactions-IsLevel rr (m ∷ ms) t n h =
      let rest =
        scan_transactions-IsLevel rr ms (scan_transaction F rr t m) (suc n)
          (scan_transaction-IsLevel rr t m n h) in
      record {
        bytes = rest.bytes;
        latencies = rest.latencies;
        bounded = omega (arith, rest.bounded);
      }

  first_is_skipped :
      (rr : Bool) (m : Transaction)
      → eq (of_ℕ 0) (of_ℕ 0) ≡ true
      → IsLevel 0 (scan_transaction F rr (start F) m)
  unfolding scan_transaction
  first_is_skipped rr m zero_eq =
      let all_ops = sub (parse_float m.ops) (of_ℕ 0) in
      let norm_ops = if rr then div all_ops (of_ℕ 2) else all_ops in
      let unset : not (eq (of_ℕ 0) (of_ℕ 0)) ≡ false = ground (arith, zero_eq) in
      let skipped : (not (eq norm_ops (of_ℕ 0)) && not (eq (of_ℕ 0) (of_ℕ 0))) ≡ false =
        ground (arith, unset) in
      rw skipped (record { bytes = refl; latencies = refl; bounded = omega arith })

  -- The three lists that the loop over the transactions fills have the same length, and it is less
  -- than the number of transactions: the first one only sets what the next is compared with.
  scan_transactions_lengths :
      (rr : Bool) (m : Transaction) (ms : List Transaction)
      → eq (of_ℕ 0) (of_ℕ 0) ≡ true
      → IsLevel (length ms) (scan_transactions F rr (start F) (m ∷ ms))
  unfolding scan_transactions
  scan_transactions_lengths rr m ms zero_eq =
      let level =
        scan_transactions-IsLevel rr ms (scan_transaction F rr (start F) m) 0
          (first_is_skipped rr m zero_eq) in
      record {
        bytes = level.bytes;
        latencies = level.latencies;
        bounded = omega (arith, level.bounded);
      }
