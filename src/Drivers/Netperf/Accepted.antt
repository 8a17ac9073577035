-- ===== src/Drivers/Netperf/Accepted.antt =====
-- The outputs that `(*netperf).ParseResults` accepts (pkg/drivers/netperf.go).
use k8s_netperf.Prelude.{
  ◌≤◌, String, Bool, true, false, not, ◌||◌, List, [], ◌∷◌, All, length, ltb, ok, ◌>>=◌, >>=-eq-ok,
  ◌≡◌, refl, arith, Bool-cases, inl, inr,
}
use k8s_netperf.Prelude.Text.{contains, is_empty, split, trim_space}
use k8s_netperf.Float.{Float64}
use k8s_netperf.Drivers.{Sample}
use k8s_netperf.Drivers.Netperf.{
  Scan, scan_pair, scan_parts, scan_lines, finish, start, parse_results,
}

-- A line for the throughput, not its unit, or for the 99th percentile has a value.
abbrev pub has_value : List String → Bool
has_value (key ∷ value ∷ rest) =
    contains key "THROUGHPUT_UNITS"
    || (not (contains key "THROUGHPUT" || contains key "P99_LATENCY")
        || not (is_empty (trim_space value)))
has_value _ = true

pub HasValue : String → Type 0
HasValue line = has_value (split b'=' line) ≡ true

module _ (F : Float64) where
  open F use {Real, is_nan}

  scan_pair-eq-ok :
      (key value : String) (rest : List String) (t t' : Scan Real)
      → scan_pair F key value t ≡ ok t'
      → has_value (key ∷ value ∷ rest) ≡ true
  unfolding scan_pair
  scan_pair-eq-ok key value rest t t' h = ground (arith, h)

  scan_parts-eq-ok :
      (parts : List String) (t t' : Scan Real)
      → scan_parts F parts t ≡ ok t'
      → has_value parts ≡ true
  unfolding scan_parts
  scan_parts-eq-ok [] t t' h = refl
  scan_parts-eq-ok (key ∷ []) t t' h = refl
  scan_parts-eq-ok (key ∷ value ∷ rest) t t' h = scan_pair-eq-ok key value rest t t' h

  scan_lines-eq-ok :
      (lines : List String) (t t' : Scan Real) → scan_lines F lines t ≡ ok t' → All HasValue lines
  unfolding scan_lines HasValue
  scan_lines-eq-ok [] t t' h = tt
  scan_lines-eq-ok (line ∷ lines) t t' h =
      let (t1, first, rest) = >>=-eq-ok (scan_parts F (split b'=' line) t) _ h in
      (scan_parts-eq-ok (split b'=' line) t t1 first, scan_lines-eq-ok lines t1 t' rest)

  finish-eq-ok :
      (t : Scan Real) (s : Sample Real)
      → finish F t ≡ ok s
      → (is_nan t.sample.throughput ≡ false) × (is_nan t.sample.latency99ptile ≡ false)
  unfolding finish
  finish-eq-ok t s h = (ground (arith, h), ground (arith, h))

  -- An output that is accepted has at least five lines, and every line of it for the throughput or
  -- the 99th percentile of the latency has a value, and neither is NaN in what the lines leave.
  pub parse_results-eq-ok :
      (driver stdout : String) (s : Sample Real)
      → parse_results F driver stdout ≡ ok s
      → (5 ≤ length (split b'\n' stdout))
        × All HasValue (split b'\n' stdout)
        × ((t : Scan Real) × (scan_lines F (split b'\n' stdout) (start F driver) ≡ ok t)
            × (is_nan t.sample.throughput ≡ false)
            × (is_nan t.sample.latency99ptile ≡ false))
  unfolding parse_results
  parse_results-eq-ok driver stdout s h =
      let lines = split b'\n' stdout in
      elim (Bool-cases (ltb (length lines) 5)) [
        | inl e ↦ let never : ⊥ = ground (arith, e, h) in absurd never
        | inr e ↦
            let long : 5 ≤ length lines = ground (arith, e) in
            let accepted : (scan_lines F lines (start F driver) >>= finish F) ≡ ok s =
              ground (arith, e, h) in
            let (t, scanned, finished) =
              >>=-eq-ok (scan_lines F lines (start F driver)) (finish F) accepted in
            let (a, b) = finish-eq-ok t s finished in
            (long, scan_lines-eq-ok lines _ t scanned, (t, scanned, a, b))
      ]
