-- ===== src/Drivers/Uperf.antt =====
-- `(*uperf).ParseResults` of pkg/drivers/uperf.go.
pub mod Lengths
use k8s_netperf.Prelude.{
  ℕ, String, ◌<>◌, Bool, true, false, not, ◌&&◌, if◌then◌else◌, ◌==◌, Option, none, some, List, [],
  ◌∷◌, ◌++◌,
}
use k8s_netperf.Prelude.Text.{contains, is_empty, split}
use k8s_netperf.Prelude.Scan.{
  after_prefix, after_first, around_last, skip_blanks, take_digits, drop_digits,
}
use k8s_netperf.Float.{Float64}
use k8s_netperf.Drivers.{Sample, zero_sample}

-- The three groups of a match of the pattern for a transaction.
pub record Transaction : Type 0 where
  pub timestamp : String
  pub bytes : String
  pub ops : String

-- `(.*) name:Txn2 nr_bytes:(.*) nr_ops:(.*)`, each group as long as it can be.
groups : String → Option Transaction
unfolding around_last
groups body = elim (around_last " nr_ops:" body) [
  | none ↦ none
  | some (front, ops) ↦ elim (around_last " name:Txn2 nr_bytes:" front) [
    | none ↦ none
    | some (timestamp, bytes) ↦ some (record { timestamp = timestamp; bytes = bytes; ops = ops })
  ]
]

-- The match in a line, where one must end with "\r" and where it need not. The pattern spans no
-- line, and its last group leaves nothing for a second match.
unfoldable pub match_cr : String → Option Transaction
unfolding groups after_first around_last
match_cr line = elim (after_first "timestamp_ms:" line) [
  | none ↦ none
  | some rest ↦ elim (around_last "\r" rest) [ none ↦ none | some (body, after) ↦ groups body ]
]

unfoldable pub match_plain : String → Option Transaction
unfolding groups after_first
match_plain line = elim (after_first "timestamp_ms:" line) [ none ↦ none | some rest ↦ groups rest ]

unfoldable pub find_all : (String → Option Transaction) → List String → List Transaction
find_all match_line [] = []
find_all match_line (line ∷ lines) = elim (match_line line) [
  | none ↦ find_all match_line lines
  | some t ↦ t ∷ find_all match_line lines
]

unfoldable pub transactions : String → List Transaction
unfolding find_all match_cr match_plain split
transactions stdout =
    let lines = split b'\n' stdout in
    elim (find_all match_cr lines) [ [] ↦ find_all match_plain lines | t ∷ ts ↦ t ∷ ts ]

-- `\s*:\s*(\d+(?:\.\d+)?)` after a word.
number_after : String → Option String
unfolding skip_blanks take_digits drop_digits after_prefix
number_after s = elim (after_prefix ":" (skip_blanks s)) [
  | none ↦ none
  | some rest ↦
      let from = skip_blanks rest in
      let whole = take_digits from in
      let fraction : String = elim (after_prefix "." (drop_digits from)) [
        | none ↦ ""
        | some t ↦ take_digits t
      ] in
      if is_empty whole
      then none
      else some (if is_empty fraction then whole else whole <> "." <> fraction)
]

-- The first match of the word and a number.
unfoldable pub find_number : String → String → Option String
unfolding number_after after_prefix
find_number word String.[] = none
find_number word (String.◌∷◌ c s) =
    let later = find_number word s in
    elim (after_prefix word (String.◌∷◌ c s)) [
      | none ↦ later
      | some rest ↦ elim (number_after rest) [ some n ↦ some n | none ↦ later ]
    ]

-- The three lists that the loop over the transactions fills, and what it remembers.
pub record Scan (R : Type 0) : Type 0 where
  pub byte_summary : List R
  pub lat_summary : List R
  pub op_summary : List R
  pub prev_timestamp : R
  pub prev_bytes : R
  pub prev_ops : R

module _ (F : Float64) where
  open F use {Real, of_ℕ, sub, mul, div, eq, parse_float}

  -- One round of the loop. The first flag is that a transaction has two operations.
  unfoldable pub scan_transaction : Bool → Scan Real → Transaction → Scan Real
  scan_transaction rr t m =
      let timestamp = parse_float m.timestamp in
      let bytes = parse_float m.bytes in
      let ops = parse_float m.ops in
      let all_ops = sub ops t.prev_ops in
      let norm_ops = if rr then div all_ops (of_ℕ 2) else all_ops in
      let norm_ltcy = mul (div (sub timestamp t.prev_timestamp) norm_ops) (of_ℕ 1000) in
      let counted = not (eq norm_ops (of_ℕ 0)) && not (eq t.prev_timestamp (of_ℕ 0)) in
      record {
        byte_summary =
            if counted then t.byte_summary ++ (sub bytes t.prev_bytes ∷ []) else t.byte_summary;
        lat_summary = if counted then t.lat_summary ++ (norm_ltcy ∷ []) else t.lat_summary;
        op_summary = if counted then t.op_summary ++ (norm_ops ∷ []) else t.op_summary;
        prev_timestamp = timestamp;
        prev_bytes = bytes;
        prev_ops = ops;
      }

  unfoldable pub scan_transactions : Bool → Scan Real → List Transaction → Scan Real
  unfolding scan_transaction
  scan_transactions rr t [] = t
  scan_transactions rr t (m ∷ ms) = scan_transactions rr (scan_transaction rr t m) ms

  abbrev pub start : Scan Real
  start = record {
    byte_summary = [];
    lat_summary = [];
    op_summary = [];
    prev_timestamp = of_ℕ 0;
    prev_bytes = of_ℕ 0;
    prev_ops = of_ℕ 0;
  }

  -- A percentile of the histogram, where the output has it.
  override : Real → Option String → Real
  override v none = v
  override v (some n) = parse_float n

  -- `mean` and `percentile` are the library's, whose errors are dropped. The first profile is the
  -- driver's, the second that of the argument `nc`.
  unfoldable pub parse_results :
      (List Real → Real) → (List Real → ℕ → Real) → String → String → String → String → Sample Real
  unfolding scan_transactions transactions find_number override
  parse_results mean percentile driver_name profile nc_profile stdout =
      let rr = contains profile "RR" in
      let t = scan_transactions rr start (transactions stdout) in
      let sample = record (zero_sample F) {
        driver = driver_name;
        throughput =
            if rr
            then mean t.op_summary
            else div (mul (mean t.byte_summary) (of_ℕ 8)) (of_ℕ 1_000_000);
        latency99ptile = percentile t.lat_summary 99;
      } in
      if nc_profile == "TCP_STREAM_LAT"
      then record sample {
        latency = override sample.latency (find_number "Average" stdout);
        latency50ptile = override sample.latency50ptile (find_number "50th" stdout);
        latency99ptile = override sample.latency99ptile (find_number "99th" stdout);
      }
      else sample
