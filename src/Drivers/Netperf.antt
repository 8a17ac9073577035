-- ===== src/Drivers/Netperf.antt =====
-- `(*netperf).ParseResults` of pkg/drivers/netperf.go.
pub mod Accepted
use k8s_netperf.Prelude.{
  String, Bool, true, false, if◌then◌else◌, List, [], ◌∷◌, length, ltb, Result, ok, err, ◌>>=◌,
}
use k8s_netperf.Prelude.Text.{contains, is_empty, split, trim_space, trim_cr}
use k8s_netperf.Float.{Float64}
use k8s_netperf.Drivers.{Sample, zero_sample}

pub data Error : Type 0 where
  too_short throughput_empty p99_empty throughput_nan latency_nan : Error

-- The variables of the loop over the lines.
pub record Scan (R : Type 0) : Type 0 where
  pub sample : Sample R
  pub send : R
  pub recv : R

module _ (F : Float64) where
  open F use {Real, of_ℕ, sub, mul, div, lt, is_nan, parse_float}

  -- The chain of tests on the key `l[0]`, where `value` is `l[1]`.
  unfoldable pub scan_pair : String → String → Scan Real → Result Error (Scan Real)
  scan_pair key value t =
      let number = parse_float (trim_cr value) in
      if contains key "THROUGHPUT_UNITS"
      then ok (record t { sample = record t.sample { metric = value } })
      else if contains key "THROUGHPUT"
      then (if is_empty (trim_space value)
          then err throughput_empty
          else ok (record t { sample = record t.sample { throughput = number } }))
      else if contains key "P99_LATENCY"
      then (if is_empty (trim_space value)
          then err p99_empty
          else ok (record t { sample = record t.sample { latency99ptile = number } }))
      else if contains key "RT_LATENCY"
      then ok (record t { sample = record t.sample { latency = number } })
      else if contains key "LOCAL_SEND_CALLS"
      then ok (record t { send = number })
      else if contains key "REMOTE_RECV_CALLS"
      then ok (record t { recv = number })
      else if contains key "LOCAL_TRANSPORT_RETRANS"
      then ok (record t { sample = record t.sample { retransmits = number } })
      else ok t

  -- A line with fewer than two parts is skipped.
  unfoldable pub scan_parts : List String → Scan Real → Result Error (Scan Real)
  unfolding scan_pair
  scan_parts (key ∷ value ∷ rest) t = scan_pair key value t
  scan_parts _ t = ok t

  unfoldable pub scan_lines : List String → Scan Real → Result Error (Scan Real)
  unfolding scan_parts split
  scan_lines [] t = ok t
  scan_lines (line ∷ lines) t = scan_parts (split b'=' line) t >>= λ t'. scan_lines lines t'

  -- The tests after the loop. Retransmissions below zero mean a UDP stream.
  unfoldable pub finish : Scan Real → Result Error (Sample Real)
  finish t =
      if is_nan t.sample.throughput
      then err throughput_nan
      else if is_nan t.sample.latency99ptile
      then err latency_nan
      else if lt t.sample.retransmits (of_ℕ 0)
      then ok
          (record t.sample { loss_percent = sub (of_ℕ 100) (mul (div t.recv t.send) (of_ℕ 100)) })
      else ok (record t.sample { loss_percent = of_ℕ 0 })

  unfoldable pub start : String → Scan Real
  start driver_name = record {
    sample = record (zero_sample F) { driver = driver_name };
    send = of_ℕ 0;
    recv = of_ℕ 0;
  }

  unfoldable pub parse_results : String → String → Result Error (Sample Real)
  unfolding scan_lines finish start
  parse_results driver_name stdout =
      let lines = split b'\n' stdout in
      if ltb (length lines) 5
      then err too_short
      else scan_lines lines (start driver_name) >>= finish
