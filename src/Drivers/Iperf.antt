-- ===== src/Drivers/Iperf.antt =====
-- `(*iperf3).ParseResults` of pkg/drivers/iperf.go.
use k8s_netperf.Prelude.{String, if◌then◌else◌}
use k8s_netperf.Float.{Float64}
use k8s_netperf.Drivers.{Sample, zero_sample}

-- The fields of `IperfResult`; the TCP rate has gone from `float32` to `float64`.
pub record IperfResult (R : Type 0) : Type 0 where
  pub retransmits : R
  pub tcp_rate : R
  pub udp_rate : R
  pub loss_percent : R

module _ (F : Float64) where
  open F use {Real, of_ℕ, div, lt}

  -- The JSON decoder is a parameter. It gives what it left in the struct, also where it fails:
  -- the error is only logged.
  unfoldable pub parse_results : (String → IperfResult Real) → String → String → Sample Real
  parse_results decode driver_name stdout =
      let result = decode stdout in
      let sample = record (zero_sample F) { driver = driver_name; metric = "Mb/s" } in
      if lt (of_ℕ 0) result.tcp_rate
      then record sample {
        throughput = div result.tcp_rate (of_ℕ 1_000_000);
        retransmits = result.retransmits;
      }
      else record sample {
        throughput = div result.udp_rate (of_ℕ 1_000_000);
        loss_percent = result.loss_percent;
      }
