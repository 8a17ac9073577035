-- ===== src/Drivers/Parse.antt =====
-- The `ParseResults` that a `Driver` of pkg/drivers stands for.
pub mod Named
use k8s_netperf.Prelude.{ℕ, String, Bool, Option, none, some, List, Result, ok, err}
use k8s_netperf.Float.{Float64}
use k8s_netperf.Config.{Config}
use k8s_netperf.Drivers.{Sample, Kind, iperf3, uperf, ib_write_bw, netperf, Driver}
use k8s_netperf.Drivers.Iperf.{IperfResult}
use k8s_netperf.Drivers.Iperf as Iperf
use k8s_netperf.Drivers.Netperf as Netperf
use k8s_netperf.Drivers.Uperf as Uperf
use k8s_netperf.Drivers.IbWriteBw as IbWriteBw

-- What the parsers call of other libraries: the JSON decoder of iperf3's output, the mean and the
-- percentile, and what `fmt.Sscanf` makes of "%d" and "%f".
pub record Libraries (R : Type 0) : Type 0 where
  pub decode_iperf : String → IperfResult R
  pub mean : List R → R
  pub percentile : List R → ℕ → R
  pub scans_int : String → Bool
  pub scan_float : String → Option R

without_error : {E R : Type 0} → Result E (Sample R) → Option (Sample R)
without_error (err e) = none
without_error (ok s) = some s

module _ (F : Float64) (L : Libraries F.Real) where
  open F use {Real}

  parse_as : Kind → Driver → Config → String → Option (Sample Real)
  unfolding without_error Netperf.parse_results Iperf.parse_results Uperf.parse_results
      IbWriteBw.parse_results
  parse_as netperf d nc stdout = without_error (Netperf.parse_results F d.driver_name stdout)
  parse_as iperf3 d nc stdout = some (Iperf.parse_results F L.decode_iperf d.driver_name stdout)
  parse_as uperf d nc stdout = some (
      Uperf.parse_results F L.mean L.percentile d.driver_name d.test_config.profile nc.profile
        stdout)
  parse_as ib_write_bw d nc stdout =
      without_error (IbWriteBw.parse_results F L.scans_int L.scan_float d.driver_name stdout)

  -- `driver.ParseResults(&r, nc)`, `none` for an error.
  unfoldable pub parse_with : Driver → Config → String → Option (Sample Real)
  unfolding parse_as
  parse_with d nc stdout = parse_as d.kind d nc stdout
