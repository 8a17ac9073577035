-- ===== src/Drivers.antt =====
-- pkg/drivers/driver.go and pkg/sample/types.go: the load drivers, and what a run is measured by.
pub mod Commands
pub mod UperfProfile
pub mod Remote
pub mod Netperf
pub mod Iperf
pub mod Uperf
pub mod IbWriteBw
pub mod Parse
use k8s_netperf.Prelude.{
  String, Bool, true, false, not, ◌&&◌, if◌then◌else◌, ◌==◌, Option, none, some,
}
use k8s_netperf.Prelude.Text.{contains, upper_equals}
use k8s_netperf.Float.{Float64}
use k8s_netperf.Config.{Config}

pub record Sample (R : Type 0) : Type 0 where
  pub latency : R
  pub latency50ptile : R
  pub latency99ptile : R
  pub throughput : R
  pub loss_percent : R
  pub retransmits : R
  pub metric : String
  pub driver : String

pub data Kind : Type 0 where
  iperf3 uperf ib_write_bw netperf : Kind

-- The structs behind the `Driver` interface have the same two fields.
pub record Driver : Type 0 where
  pub kind : Kind
  pub driver_name : String
  pub test_config : Config

-- `none` is the error "unknown driver".
unfoldable pub new_driver : String → Config → Option Driver
new_driver name cfg =
    if name == "iperf3"
    then some (record { kind = iperf3; driver_name = name; test_config = cfg })
    else if name == "uperf"
    then some (record { kind = uperf; driver_name = name; test_config = cfg })
    else if name == "ib_write_bw"
    then some (record { kind = ib_write_bw; driver_name = name; test_config = cfg })
    else if name == "netperf"
    then some (record { kind = netperf; driver_name = name; test_config = cfg })
    else none

-- `IsTestSupported` of each driver, by the profile.
unfoldable pub supports : Kind → String → Bool
supports iperf3 profile = not (profile == "TCP_STREAM_LAT") && contains profile "STREAM"
supports uperf profile = not (contains profile "TCP_CRR")
supports ib_write_bw profile = upper_equals profile "UDP_STREAM"
supports netperf profile = not (profile == "TCP_STREAM_LAT")

unfoldable pub is_test_supported : Driver → Bool
unfolding supports
is_test_supported d = supports d.kind d.test_config.profile

-- `sample.Sample{}`
abbrev pub zero_sample : (F : Float64) → Sample F.Real
zero_sample F = record {
  latency = F.of_ℕ 0;
  latency50ptile = F.of_ℕ 0;
  latency99ptile = F.of_ℕ 0;
  throughput = F.of_ℕ 0;
  loss_percent = F.of_ℕ 0;
  retransmits = F.of_ℕ 0;
  metric = "";
  driver = "";
}
