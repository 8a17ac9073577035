-- ===== src/Tests.antt =====
-- The theorems at concrete inputs. Numbers stand in for Go's `float64`.
mod Configs
mod Monitoring
mod Clients
mod Cli
mod Clusters
pub mod Workloads
mod Binaries
pub mod Stores
mod Printed
pub mod Deployed
mod Accepted
mod Machines
use k8s_netperf.Prelude.{ℕ, String, false, ◌+◌, ◌-◌, ◌*◌, ◌/◌, ltb, eqb}
use k8s_netperf.Prelude.Int.{pos}
use k8s_netperf.Prelude.Text.{value_from, show_nat}
use k8s_netperf.Float.{Float64}
use k8s_netperf.Config.{Config}

abbrev pub whole : Float64
whole = record {
  Real = ℕ;
  of_ℕ = λ n. n;
  add = λ a b. a + b;
  sub = λ a b. a - b;
  mul = λ a b. a * b;
  div = λ a b. a / b;
  lt = ltb;
  eq = eqb;
  is_nan = λ _. false;
  to_int = pos;
  parse_float = λ s. value_from 0 s;
  format_fixed = show_nat;
  format_short = show_nat;
  format_plain = show_nat;
}

abbrev pub stream : Config
stream = record {
  parallelism = pos 1;
  duration = pos 10;
  profile = "TCP_STREAM";
  samples = pos 2;
  message_size = pos 1024;
  message_read_size = pos 0;
  burst = pos 0;
  service = false;
  metric = "";
  across_az = false;
}
