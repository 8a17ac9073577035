-- ===== src/Tests/Clients.antt =====
-- Connections to a VM, and the outputs of the drivers.
use k8s_netperf.Prelude.{
  ℕ, ◌≤◌, String, ◌<>◌, true, false, [], ◌∷◌, ◌≡◌, refl, some, none, ok, err, All, length, eqb, not,
}
use k8s_netperf.Prelude.Text.{split, contains, trim_space}
use k8s_netperf.Drivers.{Sample, zero_sample, Driver, iperf3}
use k8s_netperf.Drivers.Remote.Steps.{Vm, no_events}
use k8s_netperf.Drivers.Remote.Vm.{iperf_run_vm, netperf_run_vm, uperf_run_vm}
use k8s_netperf.Drivers.Remote.Vm.Counts.{Open, NetperfOpen, UperfRunOpen}
use k8s_netperf.Drivers.Remote.Vm.Connections.{
  iperf_run_vm-Open, netperf_run_vm-Open, uperf_run_vm-Open,
}
use k8s_netperf.Drivers.Netperf.{Scan, scan_lines, start, parse_results}
use k8s_netperf.Drivers.Netperf.Accepted.{HasValue, parse_results-eq-ok}
use k8s_netperf.Drivers.Uperf.{Transaction}
use k8s_netperf.Drivers.IbWriteBw.{parse_nic_gid}
use k8s_netperf.Drivers.IbWriteBw.Device.{parse_nic_gid-joined}
use k8s_netperf.Drivers.Parse.{parse_with}
use k8s_netperf.Tests.Workloads.{libraries}
use k8s_netperf.Tests.{whole, stream}

-- The second command fails.
abbrev vm : Vm
vm = record {
  shared = false;
  connects = λ _. true;
  reply = λ k cmd. record { output = cmd; succeeds = not (eqb k 1) };
}

iperf_run_vm-Open_example :
    Open 0 (iperf_run_vm vm "/tmp/out.json" ("iperf3" ∷ "-c" ∷ []) no_events).1
iperf_run_vm-Open_example =
    iperf_run_vm-Open vm 0 "/tmp/out.json" ("iperf3" ∷ "-c" ∷ []) no_events refl

netperf_run_vm-Open_example :
    NetperfOpen vm 0 (netperf_run_vm vm "10.0.0.2" ("super-netperf" ∷ "1" ∷ []) no_events)
netperf_run_vm-Open_example =
    netperf_run_vm-Open vm 0 "10.0.0.2" ("super-netperf" ∷ "1" ∷ []) no_events refl

uperf_run_vm-Open_example :
    UperfRunOpen vm 0 (uperf_run_vm vm "echo profile" ("uperf" ∷ "-v" ∷ []) no_events)
uperf_run_vm-Open_example =
    uperf_run_vm-Open vm 0 "echo profile" ("uperf" ∷ "-v" ∷ []) no_events refl

abbrev output : String
output = "THROUGHPUT=941\nTHROUGHPUT_UNITS=10^6bits/s\nRT_LATENCY=80\nP99_LATENCY=95\n"

parsed : Sample ℕ
unfolding parse_results
parsed = elim (parse_results whole "netperf" output) [ ok s ↦ s | err _ ↦ zero_sample whole ]

parse_results-eq-ok_example :
    (5 ≤ length (split b'\n' output))
    × All HasValue (split b'\n' output)
    × ((t : Scan ℕ) × (scan_lines whole (split b'\n' output) (start whole "netperf") ≡ ok t)
        × (false ≡ false)
        × (false ≡ false))
unfolding parsed parse_results contains trim_space
parse_results-eq-ok_example = parse_results-eq-ok whole "netperf" output parsed refl

abbrev transaction : String → String → String → Transaction
transaction timestamp bytes ops = record { timestamp = timestamp; bytes = bytes; ops = ops }

abbrev iperf3_driver : Driver
iperf3_driver = record { kind = iperf3; driver_name = "iperf3"; test_config = stream }

iperf3_sample : Sample ℕ
unfolding parse_with
iperf3_sample = elim (parse_with whole libraries iperf3_driver stream "{}") [
  | some s ↦ s
  | none ↦ zero_sample whole
]

parse_nic_gid-joined_example : parse_nic_gid ("mlx5_0" <> (":" <> "3")) ≡ ok ("mlx5_0", "3")
unfolding trim_space
parse_nic_gid-joined_example =
    parse_nic_gid-joined "mlx5_0" "3" (refl, (refl, (refl, (refl, (refl, (refl, tt)))))) (refl, tt)
      refl refl refl refl
