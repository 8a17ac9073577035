-- ===== src/Tests/Workloads.antt =====
-- Tests of a scenario.
use k8s_netperf.Prelude.{
  ℕ, String, Bool, true, false, Option, none, some, List, [], ◌∷◌, ◌≡◌, ◌↔◌, refl, arith, last_or,
  All, ok, ltb, ◌==◌, if◌then◌else◌, Result,
}
use k8s_netperf.Drivers.{Sample, zero_sample, new_driver, is_test_supported}
use k8s_netperf.Drivers.Parse.{Libraries, parse_with}
use k8s_netperf.Prelude.Text.{value_from, contains}
use k8s_netperf.Metrics.Types.{NodeInfo}
use k8s_netperf.Results.{Data, exit_code}
use k8s_netperf.Results.Difference.{Exceeds, exit_code-eq_iff}
use k8s_netperf.Flags.{Flags}
use k8s_netperf.Cluster.{Pod}
use k8s_netperf.Cluster.Services.{no_services}
use k8s_netperf.Workload.{PerfScenarios, Stop}
use k8s_netperf.Workload.Server.{Decoders, plain, choose_server, choose_client}
use k8s_netperf.Workload.Samples.{still_running, retry_from, take_samples, sample_client}
use k8s_netperf.Workload.Samples.Retries.{retry_from_unending}
use k8s_netperf.Workload.Execute.{World, execute_workload, prepared}
use k8s_netperf.Workload.Execute.Outcome.{
  IsComplete, execute_workload-IsComplete, execute_workload_ends,
}
use k8s_netperf.Workload.Plan.{all_calls, run_calls}
use k8s_netperf.Workload.Plan.Allowed.{IsAllowed, all_calls-IsAllowed}
use k8s_netperf.Workload.Run.{IsMeasured, run_tests, run_tests-IsMeasured}
use k8s_netperf.Tests.{whole, stream}

abbrev pub flags : Flags
flags = record {
  netperf = true;
  netperf_changed = false;
  iperf3 = false;
  uperf = false;
  ib_write_bw = none;
  udnl2 = false;
  udnl3 = false;
  cudn = "";
  host_net_only = false;
  privileged = false;
  pod = true;
  vm = false;
  bridge = "";
  sriov = "";
  macvlan = "";
}

abbrev pub decoders : Decoders
decoders = record {
  statuses = λ _. none;
  root = λ _. none;
  ip_addresses = λ _. none;
  parse_cidr = λ _. none;
}

abbrev pub node : NodeInfo
node = record { ip = "10.0.0.1"; node_name = "worker-0" }

abbrev pub server_pod : Pod
server_pod = record { name = "server"; annotation = λ _. ""; pod_ip = "10.1.0.7" }

abbrev pub scenario : PerfScenarios
scenario = record {
  node_local = false;
  across_az = true;
  host_network = true;
  external_server = false;
  configs = stream ∷ [];
  pod = true;
  vm = false;
  udn = false;
  cudn = false;
  udn_plugin_binding = "";
  bridge_network = "";
  bridge_namespace = "";
  bridge_server_network = "";
  sriov_network = "";
  macvlan_network = "";
  requested_drivers = "netperf" ∷ [];
  server_node_info = node;
  client_node_info = node;
  client = server_pod ∷ [];
  server = server_pod ∷ [];
  vm_server = [];
  client_across = server_pod ∷ [];
  vm_client_across = [];
  client_host = server_pod ∷ [];
  server_host = server_pod ∷ [];
  services = no_services;
}

-- Every run succeeds, and the first output of a test does not parse.
abbrev output : String
output = "THROUGHPUT=941\nTHROUGHPUT_UNITS=Mb\nRT_LATENCY=80\nP99_LATENCY=95\n"

abbrev out : ℕ → String
out k = if ltb k 1 then "bad" else output

abbrev pub libraries : Libraries ℕ
libraries = record {
  decode_iperf =
      λ _. record { retransmits = 3; tcp_rate = 0; udp_rate = 2_000_000; loss_percent = 1 };
  mean = last_or 0;
  percentile = λ xs _. last_or 0 xs;
  scans_int = λ _. true;
  scan_float = λ s. some (value_from 0 s);
}

abbrev parse : String → Option (Sample ℕ)
parse s = if s == "good" then some (zero_sample whole) else none

abbrev pub world : World ℕ
world = record { run = λ _ _ _ _ k. some (out k); libraries = libraries; started = 5; ended = 9 }

abbrev results_of : Option (Result Stop (List (Data ℕ) × ℕ)) → List (Data ℕ) × ℕ
results_of (some (ok r)) = r
results_of _ = ([], 0)

measured : List (Data ℕ) × ℕ
unfolding run_tests
measured = results_of (run_tests whole decoders flags "" (λ _. world) 3 scenario true)

run_tests-IsMeasured_example : All IsMeasured measured.0
unfolding measured run_tests run_calls all_calls execute_workload choose_server new_driver
    is_test_supported take_samples parse_with contains sample_client choose_client
run_tests-IsMeasured_example =
    run_tests-IsMeasured whole decoders flags "" (λ _. world) 3 scenario true measured.0 measured.1
      refl

one_test : Data ℕ × ℕ
unfolding execute_workload
one_test =
    elim (execute_workload whole decoders flags "" world 3 stream scenario false "netperf" false
      0) [
        | some (ok (npr, done, k)) ↦ (npr, k)
        | _ ↦ (prepared whole decoders flags "" 0 stream scenario false "" false (plain ""), 0)
      ]

execute_workload-IsComplete_example : IsComplete stream scenario false "netperf" one_test.0
unfolding one_test execute_workload choose_server new_driver is_test_supported take_samples
    parse_with contains sample_client choose_client
execute_workload-IsComplete_example =
    execute_workload-IsComplete whole decoders flags "" world 3 stream scenario false "netperf"
      false 0 one_test.0 one_test.1 refl

execute_workload_ends_example :
    (r : Result Stop (Data ℕ × Bool × ℕ)) × (execute_workload whole decoders flags "" world 3 stream
        scenario true "netperf" false 0
      ≡ some r)
execute_workload_ends_example =
    execute_workload_ends whole decoders flags "" world 3 stream scenario true "netperf" false 0
      (λ d client ip v j. (out j, refl)) (omega arith)

-- The first two runs fail.
abbrev flaky : ℕ → Option String
flaky k = if ltb k 2 then none else some "good"

retry_from_unending_example : retry_from (λ _. none) parse 100 3 0 ≡ still_running
retry_from_unending_example = retry_from_unending (λ _. none) parse 100 2 0 (λ j. refl)

all_calls-IsAllowed_example : All (IsAllowed scenario false true) (all_calls scenario false true)
all_calls-IsAllowed_example = all_calls-IsAllowed scenario false true

-- The throughput of host and pod network.
abbrev pub two_results : List (Data ℕ)
two_results =
    let base =
      prepared whole decoders flags "" 0 stream scenario false "netperf" false (plain "") in
    record base { host_network = true; throughput_summary = 30 ∷ [] }
    ∷ record base { throughput_summary = 10 ∷ [] }
    ∷ []

exit_code-eq_iff_example :
    (exit_code whole (last_or 0) false 5 two_results ≡ 1)
    ↔ ((false ≡ false) × Exceeds whole (last_or 0) 5 two_results)
exit_code-eq_iff_example = exit_code-eq_iff whole (last_or 0) false 5 two_results refl

-- The difference of 30 and 10 is far above 5 percent.
exits : exit_code whole (last_or 0) false 5 two_results ≡ 1
unfolding exit_code prepared
exits = refl
