-- ===== src/Drivers/Remote/Vm.antt =====
-- The VM branches of `Run` in pkg/drivers/netperf.go, iperf.go and uperf.go.
pub mod Counts
pub mod Connections
use k8s_netperf.Prelude.{
  ℕ, String, ◌<>◌, Bool, true, false, not, if◌then◌else◌, Option, none, some, List, [], ◌∷◌, Result,
  ok, err,
}
use k8s_netperf.Prelude.Text.{join_words, show_nat}
use k8s_netperf.Drivers.Remote.Steps.{
  Reply, Vm, Log, acquire, release, run, retry_run, rounds_of_retry, no_reply,
}

pub data Error : Type 0 where
  connect_failed binary_absent command_failed unable_to_run profile_failed : Error

-- The output in the buffer, and the error.
abbrev pub Outcome : Type 0
Outcome = (String × Option Error) × Log

-- The choice of the client at the start, and the early return if it cannot be had.
unfoldable pub with_client : {A : Type 0} → A → (Bool → Log → A × Log) → Option Bool × Log → A × Log
with_client failed body (none, t) = (failed, t)
with_client failed body (some created, t) = body created t

abbrev pub no_client : String × Option Error
no_client = ("", some connect_failed)

-- `k8s.NetperfServerDataPort`, which the probe passes.
abbrev pub netperf_data_port : ℕ
netperf_data_port = 42424

unfoldable pub netperf_probe : String → String
netperf_probe server_ip = "netperf -H " <> server_ip <> " -l 1 -- " <> show_nat netperf_data_port

-- The command is run whether or not the probe succeeded; the probe's outcome decides at the end.
unfoldable pub netperf_command : Vm → String → Bool → Bool → Log → Outcome
netperf_command vm cmd created probed t =
    let (r, u) = run vm cmd t in
    if not r.succeeds
    then ((r.output, some command_failed), u)
    else ((r.output, if probed then none else some unable_to_run), release created u)

unfoldable pub netperf_probed : Vm → String → String → Bool → Log → Outcome
netperf_probed vm server_ip cmd created t =
    let (r, u) = retry_run rounds_of_retry vm (netperf_probe server_ip) 60 no_reply t in
    netperf_command vm cmd created r.succeeds u

unfoldable pub netperf_connected : Vm → String → String → Bool → Log → Outcome
netperf_connected vm server_ip cmd created t =
    let (r, u) =
      retry_run rounds_of_retry vm "until which netperf; do sleep 30; done" 30 no_reply t in
    if r.succeeds
    then netperf_probed vm server_ip cmd created u
    else (("", some binary_absent), release created u)

unfoldable pub netperf_run_vm : Vm → String → List String → Log → Outcome
netperf_run_vm vm server_ip cmd t =
    with_client no_client (netperf_connected vm server_ip (join_words cmd)) (acquire vm t)

-- The second half of iperf3's `Run`: a client of its own, and the log file.
unfoldable pub iperf_read : Vm → String → Bool → Log → Outcome
iperf_read vm file created t =
    let (r, u) = run vm ("cat " <> file) t in
    ((r.output, if r.succeeds then none else some command_failed), release created u)

unfoldable pub iperf_results : Vm → String → Log → Outcome
iperf_results vm file t = with_client no_client (iperf_read vm file) (acquire vm t)

unfoldable pub iperf_command : Vm → String → String → Bool → Log → Outcome
iperf_command vm file cmd created t =
    let (r, u) = retry_run rounds_of_retry vm cmd 60 no_reply t in
    let v = release created u in
    if r.succeeds then iperf_results vm file v else ((r.output, some unable_to_run), v)

unfoldable pub iperf_connected : Vm → String → String → Bool → Log → Outcome
iperf_connected vm file cmd created t =
    let (r, u) = retry_run rounds_of_retry vm "until iperf3 -h; do sleep 30; done" 10 no_reply t in
    if r.succeeds
    then iperf_command vm file cmd created u
    else (("", some binary_absent), release created u)

unfoldable pub iperf_run_vm : Vm → String → List String → Log → Outcome
iperf_run_vm vm file cmd t =
    with_client no_client (iperf_connected vm file (join_words cmd)) (acquire vm t)

-- The VM branch of `createUperfProfile`, which writes the profile with `echo`.
unfoldable pub uperf_profile : Vm → String → Bool → Log → Option Error × Log
uperf_profile vm cmd created t =
    let (r, u) = run vm cmd t in
    if r.succeeds then (none, release created u) else (some profile_failed, u)

unfoldable pub create_uperf_profile_vm : Vm → String → Log → Option Error × Log
create_uperf_profile_vm vm cmd t =
    with_client (some connect_failed) (uperf_profile vm cmd) (acquire vm t)

unfoldable pub uperf_command : Vm → String → Bool → Log → Outcome
uperf_command vm cmd created t =
    let (r, u) = retry_run rounds_of_retry vm cmd 60 no_reply t in
    ((r.output, if r.succeeds then none else some unable_to_run), release created u)

unfoldable pub uperf_connected : Vm → String → Bool → Log → Outcome
uperf_connected vm cmd created t =
    let (r, u) = retry_run rounds_of_retry vm "until uperf -h; do sleep 30; done" 30 no_reply t in
    if r.succeeds
    then uperf_command vm cmd created u
    else (("", some binary_absent), release created u)

unfoldable pub uperf_load : Vm → String → Log → Outcome
uperf_load vm cmd t = with_client no_client (uperf_connected vm cmd) (acquire vm t)

unfoldable pub uperf_profiled : Vm → String → Option Error × Log → Outcome
uperf_profiled vm cmd (some e, t) = (("", some e), t)
uperf_profiled vm cmd (none, t) = uperf_load vm cmd t

unfoldable pub uperf_run_vm : Vm → String → List String → Log → Outcome
uperf_run_vm vm profile_cmd cmd t =
    uperf_profiled vm (join_words cmd) (create_uperf_profile_vm vm profile_cmd t)
