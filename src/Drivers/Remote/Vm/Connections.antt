-- ===== src/Drivers/Remote/Vm/Connections.antt =====
-- Whether the connections that `Run` makes to a VM are closed (pkg/drivers/*.go).
use k8s_netperf.Prelude.{
  ℕ, ◌+◌, String, ◌<>◌, Bool, not, to_ℕ, Option, none, some, List, ◌≡◌, arith,
}
use k8s_netperf.Prelude.Text.{join_words}
use k8s_netperf.Drivers.Remote.Steps.{
  Vm, Log, acquire, release, run, retry_run, rounds_of_retry, no_reply,
}
use k8s_netperf.Drivers.Remote.Vm.{
  Error, connect_failed, no_client, netperf_probe, netperf_command, netperf_probed,
  netperf_connected, netperf_run_vm, iperf_read, iperf_results, iperf_command, iperf_connected,
  iperf_run_vm, uperf_profile, create_uperf_profile_vm, uperf_command, uperf_connected, uperf_load,
  uperf_profiled, uperf_run_vm,
}
use k8s_netperf.Drivers.Remote.Vm.Counts.{
  Open, run-Open, release-Open, retry_run-Open, acquire-Open, NetperfOpen, UperfOpen, UperfRunOpen,
  with_client_rule,
}

module _ (vm : Vm) (k : ℕ) where
  iperf_read-Open :
      (file : String) (created : Bool) (t : Log)
      → Open (k + to_ℕ created) t
      → Open k (iperf_read vm file created t).1
  unfolding iperf_read
  iperf_read-Open file created t h =
      release-Open created k _ (run-Open vm ("cat " <> file) (k + to_ℕ created) t h)

  iperf_results-Open : (file : String) (t : Log) → Open k t → Open k (iperf_results vm file t).1
  unfolding iperf_results
  iperf_results-Open file t h =
      with_client_rule vm k (λ o. Open k o.1) no_client (iperf_read vm file) (λ t o. o)
        (λ t created e o. iperf_read-Open file created t o) (acquire vm t) (acquire-Open vm k t h)

  iperf_command-Open :
      (file cmd : String) (created : Bool) (t : Log)
      → Open (k + to_ℕ created) t
      → Open k (iperf_command vm file cmd created t).1
  unfolding iperf_command
  iperf_command-Open file cmd created t h =
      let o = retry_run-Open rounds_of_retry vm cmd 60 no_reply (k + to_ℕ created) t h in
      let closed' = release-Open created k (retry_run rounds_of_retry vm cmd 60 no_reply t).1 o in
      ground (
        arith,
        closed',
        iperf_results-Open file (release created (retry_run rounds_of_retry vm cmd 60 no_reply t).1)
            closed',
      )

  iperf_connected-Open :
      (file cmd : String) (created : Bool) (t : Log)
      → Open (k + to_ℕ created) t
      → Open k (iperf_connected vm file cmd created t).1
  unfolding iperf_connected
  iperf_connected-Open file cmd created t h =
      let wait : String = "until iperf3 -h; do sleep 30; done" in
      let u = (retry_run rounds_of_retry vm wait 10 no_reply t).1 in
      let o = retry_run-Open rounds_of_retry vm wait 10 no_reply (k + to_ℕ created) t h in
      ground (arith, release-Open created k u o, iperf_command-Open file cmd created u o)

  -- On every path through iperf3's `Run` each connection that was made is closed.
  pub iperf_run_vm-Open :
      (file : String) (cmd : List String) (t : Log)
      → Open k t
      → Open k (iperf_run_vm vm file cmd t).1
  unfolding iperf_run_vm
  iperf_run_vm-Open file cmd t h =
      with_client_rule vm k (λ o. Open k o.1) no_client (iperf_connected vm file (join_words cmd))
        (λ t o. o) (λ t created e o. iperf_connected-Open file (join_words cmd) created t o)
        (acquire vm t) (acquire-Open vm k t h)

  netperf_command-Open :
      (cmd : String) (created probed : Bool) (t : Log)
      → created ≡ not vm.shared
      → Open (k + to_ℕ created) t
      → NetperfOpen vm k (netperf_command vm cmd created probed t)
  unfolding netperf_command
  netperf_command-Open cmd created probed t e h =
      let o = run-Open vm cmd (k + to_ℕ created) t h in
      ground (arith, o, release-Open created k (run vm cmd t).1 o)

  netperf_probed-Open :
      (ip cmd : String) (created : Bool) (t : Log)
      → created ≡ not vm.shared
      → Open (k + to_ℕ created) t
      → NetperfOpen vm k (netperf_probed vm ip cmd created t)
  unfolding netperf_probed
  netperf_probed-Open ip cmd created t e h =
      netperf_command-Open cmd created _ _ e
        (retry_run-Open rounds_of_retry vm (netperf_probe ip) 60 no_reply (k + to_ℕ created) t h)

  netperf_connected-Open :
      (ip cmd : String) (t : Log) (created : Bool)
      → created ≡ not vm.shared
      → Open (k + to_ℕ created) t
      → NetperfOpen vm k (netperf_connected vm ip cmd created t)
  unfolding netperf_connected
  netperf_connected-Open ip cmd t created e h =
      let wait : String = "until which netperf; do sleep 30; done" in
      let u = (retry_run rounds_of_retry vm wait 30 no_reply t).1 in
      let o = retry_run-Open rounds_of_retry vm wait 30 no_reply (k + to_ℕ created) t h in
      ground (arith, release-Open created k u o, netperf_probed-Open ip cmd created u e o)

  -- netperf's `Run` closes the connection that it made, except where its command fails: there it
  -- stays open.
  pub netperf_run_vm-Open :
      (ip : String) (cmd : List String) (t : Log)
      → Open k t
      → NetperfOpen vm k (netperf_run_vm vm ip cmd t)
  unfolding netperf_run_vm
  netperf_run_vm-Open ip cmd t h =
      with_client_rule vm k (NetperfOpen vm k) no_client (netperf_connected vm ip (join_words cmd))
        (λ t o. omega arith) (netperf_connected-Open ip (join_words cmd)) (acquire vm t)
        (acquire-Open vm k t h)

  uperf_profile-Open :
      (cmd : String) (t : Log) (created : Bool)
      → created ≡ not vm.shared
      → Open (k + to_ℕ created) t
      → UperfOpen vm k (uperf_profile vm cmd created t)
  unfolding uperf_profile
  uperf_profile-Open cmd t created e h =
      let o = run-Open vm cmd (k + to_ℕ created) t h in
      ground (arith, o, release-Open created k (run vm cmd t).1 o)

  create_uperf_profile_vm-Open :
      (cmd : String) (t : Log) → Open k t → UperfOpen vm k (create_uperf_profile_vm vm cmd t)
  unfolding create_uperf_profile_vm
  create_uperf_profile_vm-Open cmd t h =
      with_client_rule vm k (UperfOpen vm k) (some connect_failed) (uperf_profile vm cmd)
        (λ t o. omega arith) (uperf_profile-Open cmd) (acquire vm t) (acquire-Open vm k t h)

  uperf_command-Open :
      (cmd : String) (created : Bool) (t : Log)
      → Open (k + to_ℕ created) t
      → UperfRunOpen vm k (uperf_command vm cmd created t)
  unfolding uperf_command
  uperf_command-Open cmd created t h =
      let u = (retry_run rounds_of_retry vm cmd 60 no_reply t).1 in
      let o = retry_run-Open rounds_of_retry vm cmd 60 no_reply (k + to_ℕ created) t h in
      ground (arith, release-Open created k u o)

  uperf_connected-Open :
      (cmd : String) (t : Log) (created : Bool)
      → created ≡ not vm.shared
      → Open (k + to_ℕ created) t
      → UperfRunOpen vm k (uperf_connected vm cmd created t)
  unfolding uperf_connected
  uperf_connected-Open cmd t created e h =
      let wait : String = "until uperf -h; do sleep 30; done" in
      let u = (retry_run rounds_of_retry vm wait 30 no_reply t).1 in
      let o = retry_run-Open rounds_of_retry vm wait 30 no_reply (k + to_ℕ created) t h in
      ground (arith, release-Open created k u o, uperf_command-Open cmd created u o)

  uperf_profiled-Open :
      (cmd : String) (r : Option Error × Log)
      → UperfOpen vm k r
      → UperfRunOpen vm k (uperf_profiled vm cmd r)
  unfolding uperf_profiled uperf_load
  uperf_profiled-Open cmd (some e, t) h = h
  uperf_profiled-Open cmd (none, t) h =
      with_client_rule vm k (UperfRunOpen vm k) no_client (uperf_connected vm cmd)
        (λ t o. omega arith) (uperf_connected-Open cmd) (acquire vm t)
        (acquire-Open vm k t (omega arith))

  -- uperf's `Run` closes the connections that it made, except where the profile cannot be
  -- written: there the first one stays open.
  pub uperf_run_vm-Open :
      (profile_cmd : String) (cmd : List String) (t : Log)
      → Open k t
      → UperfRunOpen vm k (uperf_run_vm vm profile_cmd cmd t)
  unfolding uperf_run_vm
  uperf_run_vm-Open profile_cmd cmd t h =
      uperf_profiled-Open (join_words cmd) _ (create_uperf_profile_vm-Open profile_cmd t h)
