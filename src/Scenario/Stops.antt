-- ===== src/Scenario/Stops.antt =====
-- A run whose flags are accepted, from `BuildSUT` to the last of its tests.
use k8s_netperf.Prelude.{
  ℕ, String, Bool, true, false, ◌||◌, Option, some, List, [], All, All-map, All-zip, ok, err, ◌≡◌,
  ◌≢◌, refl, Bool-cases, inl, inr,
}
use k8s_netperf.Float.{Float64}
use k8s_netperf.Config.{Config}
use k8s_netperf.Flags.{Flags, is_set, check_flags}
use k8s_netperf.Workload.{panic}
use k8s_netperf.Workload.Plan.{Call, all_calls}
use k8s_netperf.Workload.Server.{Decoders, choose_server, choose_client}
use k8s_netperf.Workload.Execute.{World, execute_workload}
use k8s_netperf.Workload.Stops.{execute_workload_stops, run_calls_stops}
use k8s_netperf.Workload.Run.{run_tests}
use k8s_netperf.Sut.{Built, Api}
use k8s_netperf.Sut.Build.{build_sut}
use k8s_netperf.Sut.Ready.Chains.{Runs, Launches}
use k8s_netperf.Scenario.{BridgeNetworkConfig, Choices, options_of, initial}
use k8s_netperf.Scenario.Served.{build_sut_pods}
use k8s_netperf.Scenario.Machines.{build_sut_vms}

module _ (F : Float64) (D : Decoders) (open_file : String → Option (Option String))
    (unmarshal : String → Option BridgeNetworkConfig) (f : Flags) (c : Choices)
    (configs : List Config) (api : Api) (across : Bool) (b' : Built) where
  open F use {Real}

  -- The tests on pods and those on VMs find their clients and servers.
  calls-found :
      Runs api
      → (f.vm ≡ true → Launches api)
      → check_flags f ≡ ok tt
      → c.server_ip ≡ ""
      → (f.host_net_only ≡ true
          → (f.udnl2 || (f.udnl3 || (is_set f.cudn || is_set f.bridge))) ≡ false)
      → (f.vm ≡ true → (f.udnl2 || (f.udnl3 || is_set f.cudn)) ≡ false)
      → (f.vm ≡ true → c.node_local ≡ true → f.pod ≡ true)
      → build_sut api (options_of open_file unmarshal f c) (initial open_file unmarshal f c configs)
        ≡ ok b'
      → All
          (λ (x : Call).
            (choose_client b'.scenario x.host_net x.virt ≢ [])
            × (choose_server D f "" x.config b'.scenario x.host_net x.driver x.virt ≢ err panic))
          (all_calls b'.scenario f.host_net_only across)
  calls-found runs launches accepted none_given plain no_udn local e =
      All-zip _ _ _ (all_calls b'.scenario f.host_net_only across)
        (λ x pods vms. elim (Bool-cases x.virt) [
          | inl on ↦ rw on (vms on)
          | inr off ↦ rw off (pods off)
        ])
        (build_sut_pods D open_file unmarshal f c configs api across b' runs accepted none_given
          plain e)
        (build_sut_vms D open_file unmarshal f c configs api across b' runs launches accepted
          none_given no_udn local e)

  -- Where deployments that are ready have running pods, with `--vm` both machines are seen
  -- running before their watch ends and a machine seen running has its pod, and `BuildSUT`
  -- has succeeded on flags that are accepted, the tests of `Run` do not end in a nil pointer
  -- or an index out of range, neither in the choice of client and server nor where the
  -- drivers read the first pod of the client. The flags are without `--serverIP`; over the
  -- host network alone without `--udnl2`, `--udnl3`, `--cudn` and `--bridge`; with `--vm`
  -- without `--udnl2`, `--udnl3` and `--cudn`, and with pods if `--local` is given.
  pub run_tests_stops :
      Runs api
      → (f.vm ≡ true → Launches api)
      → check_flags f ≡ ok tt
      → c.server_ip ≡ ""
      → (f.host_net_only ≡ true
          → (f.udnl2 || (f.udnl3 || (is_set f.cudn || is_set f.bridge))) ≡ false)
      → (f.vm ≡ true → (f.udnl2 || (f.udnl3 || is_set f.cudn)) ≡ false)
      → (f.vm ≡ true → c.node_local ≡ true → f.pod ≡ true)
      → build_sut api (options_of open_file unmarshal f c) (initial open_file unmarshal f c configs)
        ≡ ok b'
      → (w : Call → World Real) (fuel : ℕ)
      → run_tests F D f "" w fuel b'.scenario across ≢ some (err panic)
  unfolding run_tests
  run_tests_stops runs launches accepted none_given plain no_udn local e w fuel stopped =
      run_calls_stops
        (λ x k.
          execute_workload F D f "" (w x) fuel x.config b'.scenario x.host_net x.driver x.virt k)
        (all_calls b'.scenario f.host_net_only across) 0 [] panic
        (All-map _ _ (all_calls b'.scenario f.host_net_only across)
          (λ x safe j y h.
            execute_workload_stops F D f "" (w x) fuel x.config b'.scenario x.host_net x.driver
              x.virt j y safe.1 safe.0 h)
          (calls-found runs launches accepted none_given plain no_udn local e))
        stopped refl
