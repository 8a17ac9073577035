-- ===== src/Scenario/Machines.antt =====
-- The tests on VMs of a run whose flags are accepted (cmd/k8s-netperf/k8s-netperf.go).
use k8s_netperf.Prelude.{
  String, Bool, true, false, ◌||◌, Option, some, List, [], All, All-map, All-zip, ok, err, ◌≡◌, ◌≢◌,
  refl, ap, subst, arith, Bool-cases, inl, inr,
}
use k8s_netperf.Prelude.Text.{is_empty}
use k8s_netperf.Config.{Config}
use k8s_netperf.Flags.{Flags, is_set, guards, check_flags}
use k8s_netperf.Flags.Exclusive.{first_failure-eq-ok}
use k8s_netperf.Workload.{PerfScenarios, panic}
use k8s_netperf.Workload.Plan.{Call, all_calls}
use k8s_netperf.Workload.Plan.Allowed.{IsAllowed, all_calls-IsAllowed}
use k8s_netperf.Workload.Server.{Decoders, select_service, choose_server, choose_client}
use k8s_netperf.Workload.Server.Served.{choose_server_of_service}
use k8s_netperf.Sut.{Built, Api}
use k8s_netperf.Sut.Build.{build_sut}
use k8s_netperf.Sut.Ready.Chains.{Runs, Launches}
use k8s_netperf.Sut.Ready.Kept.{build_sut-IsServiced}
use k8s_netperf.Sut.Ready.Machines as Machines
use k8s_netperf.Scenario.{BridgeNetworkConfig, Choices, scenario_of, options_of, initial}
use k8s_netperf.Scenario.Served.{start, service-found}

-- With `--vm` there is no macvlan.
macvlan-is_empty : (f : Flags) → check_flags f ≡ ok tt → f.vm ≡ true → is_empty f.macvlan ≡ true
unfolding check_flags guards
macvlan-is_empty f accepted vms =
    let all = first_failure-eq-ok (guards f) accepted in
    let last = all.1.1.1.1.1.1.1.1.1.1.1.1.1.1.1.1.1.1 in ground (arith, last.0, vms)

module _ (D : Decoders) (open_file : String → Option (Option String))
    (unmarshal : String → Option BridgeNetworkConfig) (f : Flags) (c : Choices)
    (configs : List Config) (api : Api) (across : Bool) (b' : Built) where
  abbrev begin : Built
  begin = start D open_file unmarshal f c configs api across b'

  -- Without `--vm` there is no test on VMs.
  vms-on :
      build_sut api (options_of open_file unmarshal f c) begin ≡ ok b'
      → is_empty c.server_ip ≡ true
      → f.vm ≡ false
      → (x : Call) → IsAllowed b'.scenario f.host_net_only across x
      → x.virt ≢ true
  unfolding initial scenario_of
  vms-on e none_given off x allowed on_vms =
      let (made, same) =
        build_sut-IsServiced api (options_of open_file unmarshal f c) begin b'
          (ground (arith, none_given)) e in
      let vms = ap (λ (u : PerfScenarios). u.vm) same in
      let on : b'.scenario.vm ≡ true = rw on_vms at allowed.runs in
      absurd (ground (arith, vms, on, off))

  -- Where deployments that are ready have running pods, with `--vm` both machines are seen
  -- running before their watch ends and a machine seen running has its pod, and the flags are
  -- accepted without `--serverIP`, and, with `--vm`, without `--udnl2`, `--udnl3` and
  -- `--cudn` and with pods if `--local` is given, then after `BuildSUT` has succeeded every
  -- test of `Run` on VMs has a client and reads no nil pointer and no list out of range for
  -- the address of its server.
  pub build_sut_vms :
      Runs api
      → (f.vm ≡ true → Launches api)
      → check_flags f ≡ ok tt
      → c.server_ip ≡ ""
      → (f.vm ≡ true → (f.udnl2 || (f.udnl3 || is_set f.cudn)) ≡ false)
      → (f.vm ≡ true → c.node_local ≡ true → f.pod ≡ true)
      → build_sut api (options_of open_file unmarshal f c) begin ≡ ok b'
      → All
          (λ (x : Call).
            x.virt ≡ true
            → (choose_client b'.scenario x.host_net true ≢ [])
              × (choose_server D f "" x.config b'.scenario x.host_net x.driver true ≢ err panic))
          (all_calls b'.scenario f.host_net_only across)
  unfolding initial scenario_of options_of
  build_sut_vms runs launches accepted none_given no_udn local e =
      let calls = all_calls b'.scenario f.host_net_only across in
      let empty : is_empty c.server_ip ≡ true = rw none_given refl in
      let all = all_calls-IsAllowed b'.scenario f.host_net_only across in
      elim (Bool-cases f.vm) [
        | inr off ↦
            All-map (IsAllowed b'.scenario f.host_net_only across) _ calls
              (λ x allowed on_vms. absurd (vms-on e empty off x allowed on_vms)) all
        | inl on ↦
            All-zip (IsAllowed b'.scenario f.host_net_only across)
              (λ (x : Call). x.virt ≡ true → Machines.IsServedVm D f b'.scenario x) _ calls
              (λ x allowed served on_vms. (
                (served on_vms).client,
                elim (Bool-cases x.config.service) [
                  | inr direct ↦ (served on_vms).server direct
                  | inl through ↦
                      let (v, found) =
                        service-found D open_file unmarshal f c configs api across b' accepted e
                          empty x allowed through in
                      choose_server_of_service D f "" x.config b'.scenario x.host_net x.driver true
                        v through
                        (subst
                          (λ (virt : Bool).
                            select_service b'.scenario.services x.driver virt ≡ some v)
                          on_vms found)
                ],
              ))
              all
              (Machines.build_sut-IsServedVm D f api (options_of open_file unmarshal f c) across
                begin b' runs (launches on) (ground (arith, empty)) (local on)
                (ground (arith, no_udn on)) (ground (arith, no_udn on))
                (macvlan-is_empty f accepted on) e)
      ]
