-- ===== src/Scenario/Served.antt =====
-- The tests on pods and through services of a run whose flags are accepted
-- (cmd/k8s-netperf/k8s-netperf.go).
use k8s_netperf.Prelude.{
  String, Bool, true, false, ◌||◌, if◌then◌else◌, Option, some, List, [], All, All-map, All-zip, ok,
  err, ◌≡◌, ◌≢◌, refl, sym, ap, subst, arith, Bool-cases, inl, inr,
}
use k8s_netperf.Prelude.Text.{is_empty}
use k8s_netperf.Config.{Config}
use k8s_netperf.Cluster.Services.{Service, contains_driver}
use k8s_netperf.Flags.{Flags, is_set, guards, check_flags, requested_drivers}
use k8s_netperf.Flags.Exclusive.{check_flags-IsIsolated, first_failure-eq-ok}
use k8s_netperf.Flags.Requests.{requested_drivers-cases}
use k8s_netperf.Workload.{PerfScenarios, panic}
use k8s_netperf.Workload.Plan.{Call, all_calls}
use k8s_netperf.Workload.Plan.Allowed.{IsAllowed, all_calls-IsAllowed}
use k8s_netperf.Workload.Server.{Decoders, select_service, choose_server, choose_client}
use k8s_netperf.Workload.Server.Safe.{on_host}
use k8s_netperf.Workload.Server.Served.{
  IsServed, by_iperf3, by_uperf, by_netperf, select_service_made, choose_server_of_service,
  choose_server_given,
}
use k8s_netperf.Sut.{Options, Built, Api}
use k8s_netperf.Sut.Build.{build_sut}
use k8s_netperf.Sut.Ready.Chains.{Runs}
use k8s_netperf.Sut.Ready.Kept.{build_sut-IsServiced}
use k8s_netperf.Sut.Ready.Served as Pods
use k8s_netperf.Scenario.{BridgeNetworkConfig, Choices, scenario_of, options_of, initial}

-- A test that is not of the host network alone has a driver with a service of its own.
driver-IsServed :
    (f : Flags) (d : String)
    → check_flags f ≡ ok tt
    → contains_driver (requested_drivers f) d ≡ true
    → f.host_net_only ≡ false
    → IsServed d
driver-IsServed f d accepted asked_for regular = elim (requested_drivers-cases f d asked_for) [
  | inl e ↦ subst IsServed (sym e) by_netperf
  | inr (inl e) ↦ subst IsServed (sym e) by_uperf
  | inr (inr (inl e)) ↦ subst IsServed (sym e) by_iperf3
  | inr (inr (inr (on, e))) ↦
      let i = check_flags-IsIsolated f accepted on in
      absurd (ground (arith, i.is_host_net, regular))
]

-- A test through a service is not on the host network.
through-regular :
    (s : PerfScenarios) (only across : Bool) (x : Call)
    → IsAllowed s only across x
    → x.config.service ≡ true
    → x.host_net ≡ false
through-regular s only across x allowed through = elim (Bool-cases x.host_net) [
  | inl on ↦ absurd (ground (arith, (allowed.on_host on).1, through))
  | inr off ↦ off
]

module _ (D : Decoders) (open_file : String → Option (Option String))
    (unmarshal : String → Option BridgeNetworkConfig) (f : Flags) (c : Choices)
    (configs : List Config) (api : Api) (across : Bool) (b' : Built) where
  abbrev pub options : Options
  options = options_of open_file unmarshal f c

  abbrev pub start : Built
  start = initial open_file unmarshal f c configs

  pub service-found :
      check_flags f ≡ ok tt
      → build_sut api options start ≡ ok b'
      → is_empty c.server_ip ≡ true
      → (x : Call) → IsAllowed b'.scenario f.host_net_only across x
      → x.config.service ≡ true
      → (v : Service) × (select_service b'.scenario.services x.driver x.virt ≡ some v)
  unfolding initial scenario_of
  service-found accepted e none_given x allowed through =
      let (made, same) = build_sut-IsServiced api options start b' (ground (arith, none_given)) e in
      let s = scenario_of open_file unmarshal f c configs in
      let drivers = ap (λ (u : PerfScenarios). u.requested_drivers) same in
      let pods = ap (λ (u : PerfScenarios). u.pod) same in
      let vms = ap (λ (u : PerfScenarios). u.vm) same in
      let requested : contains_driver (requested_drivers f) x.driver ≡ true =
        subst (λ (ds : List String). contains_driver ds x.driver ≡ true) drivers
          allowed.requested in
      let runs : (if x.virt then f.vm else f.pod) ≡ true = rw (sym vms, sym pods) allowed.runs in
      let regular =
        allowed.on_pods (through-regular b'.scenario f.host_net_only across x allowed through) in
      select_service_made api.services s.requested_drivers s.pod s.vm s.services
        b'.scenario.services made x.driver (driver-IsServed f x.driver accepted requested regular)
        requested x.virt runs

  -- When the flags are accepted and `BuildSUT` has succeeded, no test of `Run` through a service,
  -- on pods or on VMs, reads a nil pointer or a list out of range for the address of its server.
  pub build_sut_services :
      check_flags f ≡ ok tt
      → build_sut api options start ≡ ok b'
      → All
          (λ (x : Call).
            x.config.service ≡ true
            → choose_server D f c.server_ip x.config b'.scenario x.host_net x.driver x.virt
              ≢ err panic)
          (all_calls b'.scenario f.host_net_only across)
  build_sut_services accepted e =
      All-map (IsAllowed b'.scenario f.host_net_only across) _ _
        (λ x allowed through. elim (Bool-cases (is_empty c.server_ip)) [
          | inr given ↦
              choose_server_given D f c.server_ip x.config b'.scenario x.host_net x.driver x.virt
                given
          | inl none_given ↦
              let (v, found) = service-found accepted e none_given x allowed through in
              choose_server_of_service D f c.server_ip x.config b'.scenario x.host_net x.driver
                x.virt v through found
        ])
        (all_calls-IsAllowed b'.scenario f.host_net_only across)

  -- The host network alone, for no network that it cannot have.
  alone :
      check_flags f ≡ ok tt
      → (f.host_net_only ≡ true
          → (f.udnl2 || (f.udnl3 || (is_set f.cudn || is_set f.bridge))) ≡ false)
      → f.host_net_only ≡ true
      → c.node_local ≡ false
      → on_host start.scenario true ≡ true
  unfolding initial scenario_of check_flags guards
  alone accepted plain only away =
      let all = first_failure-eq-ok (guards f) accepted in
      let from11 = all.1.1.1.1.1.1.1.1.1.1.1 in
      let none_else = plain only in
      ground (arith, none_else, only, away, from11.0, from11.1.1.1.1.1.1.0)

  -- Without `--pod` there is no test on pods.
  pods-on :
      build_sut api options start ≡ ok b'
      → is_empty c.server_ip ≡ true
      → f.pod ≡ false
      → (x : Call) → IsAllowed b'.scenario f.host_net_only across x
      → x.virt ≢ false
  unfolding initial scenario_of
  pods-on e none_given off x allowed on_pods =
      let (made, same) = build_sut-IsServiced api options start b' (ground (arith, none_given)) e in
      let pods = ap (λ (u : PerfScenarios). u.pod) same in
      let on : b'.scenario.pod ≡ true = rw on_pods at allowed.runs in
      absurd (ground (arith, pods, on, off))

  -- Where deployments that are ready have running pods, and the
  -- flags are accepted without `--serverIP`, and, on a run over the host network alone, without
  -- `--udnl2`, `--udnl3`, `--cudn` and `--bridge`, then after `BuildSUT` has succeeded every test of
  -- `Run` on pods has a client pod and reads no nil pointer and no list out of range for the address
  -- of its server.
  pub build_sut_pods :
      Runs api
      → check_flags f ≡ ok tt
      → c.server_ip ≡ ""
      → (f.host_net_only ≡ true
          → (f.udnl2 || (f.udnl3 || (is_set f.cudn || is_set f.bridge))) ≡ false)
      → build_sut api options start ≡ ok b'
      → All
          (λ (x : Call).
            x.virt ≡ false
            → (choose_client b'.scenario x.host_net false ≢ [])
              × (choose_server D f "" x.config b'.scenario x.host_net x.driver false ≢ err panic))
          (all_calls b'.scenario f.host_net_only across)
  unfolding initial scenario_of options_of
  build_sut_pods runs accepted none_given plain e =
      let calls = all_calls b'.scenario f.host_net_only across in
      let empty : is_empty c.server_ip ≡ true = rw none_given refl in
      let all = all_calls-IsAllowed b'.scenario f.host_net_only across in
      elim (Bool-cases f.pod) [
        | inr off ↦
            All-map (IsAllowed b'.scenario f.host_net_only across) _ calls
              (λ x allowed on_pods. absurd (pods-on e empty off x allowed on_pods)) all
        | inl on ↦
            All-zip (IsAllowed b'.scenario f.host_net_only across)
              (λ (x : Call). x.virt ≡ false → Pods.IsServed D f b'.scenario x) _ calls
              (λ x allowed served on_pods. (
                (served on_pods).client,
                elim (Bool-cases x.config.service) [
                  | inr direct ↦ (served on_pods).server direct
                  | inl through ↦
                      let (v, found) = service-found accepted e empty x allowed through in
                      choose_server_of_service D f "" x.config b'.scenario x.host_net x.driver false
                        v through
                        (subst
                          (λ (virt : Bool).
                            select_service b'.scenario.services x.driver virt ≡ some v)
                          on_pods found)
                ],
              ))
              all
              (Pods.build_sut-IsServed D f api options across start b' runs on
                (ground (arith, empty)) (alone accepted plain) e)
      ]
