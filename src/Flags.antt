-- ===== src/Flags.antt =====
-- cmd/k8s-netperf/k8s-netperf.go: the command's flags, the tests of `Run` on them and the drivers
-- that they ask for.
pub mod Exclusive
pub mod Requests
use k8s_netperf.Prelude.{
  String, Bool, true, false, not, ◌&&◌, ◌||◌, if◌then◌else◌, ◌==◌, Option, none, some, List, [],
  ◌∷◌, ◌++◌, Result, ok, err,
}
use k8s_netperf.Prelude.Text.{is_empty, trim_space}

-- The flags that decide what runs. `ib_write_bw` is `none` for a flag that was not given.
pub record Flags : Type 0 where
  pub netperf : Bool
  pub netperf_changed : Bool
  pub iperf3 : Bool
  pub uperf : Bool
  pub ib_write_bw : Option String
  pub udnl2 : Bool
  pub udnl3 : Bool
  pub cudn : String
  pub host_net_only : Bool
  pub privileged : Bool
  pub pod : Bool
  pub vm : Bool
  pub bridge : String
  pub sriov : String
  pub macvlan : String

-- The calls of `log.Fatal`, in the order of the code.
pub data Error : Type 0 where
  ib_without_gid no_driver udnl2_udnl3 cudn_udn ib_unprivileged ib_udn ib_vm ib_bridge : Error
  sriov_bridge sriov_ib sriov_udn sriov_host_net sriov_vm_pod : Error
  macvlan_bridge macvlan_sriov macvlan_ib macvlan_udn macvlan_host_net macvlan_vm : Error

-- `s != ""`
abbrev pub is_set : String → Bool
is_set s = not (is_empty s)

unfoldable pub ib_enabled : Flags → Bool
ib_enabled f = elim f.ib_write_bw [ none ↦ false | some _ ↦ true ]

unfoldable pub ib_blank : Flags → Bool
ib_blank f = elim f.ib_write_bw [ none ↦ false | some nic ↦ is_empty (trim_space nic) ]

-- The conditions that end the program, each with its message.
unfoldable pub guards : Flags → List (Bool × Error)
unfolding ib_enabled ib_blank
guards f =
    let ib = ib_enabled f in
    let cudn = is_set f.cudn in
    let udn = f.udnl2 || (f.udnl3 || cudn) in
    let bridge = is_set f.bridge in
    let sriov = is_set f.sriov in
    let macvlan = is_set f.macvlan in
    (ib_blank f, ib_without_gid)
    ∷ (not f.uperf && (not f.netperf && (not f.iperf3 && not ib)), no_driver)
    ∷ (f.udnl2 && f.udnl3, udnl2_udnl3)
    ∷ (cudn && (f.udnl2 || f.udnl3), cudn_udn)
    ∷ (ib && (not f.privileged || not f.host_net_only), ib_unprivileged)
    ∷ (ib && udn, ib_udn)
    ∷ (ib && f.vm, ib_vm)
    ∷ (ib && bridge, ib_bridge)
    ∷ (sriov && bridge, sriov_bridge)
    ∷ (sriov && ib, sriov_ib)
    ∷ (sriov && udn, sriov_udn)
    ∷ (sriov && f.host_net_only, sriov_host_net)
    ∷ (sriov && (f.vm && f.pod), sriov_vm_pod)
    ∷ (macvlan && bridge, macvlan_bridge)
    ∷ (macvlan && sriov, macvlan_sriov)
    ∷ (macvlan && ib, macvlan_ib)
    ∷ (macvlan && udn, macvlan_udn)
    ∷ (macvlan && f.host_net_only, macvlan_host_net)
    ∷ (macvlan && f.vm, macvlan_vm)
    ∷ []

-- The first condition that holds ends the program.
abbrev pub first_failure : List (Bool × Error) → Result Error (Unit {0})
first_failure [] = ok tt
first_failure ((fails, e) ∷ rest) = if fails then err e else first_failure rest

unfoldable pub check_flags : Flags → Result Error (Unit {0})
unfolding guards
check_flags f = first_failure (guards f)

-- The default driver is dropped when another one is asked for.
unfoldable pub netperf_enabled : Flags → Bool
unfolding ib_enabled
netperf_enabled f =
    if (f.iperf3 || (f.uperf || ib_enabled f)) && not f.netperf_changed then false else f.netperf

append_if : Bool → String → List String → List String
append_if b name names = if b then names ++ (name ∷ []) else names

unfoldable pub requested_drivers : Flags → List String
unfolding netperf_enabled append_if ib_enabled
requested_drivers f =
    let drivers = append_if (netperf_enabled f) "netperf" [] in
    let drivers = append_if f.uperf "uperf" drivers in
    let drivers = append_if f.iperf3 "iperf3" drivers in
    append_if (ib_enabled f) "ib_write_bw" drivers
