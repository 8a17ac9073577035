-- ===== src/Workload/Server/Safe.antt =====
-- When the choice of the server in `executeWorkload` reads no list out of range.
use k8s_netperf.Prelude.{
  String, Bool, true, false, not, ◌&&◌, if◌then◌else◌, List, [], ◌∷◌, Result, ok, err, ◌>>=◌, ◌≡◌,
  ◌≢◌, refl, arith, Result-cases, Bool-cases, inl, inr,
}
use k8s_netperf.Prelude.Text.{is_empty}
use k8s_netperf.Config.{Config}
use k8s_netperf.Cluster.{Pod}
use k8s_netperf.Cluster.Networks as Networks
use k8s_netperf.Flags.{Flags}
use k8s_netperf.Workload.{
  PerfScenarios, Stop, bad_udn_ip, bad_sriov_ip, bad_bridge_ip, bad_macvlan_ip, panic,
}
use k8s_netperf.Workload.Server.{
  Decoders, Chosen, first_ip, from_pod, choose_udn, choose_cudn, choose_sriov, choose_bridge,
  choose_macvlan, choose_pod, choose_server,
}

-- A test of pods takes the server on the host network: for no network of its own.
abbrev pub on_host : PerfScenarios → Bool → Bool
on_host s host_net =
    not s.udn
    && (not s.cudn
        && (is_empty s.sriov_network
            && (is_empty s.bridge_network
                && (is_empty s.macvlan_network && (host_net && not s.node_local)))))

pub if-ne :
    {A : Type 0} (b : Bool) (x y z : A)
    → (b ≡ true → x ≢ z)
    → (b ≡ false → y ≢ z)
    → (if b then x else y) ≢ z
if-ne true x y z hx hy = hx refl
if-ne false x y z hx hy = hy refl

from_pod-ne :
    (pods : List Pod) (e : Stop) (extract : Pod → Result Networks.Error String)
    → pods ≢ []
    → e ≢ panic
    → from_pod pods e extract ≢ err panic
unfolding from_pod
from_pod-ne [] e extract h k = absurd (h refl)
from_pod-ne (p ∷ ps) e extract h k = elim (Result-cases (extract p)) [
  | inl (ip, f) ↦ rw (f, from_pod) (λ bad. cc)
  | inr (why, f) ↦ rw (f, from_pod) (λ bad. k (cc bad))
]

>>=-ne :
    (m : Result Stop String) (next : String → Chosen)
    → m ≢ err panic
    → (m >>= λ ip. ok (next ip)) ≢ err panic
>>=-ne (ok ip) next h = λ bad. cc
>>=-ne (err e) next h = λ bad. h (cc bad)

first_ip-ne : (pods : List Pod) → pods ≢ [] → first_ip pods ≢ err panic
unfolding first_ip
first_ip-ne [] h = absurd (h refl)
first_ip-ne (p ∷ ps) h = λ bad. cc

module _ (D : Decoders) (f : Flags) (s : PerfScenarios) (host_net : Bool) where
  choose_udn-ne : s.server ≢ [] → choose_udn D f s ≢ err panic
  unfolding choose_udn
  choose_udn-ne h = >>=-ne _ _ (from_pod-ne s.server bad_udn_ip _ h (λ bad. cc))

  choose_cudn-ne : s.server ≢ [] → choose_cudn D f s ≢ err panic
  unfolding choose_cudn
  choose_cudn-ne h = >>=-ne _ _ (from_pod-ne s.server bad_udn_ip _ h (λ bad. cc))

  choose_sriov-ne : s.server ≢ [] → choose_sriov D f s false ≢ err panic
  unfolding choose_sriov
  choose_sriov-ne h = >>=-ne _ _ (from_pod-ne s.server bad_sriov_ip _ h (λ bad. cc))

  choose_bridge-ne : s.server ≢ [] → choose_bridge D f s false ≢ err panic
  unfolding choose_bridge
  choose_bridge-ne h = >>=-ne _ _ (from_pod-ne s.server bad_bridge_ip _ h (λ bad. cc))

  choose_macvlan-ne : s.server ≢ [] → choose_macvlan D f s ≢ err panic
  unfolding choose_macvlan
  choose_macvlan-ne h = >>=-ne _ _ (from_pod-ne s.server bad_macvlan_ip _ h (λ bad. cc))

  choose_pod-ne :
      ((host_net && not s.node_local) ≡ true → s.server_host ≢ [])
      → ((host_net && not s.node_local) ≡ false → s.server ≢ [])
      → choose_pod D f s host_net false ≢ err panic
  unfolding choose_pod
  choose_pod-ne h k =
      if-ne (host_net && not s.node_local) (first_ip s.server_host) (first_ip s.server) (err panic)
        (λ e. first_ip-ne s.server_host (h e)) (λ e. first_ip-ne s.server (k e))

  -- The lists that a test of pods without a service reads are filled: then it does not panic.
  pub choose_server-ne-panic :
      (nc : Config) (driver : String)
      → nc.service ≡ false
      → (on_host s host_net ≡ true → s.server_host ≢ [])
      → (on_host s host_net ≡ false → s.server ≢ [])
      → choose_server D f "" nc s host_net driver false ≢ err panic
  unfolding choose_server
  choose_server-ne-panic nc driver service h k =
      let bad : Result Stop Chosen = err panic in
      let pod = choose_pod D f s host_net false in
      let mac = if not (is_empty s.macvlan_network) then choose_macvlan D f s else pod in
      let bridge = if not (is_empty s.bridge_network) then choose_bridge D f s false else mac in
      let sriov = if not (is_empty s.sriov_network) then choose_sriov D f s false else bridge in
      let cudn = if s.cudn then choose_cudn D f s else sriov in
      rw service (
        if-ne s.udn (choose_udn D f s) cudn bad (λ e. choose_udn-ne (k (ground arith)))
          (λ e1.
            if-ne s.cudn (choose_cudn D f s) sriov bad (λ e. choose_cudn-ne (k (ground arith)))
              (λ e2.
                if-ne (not (is_empty s.sriov_network)) (choose_sriov D f s false) bridge bad
                  (λ e. choose_sriov-ne (k (ground arith)))
                  (λ e3.
                    if-ne (not (is_empty s.bridge_network)) (choose_bridge D f s false) mac bad
                      (λ e. choose_bridge-ne (k (ground arith)))
                      (λ e4.
                        if-ne (not (is_empty s.macvlan_network)) (choose_macvlan D f s) pod bad
                          (λ e. choose_macvlan-ne (k (ground arith)))
                          (λ e5. choose_pod-ne (λ e. h (ground arith)) (λ e. k (ground arith))))))))

  choose_bridge_vm-ne : choose_bridge D f s true ≢ err panic
  unfolding choose_bridge
  choose_bridge_vm-ne = elim (Bool-cases (is_empty s.bridge_server_network)) [
    | inl e ↦ rw e (λ bad. cc)
    | inr e ↦ rw e (λ bad. cc)
  ]

  choose_sriov_vm-ne : s.vm_server ≢ [] → choose_sriov D f s true ≢ err panic
  unfolding choose_sriov
  choose_sriov_vm-ne h = >>=-ne _ _ (from_pod-ne s.vm_server bad_sriov_ip _ h (λ bad. cc))

  -- A test of VMs without a service, over none of the networks that only pods have: with a server's
  -- machine it does not panic.
  pub choose_server_vm-ne-panic :
      (nc : Config) (driver : String)
      → nc.service ≡ false
      → s.udn ≡ false
      → s.cudn ≡ false
      → is_empty s.macvlan_network ≡ true
      → s.vm_server ≢ []
      → choose_server D f "" nc s host_net driver true ≢ err panic
  unfolding choose_server choose_pod
  choose_server_vm-ne-panic nc driver service no_udn no_cudn no_macvlan h =
      let bad : Result Stop Chosen = err panic in
      let pod = first_ip s.vm_server in
      let bridge = if not (is_empty s.bridge_network) then choose_bridge D f s true else pod in
      rw (service, no_udn, no_cudn, no_macvlan)
        (if-ne (not (is_empty s.sriov_network)) (choose_sriov D f s true) bridge bad
          (λ e. choose_sriov_vm-ne h)
          (λ e.
            if-ne (not (is_empty s.bridge_network)) (choose_bridge D f s true) pod bad
              (λ e1. choose_bridge_vm-ne) (λ e1. first_ip-ne s.vm_server h)))
