-- ===== src/Flags/Exclusive.antt =====
-- The networks and the driver that accepted flags name (cmd/k8s-netperf/k8s-netperf.go).
use k8s_netperf.Prelude.{
  ℕ, ◌+◌, ◌≤◌, Bool, true, false, not, ◌&&◌, ◌||◌, List, [], ◌∷◌, ◌≡◌, refl, to_ℕ, All, arith, ok,
}
use k8s_netperf.Flags.{
  Flags, Error, is_set, ib_enabled, ib_blank, guards, first_failure, check_flags,
}

pub first_failure-eq-ok :
    (gs : List (Bool × Error)) → first_failure gs ≡ ok tt → All (λ g. g.0 ≡ false) gs
first_failure-eq-ok [] h = tt
first_failure-eq-ok ((true, e) ∷ gs) h = cc
first_failure-eq-ok ((false, e) ∷ gs) h = (refl, first_failure-eq-ok gs h)

-- How many of the additional networks the flags ask for.
abbrev pub networks : Flags → ℕ
networks f =
    to_ℕ f.udnl2
    + to_ℕ f.udnl3
    + to_ℕ (is_set f.cudn)
    + to_ℕ (is_set f.sriov)
    + to_ℕ (is_set f.macvlan)

five_exclusive :
    (a b c d e : Bool)
    → (a && b) ≡ false
    → (c && (a || b)) ≡ false
    → (d && (a || (b || c))) ≡ false
    → (e && d) ≡ false
    → (e && (a || (b || c))) ≡ false
    → to_ℕ a + to_ℕ b + to_ℕ c + to_ℕ d + to_ℕ e ≤ 1
five_exclusive a b c d e h1 h2 h3 h4 h5 = ground arith

-- Flags that the tests accept ask for at most one of the networks of `--udnl2`, `--udnl3`,
-- `--cudn`, `--sriov` and `--macvlan`.
pub check_flags-networks : (f : Flags) → check_flags f ≡ ok tt → networks f ≤ 1
unfolding check_flags guards
check_flags-networks f h =
    let all = first_failure-eq-ok (guards f) h in
    let from3 = all.1.1 in
    let from9 = from3.1.1.1.1.1.1 in
    let from15 = from9.1.1.1.1.1.1 in
    five_exclusive f.udnl2 f.udnl3 (is_set f.cudn) (is_set f.sriov) (is_set f.macvlan) from3.0
      from3.1.0 from9.1.1.0 from15.0 from15.1.1.0

-- What the driver `ib_write_bw` needs of the other flags.
pub record IsIsolated (f : Flags) : Type 0 where
  pub has_gid : ib_blank f ≡ false
  pub is_privileged : f.privileged ≡ true
  pub is_host_net : f.host_net_only ≡ true
  pub no_vm : f.vm ≡ false
  pub no_bridge : is_set f.bridge ≡ false
  pub no_network : networks f ≡ 0

isolated :
    (ib priv host vm bridge a b c d e : Bool)
    → ib ≡ true
    → (ib && (not priv || not host)) ≡ false
    → (ib && (a || (b || c))) ≡ false
    → (ib && vm) ≡ false
    → (ib && bridge) ≡ false
    → (d && ib) ≡ false
    → (e && ib) ≡ false
    → (priv ≡ true)
      × (host ≡ true)
      × (vm ≡ false)
      × (bridge ≡ false)
      × (to_ℕ a + to_ℕ b + to_ℕ c + to_ℕ d + to_ℕ e ≡ 0)
isolated ib priv host vm bridge a b c d e on h1 h2 h3 h4 h5 h6 =
    (ground arith, ground arith, ground arith, ground arith, ground arith)

pub check_flags-IsIsolated :
    (f : Flags) → check_flags f ≡ ok tt → ib_enabled f ≡ true → IsIsolated f
unfolding check_flags guards
check_flags-IsIsolated f h on =
    let all = first_failure-eq-ok (guards f) h in
    let from5 = all.1.1.1.1 in
    let from10 = from5.1.1.1.1.1 in
    let from16 = from10.1.1.1.1.1.1 in
    let parts =
      isolated (ib_enabled f) f.privileged f.host_net_only f.vm (is_set f.bridge) f.udnl2 f.udnl3
        (is_set f.cudn) (is_set f.sriov) (is_set f.macvlan) on from5.0 from5.1.0 from5.1.1.0
        from5.1.1.1.0 from10.0 from16.0 in
    record {
      has_gid = all.0;
      is_privileged = parts.0;
      is_host_net = parts.1;
      no_vm = parts.2;
      no_bridge = parts.3;
      no_network = parts.4;
    }
