-- ===== src/Flags/Requests.antt =====
-- The drivers that accepted flags ask for (cmd/k8s-netperf/k8s-netperf.go).
use k8s_netperf.Prelude.{
  ◌⊎◌, inl, inr, ◌==◌, ◌++◌, eq_iff, Bool-cases, ◌≤◌, String, Bool, true, false, not, ◌&&◌, ◌||◌,
  List, [], ◌∷◌, if◌then◌else◌, ◌≡◌, refl, sym, some, All, All-append, length, length-append, to_ℕ,
  ◌+◌, arith, ok,
}
use k8s_netperf.Cluster.Services.{contains_driver}
use k8s_netperf.Config.{Config}
use k8s_netperf.Drivers.{Driver, new_driver}
use k8s_netperf.Flags.{
  Flags, guards, check_flags, ib_enabled, netperf_enabled, append_if, requested_drivers,
}
use k8s_netperf.Flags.Exclusive.{first_failure-eq-ok}

-- `NewDriver` makes a driver of that name for every configuration.
pub IsKnown : String → Type 0
IsKnown name =
    (cfg : Config) → (d : Driver) × (new_driver name cfg ≡ some d) × (d.driver_name ≡ name)

iperf3-IsKnown : IsKnown "iperf3"
unfolding IsKnown new_driver
iperf3-IsKnown cfg = (_, refl, refl)

uperf-IsKnown : IsKnown "uperf"
unfolding IsKnown new_driver
uperf-IsKnown cfg = (_, refl, refl)

ib_write_bw-IsKnown : IsKnown "ib_write_bw"
unfolding IsKnown new_driver
ib_write_bw-IsKnown cfg = (_, refl, refl)

netperf-IsKnown : IsKnown "netperf"
unfolding IsKnown new_driver
netperf-IsKnown cfg = (_, refl, refl)

append_if-All :
    (b : Bool) (name : String) (names : List String)
    → IsKnown name
    → All IsKnown names
    → All IsKnown (append_if b name names)
unfolding append_if
append_if-All true name names known all = All-append IsKnown names (name ∷ []) all (known, tt)
append_if-All false name names known all = all

length-append_if :
    (b : Bool) (name : String) (names : List String)
    → length (append_if b name names) ≡ length names + to_ℕ b
unfolding append_if
length-append_if true name names = length-append names (name ∷ [])
length-append_if false name names = omega arith

one_of :
    (n u i b changed : Bool)
    → (not u && (not n && (not i && not b))) ≡ false
    → 1 ≤ to_ℕ (if (i || (u || b)) && not changed then false else n) + to_ℕ u + to_ℕ i + to_ℕ b
one_of n u i b changed h = ground arith

-- Flags that the tests accept ask for at least one driver, and `NewDriver` knows every driver that
-- they ask for, so that the error "unknown driver" does not occur.
pub requested_drivers-IsKnown :
    (f : Flags)
    → check_flags f ≡ ok tt
    → (1 ≤ length (requested_drivers f)) × All IsKnown (requested_drivers f)
unfolding check_flags guards requested_drivers netperf_enabled
requested_drivers-IsKnown f h =
    let second = (first_failure-eq-ok (guards f) h).1.0 in
    let n = netperf_enabled f in
    let l1 = append_if n "netperf" [] in
    let l2 = append_if f.uperf "uperf" l1 in
    let l3 = append_if f.iperf3 "iperf3" l2 in
    let asked = one_of f.netperf f.uperf f.iperf3 (ib_enabled f) f.netperf_changed second in
    let e1 = length-append_if n "netperf" [] in
    let e2 = length-append_if f.uperf "uperf" l1 in
    let e3 = length-append_if f.iperf3 "iperf3" l2 in
    let e4 = length-append_if (ib_enabled f) "ib_write_bw" l3 in
    (
      omega (arith, asked, e1, e2, e3, e4),
      append_if-All (ib_enabled f) "ib_write_bw" l3 ib_write_bw-IsKnown (
          append_if-All f.iperf3 "iperf3" l2 iperf3-IsKnown (
            append_if-All f.uperf "uperf" l1 uperf-IsKnown
              (append_if-All n "netperf" [] netperf-IsKnown tt))),
    )

contains_driver-append :
    (names : List String) (name d : String)
    → contains_driver (names ++ (name ∷ [])) d ≡ true
    → (contains_driver names d ≡ true) ⊎ (d ≡ name)
unfolding contains_driver
contains_driver-append [] name d h =
    let same : (name == d) ≡ true = ground (arith, h) in
    let e : name ≡ d = (eq_iff name d).0 same in inr (sym e)
contains_driver-append (x ∷ names) name d h = elim (Bool-cases (x == d)) [
  | inl e ↦ inl (ground (arith, e))
  | inr e ↦ elim (contains_driver-append names name d (ground (arith, e, h))) [
    | inl k ↦ inl (ground (arith, k))
    | inr k ↦ inr k
  ]
]

contains_driver-append_if :
    (b : Bool) (name : String) (names : List String) (d : String)
    → contains_driver (append_if b name names) d ≡ true
    → (contains_driver names d ≡ true) ⊎ ((b ≡ true) × (d ≡ name))
unfolding append_if
contains_driver-append_if true name names d h = elim (contains_driver-append names name d h) [
  | inl k ↦ inl k
  | inr e ↦ inr (refl, e)
]
contains_driver-append_if false name names d h = inl h

-- A requested driver is one of the four, and `ib_write_bw` only where its flag was given.
pub requested_drivers-cases :
    (f : Flags) (d : String)
    → contains_driver (requested_drivers f) d ≡ true
    → (d ≡ "netperf")
      ⊎ ((d ≡ "uperf") ⊎ ((d ≡ "iperf3") ⊎ ((ib_enabled f ≡ true) × (d ≡ "ib_write_bw"))))
unfolding requested_drivers contains_driver
requested_drivers-cases f d h =
    let l1 = append_if (netperf_enabled f) "netperf" [] in
    let l2 = append_if f.uperf "uperf" l1 in
    let l3 = append_if f.iperf3 "iperf3" l2 in
    elim (contains_driver-append_if (ib_enabled f) "ib_write_bw" l3 d h) [
      | inr ib ↦ inr (inr (inr ib))
      | inl h3 ↦ elim (contains_driver-append_if f.iperf3 "iperf3" l2 d h3) [
        | inr (_, e) ↦ inr (inr (inl e))
        | inl h2 ↦ elim (contains_driver-append_if f.uperf "uperf" l1 d h2) [
          | inr (_, e) ↦ inr (inl e)
          | inl h1 ↦ elim (contains_driver-append_if (netperf_enabled f) "netperf" [] d h1) [
            | inr (_, e) ↦ inl e
            | inl never ↦ absurd (ground (arith, never))
          ]
        ]
      ]
    ]
