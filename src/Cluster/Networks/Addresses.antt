-- ===== src/Cluster/Networks/Addresses.antt =====
-- The addresses that are read from the annotations of a pod (pkg/k8s/kubernetes.go).
use mathlib.Core.List.{Memᴰ}
use mathlib.Core.List.Memᴰ
use k8s_netperf.Prelude.{
  String, true, false, ◌==◌, eq_iff, Option, none, some, List, [], ◌∷◌, ok, err, ◌≡◌, ◌⊎◌, refl, ap,
  sym, subst, ◌∙◌, Bool-cases, Option-cases, inl, inr, arith,
}
use k8s_netperf.Prelude.Text.{contains, is_empty}
use k8s_netperf.Cluster.{Pod}
use k8s_netperf.Cluster.Networks.{
  NetworkStatus, not_found, first_ipv4, find_ip, found, decoded, extract_ip,
}

-- `ip` is an address with a dot of a network of that name.
pub record IsListed (expected : String) (statuses : List NetworkStatus) (ip : String) : Type 0 where
  pub status : NetworkStatus
  pub among : Memᴰ status statuses
  pub named : status.name ≡ expected
  pub listed : Memᴰ ip status.ips
  pub dotted : contains ip "." ≡ true

first_ipv4-eq-some :
    (ips : List String) (ip : String)
    → first_ipv4 ips ≡ some ip
    → Memᴰ ip ips × (contains ip "." ≡ true)
unfolding first_ipv4
first_ipv4-eq-some [] ip h = cc
first_ipv4-eq-some (x ∷ ips) ip h = elim (Bool-cases (contains x ".")) [
  | inl e ↦
      let same : x ≡ ip = ground (arith, e, h) in
      (Memᴰ.head (sym same), subst (λ y. contains y "." ≡ true) same e)
  | inr e ↦
      let later : first_ipv4 ips ≡ some ip = ground (arith, e, h) in
      let (m, d) = first_ipv4-eq-some ips ip later in (Memᴰ.tail m, d)
]

first_ipv4-eq-none :
    (ips : List String) (ip : String)
    → first_ipv4 ips ≡ none
    → Memᴰ ip ips
    → contains ip "." ≡ false
unfolding first_ipv4
first_ipv4-eq-none [] ip h m = absurd (Memᴰ.not-nil m)
first_ipv4-eq-none (x ∷ ips) ip h (Memᴰ.head e) =
    subst (λ y. contains y "." ≡ false) (sym e) (ground (arith, h))
first_ipv4-eq-none (x ∷ ips) ip h (Memᴰ.tail m) = first_ipv4-eq-none ips ip (ground (arith, h)) m

IsListed-tail :
    (expected : String) (s : NetworkStatus) (statuses : List NetworkStatus) (ip : String)
    → IsListed expected statuses ip
    → IsListed expected (s ∷ statuses) ip
IsListed-tail expected s statuses ip l = record {
  status = l.status;
  among = Memᴰ.tail l.among;
  named = l.named;
  listed = l.listed;
  dotted = l.dotted;
}

find_ip-eq-some :
    (expected : String) (statuses : List NetworkStatus) (ip : String)
    → find_ip expected statuses ≡ some ip
    → IsListed expected statuses ip
unfolding find_ip
find_ip-eq-some expected [] ip h = cc
find_ip-eq-some expected (s ∷ statuses) ip h =
    let later = λ (k : find_ip expected statuses ≡ some ip).
      IsListed-tail expected s statuses ip (find_ip-eq-some expected statuses ip k) in
    elim (Bool-cases (s.name == expected)) [
      | inr e ↦ later (ground (arith, e, h))
      | inl e ↦ elim (Option-cases (first_ipv4 s.ips)) [
        | inl n ↦ later (ground (arith, e, n, h))
        | inr (x, f) ↦
            let same : x ≡ ip = ground (arith, e, f, h) in
            let (m, d) = first_ipv4-eq-some s.ips ip (f ∙ ap some same) in
            record {
              status = s;
              among = Memᴰ.head refl;
              named = (eq_iff s.name expected).0 e;
              listed = m;
              dotted = d;
            }
      ]
    ]

find_ip-eq-none :
    (expected : String) (statuses : List NetworkStatus) (ip : String) (s : NetworkStatus)
    → find_ip expected statuses ≡ none
    → Memᴰ s statuses
    → s.name ≡ expected
    → Memᴰ ip s.ips
    → contains ip "." ≡ false
unfolding find_ip
find_ip-eq-none expected [] ip s h among named m = absurd (Memᴰ.not-nil among)
find_ip-eq-none expected (t ∷ statuses) ip s h (Memᴰ.head same) named m =
    let e : (t.name == expected) ≡ true =
      (eq_iff t.name expected).1 (ap (λ (r : NetworkStatus). r.name) (sym same) ∙ named) in
    elim (Option-cases (first_ipv4 t.ips)) [
      | inl n ↦ first_ipv4-eq-none t.ips ip n (subst (λ r. Memᴰ ip r.ips) same m)
      | inr (x, f) ↦ let never : ⊥ = ground (arith, e, f, h) in absurd never
    ]
find_ip-eq-none expected (t ∷ statuses) ip s h (Memᴰ.tail among) named m =
    find_ip-eq-none expected statuses ip s later among named m
  where
    later : find_ip expected statuses ≡ none
    later = elim (Bool-cases (t.name == expected)) [
      | inr e ↦ ground (arith, e, h)
      | inl e ↦ elim (Option-cases (first_ipv4 t.ips)) [
        | inl n ↦ ground (arith, e, n, h)
        | inr (x, f) ↦ let never : ⊥ = ground (arith, e, f, h) in absurd never
      ]
    ]

-- Where the annotation of a pod decodes to network statuses, the address that is extracted is one
-- with a dot of a network of the expected name, and an error says that there is no such address.
pub extract_ip_decoded :
    (decode : String → Option (List NetworkStatus)) (pod : Pod) (expected : String)
    (statuses : List NetworkStatus)
    → is_empty (pod.annotation "k8s.v1.cni.cncf.io/network-status") ≡ false
    → decode (pod.annotation "k8s.v1.cni.cncf.io/network-status") ≡ some statuses
    → ((ip : String) × (extract_ip decode pod expected ≡ ok ip) × IsListed expected statuses ip)
      ⊎ ((extract_ip decode pod expected ≡ err not_found)
          × ((ip : String) → ¬ IsListed expected statuses ip))
unfolding extract_ip decoded found
extract_ip_decoded decode pod expected statuses set d =
    elim (Option-cases (find_ip expected statuses)) [
      | inr (ip, f) ↦ inl (ip, ground (arith, set, d, f), find_ip-eq-some expected statuses ip f)
      | inl n ↦ inr (
        ground (arith, set, d, n),
        λ ip l.
            let none_dotted =
              find_ip-eq-none expected statuses ip l.status n l.among l.named l.listed in
            let never : ⊥ = cc (l.dotted, none_dotted) in never,
      )
    ]
