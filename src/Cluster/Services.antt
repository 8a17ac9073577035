-- ===== src/Cluster/Services.antt =====
-- `CreateService` and the part of `BuildSUT` that makes the services, of pkg/k8s/kubernetes.go.
pub mod Steps
pub mod Created
use k8s_netperf.Prelude.{
  ℕ, zero, suc, ◌+◌, String, ◌<>◌, Bool, true, false, ◌||◌, if◌then◌else◌, ◌==◌, Option, none, some,
  List, [], ◌∷◌, ◌++◌, Result, ok, err, ◌>>=◌,
}
use k8s_netperf.Prelude.Text.{show_nat}

pub record ServiceParams : Type 0 where
  pub name : String
  pub role : String
  pub ctl_port : ℕ
  pub data_ports : List ℕ

pub data Protocol : Type 0 where
  tcp udp : Protocol

-- The target port is the same number.
pub record Port : Type 0 where
  pub port_name : String
  pub protocol : Protocol
  pub port : ℕ

pub record ServiceSpec : Type 0 where
  pub service_name : String
  pub ports : List Port
  pub selector : String

pub record Service : Type 0 where
  pub spec : ServiceSpec
  pub cluster_ip : String

-- The services of the namespace: one by its name, and what the server makes of a new one.
pub record Api : Type 0 where
  pub get : String → Option Service
  pub create : ServiceSpec → Option Service

data_port_pairs : String → List ℕ → List Port
data_port_pairs name [] = []
data_port_pairs name (p ∷ ps) =
    record { port_name = name <> "-tcp-" <> show_nat p; protocol = tcp; port = p }
    ∷ record { port_name = name <> "-udp-" <> show_nat p; protocol = udp; port = p }
    ∷ data_port_pairs name ps

unfoldable pub service_of : ServiceParams → ServiceSpec
unfolding data_port_pairs
service_of sp = record {
  service_name = sp.name;
  ports =
      record { port_name = sp.name <> "-tcp-ctl"; protocol = tcp; port = sp.ctl_port }
      ∷ record { port_name = sp.name <> "-udp-ctl"; protocol = udp; port = sp.ctl_port }
      ∷ data_port_pairs sp.name sp.data_ports;
  selector = sp.role;
}

-- An existing service is used again.
unfoldable pub create_service : Api → ServiceParams → Option Service
unfolding service_of
create_service api sp = elim (api.get sp.name) [
  | some s ↦ some s
  | none ↦ api.create (service_of sp)
]

-- The service fields of `PerfScenarios`: `none` is a nil pointer.
pub record Services : Type 0 where
  pub netperf_service : Option Service
  pub iperf_service : Option Service
  pub uperf_service : Option Service
  pub uperf_lat_service : Option Service
  pub netperf_vm_service : Option Service
  pub iperf_vm_service : Option Service
  pub uperf_vm_service : Option Service
  pub uperf_lat_vm_service : Option Service

abbrev pub no_services : Services
no_services = record {
  netperf_service = none;
  iperf_service = none;
  uperf_service = none;
  uperf_lat_service = none;
  netperf_vm_service = none;
  iperf_vm_service = none;
  uperf_vm_service = none;
  uperf_lat_vm_service = none;
}

pub data Error : Type 0 where
  no_iperf_service no_uperf_service no_histogram_service no_netperf_service : Error

-- The sixteen ports from 42424 on, for pods and for VMs.
ports_from : ℕ → ℕ → List ℕ
ports_from p zero = []
ports_from p (suc n) = p ∷ ports_from (p + 1) n

-- The assignment of the created service to a field, or the return of an error.
unfoldable pub made : Option Service → Error → Result Error Service
made none e = err e
made (some s) e = ok s

unfoldable pub contains_driver : List String → String → Bool
contains_driver [] driver = false
contains_driver (d ∷ ds) driver = (d == driver) || contains_driver ds driver

-- A block of the code for a driver: its services, when it is asked for.
unfoldable pub when :
    Bool
    → (Services → Result Error Services)
    → (Services → Result Error Services)
    → Services
    → Result Error Services
when false pods vms s = ok s
when true pods vms s = pods s >>= vms

module _ (api : Api) where
  unfoldable pub make : String → String → ℕ → List ℕ → Error → Result Error Service
  unfolding create_service made
  make name role ctl data_ports e =
      made
        (create_service api
          (record { name = name; role = role; ctl_port = ctl; data_ports = data_ports }))
        e

  unfoldable pub iperf_pod : Bool → Services → Result Error Services
  iperf_pod false s = ok s
  iperf_pod true s = make "iperf-service" "server" 22865 (43433 ∷ []) no_iperf_service >>= λ v.
      ok (record s { iperf_service = some v })

  unfoldable pub iperf_vm : Bool → Services → Result Error Services
  iperf_vm false s = ok s
  iperf_vm true s = make "iperf-vm-service" "vm-server" 22865 (43533 ∷ []) no_iperf_service >>= λ v.
      ok (record s { iperf_vm_service = some v })

  unfoldable pub uperf_pod : Bool → Services → Result Error Services
  uperf_pod false s = ok s
  uperf_pod true s = make "uperf-service" "server" 30000 (30001 ∷ []) no_uperf_service >>= λ v.
      make "uperf-histogram-service" "server" 31000 (31001 ∷ []) no_histogram_service >>= λ w.
      ok (record s { uperf_service = some v; uperf_lat_service = some w })

  unfoldable pub uperf_vm : Bool → Services → Result Error Services
  uperf_vm false s = ok s
  uperf_vm true s = make "uperf-vm-service" "vm-server" 30000 (30101 ∷ []) no_uperf_service >>= λ v.
      make "uperf-vm-histogram-service" "vm-server" 31000 (31101 ∷ []) no_histogram_service >>= λ w.
      ok (record s { uperf_vm_service = some v; uperf_lat_vm_service = some w })

  unfoldable pub netperf_pod : Bool → Services → Result Error Services
  unfolding ports_from
  netperf_pod false s = ok s
  netperf_pod true s =
      make "netperf-service" "server" 12865 (ports_from 42424 16) no_netperf_service >>= λ v.
      ok (record s { netperf_service = some v })

  unfoldable pub netperf_vm : Bool → Services → Result Error Services
  unfolding ports_from
  netperf_vm false s = ok s
  netperf_vm true s =
      make "netperf-vm-service" "vm-server" 12865 (ports_from 42424 16) no_netperf_service >>= λ v.
      ok (record s { netperf_vm_service = some v })

  unfoldable pub create_services : List String → Bool → Bool → Services → Result Error Services
  create_services drivers pod vm s =
      when (contains_driver drivers "iperf3") (iperf_pod pod) (iperf_vm vm) s >>= λ s1.
      when (contains_driver drivers "uperf") (uperf_pod pod) (uperf_vm vm) s1 >>= λ s2.
      when (contains_driver drivers "netperf") (netperf_pod pod) (netperf_vm vm) s2
