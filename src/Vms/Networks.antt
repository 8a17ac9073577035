-- ===== src/Vms/Networks.antt =====
-- The interfaces and networks of the machines of pkg/k8s/kubevirt.go.
use k8s_netperf.Prelude.{String, ◌<>◌, Bool, not, if◌then◌else◌, List, [], ◌∷◌, map, ◌≡◌, arith}
use k8s_netperf.Prelude.Text.{is_empty}
use k8s_netperf.Cluster.{namespace, cudn_name, sriov_nad_name}

pub data Binding : Type 0 where
  masquerade bridge sriov : Binding
  plugin : String → Binding

pub record Interface : Type 0 where
  pub name : String
  pub binding : Binding

pub data Source : Type 0 where
  pod : Source
  multus : String → Source

pub record Network : Type 0 where
  pub name : String
  pub source : Source

pub record Wiring : Type 0 where
  pub interfaces : List Interface
  pub networks : List Network
  pub network_data : String
  pub extra_labels : List (String × String)

default_interface : Interface
default_interface = record { name = "default"; binding = masquerade }

default_network : Network
default_network = record { name = "default"; source = pod }

-- The default network and a second one.
second : String → Binding → String → String → Wiring
unfolding default_interface default_network
second name binding network data_text = record {
  interfaces = default_interface ∷ record { name = name; binding = binding } ∷ [];
  networks = default_network ∷ record { name = name; source = multus network } ∷ [];
  network_data = data_text;
  extra_labels = [];
}

abbrev dhcp : String → String
dhcp interface = "version: 2\nethernets:\n  " <> interface <> ":\n    dhcp4: true"

-- The choice that both `CreateVMClient` and `CreateVMServer` make; they name the interface of a
-- primary user-defined network differently. The bridge is given by the machine's address on it.
unfoldable pub wiring : String → String → Bool → String → Bool → String → Wiring
unfolding second default_interface default_network
wiring udn_interface bridge_address udn udn_binding cudn sriov_network =
    if not (is_empty bridge_address)
    then second "br-netperf" bridge "netperf/br-netperf"
        ("version: 2\nethernets:\n  eth1:\n    addresses: [ " <> bridge_address <> " ]")
    else if udn
    then record {
      interfaces = record { name = udn_interface; binding = plugin udn_binding } ∷ [];
      networks = record { name = udn_interface; source = pod } ∷ [];
      network_data = dhcp "eth0";
      extra_labels = ("kubevirt.io/udn-binding-method", udn_binding) ∷ [];
    }
    else if cudn
    then second "secondary" bridge (namespace <> "/" <> cudn_name) (dhcp "eth1")
    else if not (is_empty sriov_network)
    then second "sriov-netperf" sriov (namespace <> "/" <> sriov_nad_name) "{}"
    else record {
      interfaces = default_interface ∷ [];
      networks = default_network ∷ [];
      network_data = "{}";
      extra_labels = [];
    }

-- Each interface has the network of its name, in the same place, whatever networks are asked for.
wiring-names :
    (udn_interface bridge_address : String) (udn : Bool) (udn_binding : String) (cudn : Bool)
    (sriov_network : String)
    → let w : Wiring = wiring udn_interface bridge_address udn udn_binding cudn sriov_network in
      map (λ (i : Interface). i.name) w.interfaces ≡ map (λ (n : Network). n.name) w.networks
unfolding wiring second
wiring-names udn_interface bridge_address udn udn_binding cudn sriov_network = ground arith
