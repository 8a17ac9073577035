-- ===== src/Workload/Server.antt =====
-- The choice of the server's address and of the client pods in `executeWorkload`.
pub mod Served
pub mod Safe
use k8s_netperf.Prelude.{
  String, ◌<>◌, Bool, true, false, not, ◌&&◌, if◌then◌else◌, ◌==◌, Option, none, some, List, [],
  ◌∷◌, Result, ok, err, ◌>>=◌,
}
use k8s_netperf.Prelude.Text.{is_empty, split}
use k8s_netperf.Config.{Config}
use k8s_netperf.Cluster.{Pod, udn_name, cudn_name}
use k8s_netperf.Cluster.Services.{Service, Services}
use k8s_netperf.Cluster.Networks.{
  NetworkStatus, extract_udn_ip, extract_sriov_ip, extract_bridge_ip, extract_macvlan_ip,
}
use k8s_netperf.Cluster.Networks as Networks
use k8s_netperf.Flags.{Flags}
use k8s_netperf.Workload.{
  PerfScenarios, Stop, bad_udn_ip, bad_sriov_ip, bad_bridge_ip, no_bridge_network, bad_macvlan_ip,
  panic,
}

-- The decoders of encoding/json and net that the choice calls.
pub record Decoders : Type 0 where
  pub statuses : String → Option (List NetworkStatus)
  pub root : String → Option (String → String)
  pub ip_addresses : String → Option (List String)
  pub parse_cidr : String → Option String

-- The address, and the fields of the result that are set with it.
pub record Chosen : Type 0 where
  pub server_ip : String
  pub external_server : Bool
  pub udn_info : String
  pub bridge_info : String
  pub sriov_info : String
  pub macvlan_info : String

abbrev pub plain : String → Chosen
plain ip = record {
  server_ip = ip;
  external_server = false;
  udn_info = "";
  bridge_info = "";
  sriov_info = "";
  macvlan_info = "";
}

-- The field that holds the service of a driver.
unfoldable pub select_service : Services → String → Bool → Option Service
select_service s driver virt =
    if driver == "iperf3"
    then (if virt then s.iperf_vm_service else s.iperf_service)
    else if driver == "uperf"
    then (if virt then s.uperf_vm_service else s.uperf_service)
    else (if virt then s.netperf_vm_service else s.netperf_service)

-- `Spec.ClusterIP` of a pointer to a service.
cluster_ip_of : Option Service → Result Stop Chosen
cluster_ip_of none = err panic
cluster_ip_of (some s) = ok (plain s.cluster_ip)

-- `Status.PodIP` of the first pod of a list.
first_ip : List Pod → Result Stop Chosen
first_ip [] = err panic
first_ip (p ∷ ps) = ok (plain p.pod_ip)

-- The address that an extraction finds on the first pod of a list; its error is fatal.
from_pod : List Pod → Stop → (Pod → Result Networks.Error String) → Result Stop String
from_pod [] e extract = err panic
from_pod (p ∷ ps) e extract = elim (extract p) [ ok ip ↦ ok ip | err _ ↦ err e ]

-- `strings.Split(s, "/")[0]`
before_slash : String → String
unfolding split
before_slash s = elim (split b'/' s) [ [] ↦ "" | part ∷ parts ↦ part ]

module _ (D : Decoders) (f : Flags) where
  choose_udn : PerfScenarios → Result Stop Chosen
  unfolding from_pod
  choose_udn s =
      from_pod s.server bad_udn_ip
        (λ p. extract_udn_ip D.parse_cidr D.root D.ip_addresses p udn_name)
      >>= λ ip.
          let layer = if f.udnl2 then "layer2" else if f.udnl3 then "layer3" else "" in
          ok (record (plain ip) {
            udn_info = if s.vm then layer <> " - " <> s.udn_plugin_binding else layer;
          })

  choose_cudn : PerfScenarios → Result Stop Chosen
  unfolding from_pod
  choose_cudn s =
      from_pod s.server bad_udn_ip
        (λ p. extract_udn_ip D.parse_cidr D.root D.ip_addresses p cudn_name)
      >>= λ ip. ok (record (plain ip) { udn_info = "Cudn -" <> f.cudn })

  choose_sriov : PerfScenarios → Bool → Result Stop Chosen
  unfolding from_pod
  choose_sriov s virt =
      from_pod (if virt then s.vm_server else s.server) bad_sriov_ip (extract_sriov_ip D.statuses)
      >>= λ ip. ok (record (plain ip) { sriov_info = "sriov/" <> s.sriov_network })

  choose_bridge : PerfScenarios → Bool → Result Stop Chosen
  unfolding from_pod before_slash
  choose_bridge s true =
      let ip = before_slash s.bridge_server_network in
      if is_empty s.bridge_server_network
      then err no_bridge_network
      else ok (record (plain ip) { bridge_info = "VM Bridge (" <> ip <> ")" })
  choose_bridge s false =
      from_pod s.server bad_bridge_ip
        (λ p. extract_bridge_ip D.statuses p s.bridge_network s.bridge_namespace)
      >>= λ ip.
          ok (record (plain ip) { bridge_info = s.bridge_namespace <> "/" <> s.bridge_network })

  choose_macvlan : PerfScenarios → Result Stop Chosen
  unfolding from_pod
  choose_macvlan s = from_pod s.server bad_macvlan_ip (extract_macvlan_ip D.statuses) >>= λ ip.
      ok (record (plain ip) { macvlan_info = "macvlan/" <> s.macvlan_network })

  choose_pod : PerfScenarios → Bool → Bool → Result Stop Chosen
  unfolding first_ip
  choose_pod s host_net virt =
      if virt
      then first_ip s.vm_server
      else if host_net && not s.node_local
      then first_ip s.server_host
      else first_ip s.server

  -- The first argument is the flag `--serverIP`.
  unfoldable pub choose_server :
      String → Config → PerfScenarios → Bool → String → Bool → Result Stop Chosen
  unfolding cluster_ip_of choose_udn choose_cudn choose_sriov choose_bridge choose_macvlan
      choose_pod
  choose_server server_ip nc s host_net driver virt =
      if not (is_empty server_ip)
      then ok (record (plain server_ip) { external_server = true })
      else if nc.service
      then cluster_ip_of (select_service s.services driver virt)
      else if s.udn
      then choose_udn s
      else if s.cudn
      then choose_cudn s
      else if not (is_empty s.sriov_network)
      then choose_sriov s virt
      else if not (is_empty s.bridge_network)
      then choose_bridge s virt
      else if not (is_empty s.macvlan_network)
      then choose_macvlan s
      else choose_pod s host_net virt

-- The pods that the client runs in.
unfoldable pub choose_client : PerfScenarios → Bool → Bool → List Pod
choose_client s host_net virt =
    if host_net && not s.node_local
    then s.client_host
    else if not s.node_local && not s.external_server
    then (if virt then s.vm_client_across else s.client_across)
    else s.client
