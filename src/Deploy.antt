-- ===== src/Deploy.antt =====
-- The part of `Run` (cmd/k8s-netperf/k8s-netperf.go) that deploys the networks that its flags ask
-- for, and its `cleanup`.
pub mod Cleaned
use k8s_netperf.Prelude.{
  ℕ, String, Bool, true, false, not, ◌&&◌, ◌||◌, if◌then◌else◌, Option, none, some, List, [], ◌∷◌,
  ◌++◌, replicate, Result, ok, err,
}
use k8s_netperf.Prelude.Text.{is_empty}
use k8s_netperf.Cluster.{namespace, cudn_name, sriov_nad_name}
use k8s_netperf.Cluster.Polling.{Polled}
use k8s_netperf.Cluster.Objects.{
  Resource, Object, Server, Request, get, Requests, timed_out, return, ignoring, get_object, ◌>>=◌,
  ◌>>◌,
}
use k8s_netperf.Cluster.Objects.Networks.{
  attachment_definitions, deploy_l2_udn, deploy_l3_udn, deploy_cudn, destroy_cudn,
  deploy_nad_bridge, deploy_nad_macvlan,
}
use k8s_netperf.Cluster.Objects.Sriov.{
  deploy_sriov_operator_config, deploy_sriov_policy, deploy_sriov_network, wait_for_sriov_nad,
  destroy_sriov_resources,
}
use k8s_netperf.Flags.{Flags, is_set}

-- The flags that only this part reads, and what the polls for the definition find.
pub record Options : Type 0 where
  pub bridge_namespace : String
  pub sriov_node_selector : String
  pub nad_at : ℕ → Option Object

abbrev namespaces : Resource
namespaces = record { group = ""; version = "v1"; resource = "namespaces" }

unfoldable pub validate_bridge_network : Server → String → String → Requests (Unit {0})
validate_bridge_network server bridge ns =
    if is_empty bridge
    then return tt
    else (get_object server namespaces "" ns >>= λ _.
        get_object server attachment_definitions ns bridge >>= λ _. return tt)

-- The requests of the polls, and the error after the last one.
unfoldable pub polled_nad : (ℕ → Option Object) → Requests (Unit {0})
polled_nad nad_at =
    let p : Polled Object = wait_for_sriov_nad nad_at in
    (
      replicate p.attempts (get attachment_definitions namespace sriov_nad_name),
      elim p.answer [ some _ ↦ ok tt | none ↦ err timed_out ],
    )

module _ (server : Server) (f : Flags) (o : Options) where
  unfoldable pub deploy_udn : Requests (Unit {0})
  deploy_udn =
      if f.udnl2 || f.udnl3
      then (if f.udnl2 then deploy_l2_udn server else deploy_l3_udn server)
      else if is_set f.cudn
      then deploy_cudn server f.cudn
      else return tt

  -- For VMs a failure is only logged; without them the bridge has to be there.
  unfoldable pub deploy_bridge : Requests (Unit {0})
  deploy_bridge =
      if f.vm && is_set f.bridge
      then ignoring (deploy_nad_bridge server f.bridge)
      else if is_set f.bridge && not f.vm
      then validate_bridge_network server f.bridge o.bridge_namespace
      else return tt

  unfoldable pub deploy_sriov : Requests (Unit {0})
  unfolding polled_nad
  deploy_sriov =
      if is_set f.sriov
      then (deploy_sriov_operator_config server o.sriov_node_selector
          >> deploy_sriov_policy server f.sriov o.sriov_node_selector f.vm
          >> deploy_sriov_network server f.sriov
          >> polled_nad o.nad_at)
      else return tt

  unfoldable pub deploy_macvlan : Requests (Unit {0})
  deploy_macvlan = if is_set f.macvlan then deploy_nad_macvlan server f.macvlan else return tt

  -- From the user-defined networks to the choice of the drivers.
  unfoldable pub deploy_networks : Requests (Unit {0})
  deploy_networks = deploy_udn >> deploy_bridge >> deploy_sriov >> deploy_macvlan

-- `cleanup`, up to the namespace, which `destroy_namespace` models. Errors are logged.
unfoldable pub cleanup_networks : Server → Flags → Requests (Unit {0})
cleanup_networks server f =
    (if is_set f.cudn then ignoring (destroy_cudn server cudn_name) else return tt)
    >> (if is_set f.sriov then ignoring (destroy_sriov_resources server) else return tt)
