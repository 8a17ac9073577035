-- ===== src/Cluster/Objects/Sriov.antt =====
-- The SR-IOV objects of pkg/k8s/kubernetes.go.
use k8s_netperf.Prelude.{ℕ, String, ◌<>◌, Bool, true, if◌then◌else◌, Option, []}
use k8s_netperf.Cluster.{namespace, sriov_nad_name}
use k8s_netperf.Cluster.Polling.{Polled, poll}
use k8s_netperf.Cluster.Objects.{
  Value, text, num, bool, list, dict, item, end, Fields, nil, field, set_field, Resource, Object,
  Server, create, update, delete, Requests, ignoring, request, get_object, ◌>>=◌, ◌>>◌,
}

abbrev pub sriov_policy_name : String
sriov_policy_name = "sriov-netperf-policy"

abbrev pub sriov_operator_namespace : String
sriov_operator_namespace = "openshift-sriov-network-operator"

abbrev pub sriov_resource : String → Resource
sriov_resource name = record {
  group = "sriovnetwork.openshift.io";
  version = "v1";
  resource = name;
}

-- `{"node-role.kubernetes.io/<role>": ""}`
role_selector : String → Value
role_selector role = dict (field ("node-role.kubernetes.io/" <> role) (text "") nil)

-- The configuration that is written back: other fields of its `spec` stay.
undrained : String → Object → Object
unfolding set_field role_selector
undrained role existing = record existing {
  spec =
      set_field "disableDrain" (bool true)
        (set_field "configDaemonNodeSelector" (role_selector role) existing.spec);
}

unfoldable pub deploy_sriov_operator_config : Server → String → Requests (Unit {0})
unfolding get_object request undrained
deploy_sriov_operator_config server role = do
  existing ←
      get_object server (sriov_resource "sriovoperatorconfigs") sriov_operator_namespace "default"
  request server (
      update (sriov_resource "sriovoperatorconfigs") sriov_operator_namespace
        (undrained role existing))

sriov_object : String → String → Fields → Object
sriov_object kind name spec = record {
  api_version = "sriovnetwork.openshift.io/v1";
  kind = kind;
  name = name;
  metadata_namespace = sriov_operator_namespace;
  annotations = [];
  spec = spec;
}

unfoldable pub sriov_policy : String → String → Bool → Object
unfolding sriov_object role_selector
sriov_policy pf role vm = sriov_object "SriovNetworkNodePolicy" sriov_policy_name (
    field "resourceName" (text pf) (
      field "deviceType" (text (if vm then "vfio-pci" else "netdevice")) (
        field "numVfs" (num 2) (
          field "nicSelector" (dict (field "pfNames" (list (item (text pf) end)) nil))
            (field "nodeSelector" (role_selector role) nil)))))

unfoldable pub deploy_sriov_policy : Server → String → String → Bool → Requests (Unit {0})
unfolding sriov_policy request
deploy_sriov_policy server pf role vm = request server (
    create (sriov_resource "sriovnetworknodepolicies") sriov_operator_namespace
      (sriov_policy pf role vm))

unfoldable pub sriov_network : String → Object
unfolding sriov_object
sriov_network resource_name = sriov_object "SriovNetwork" sriov_nad_name (
    field "networkNamespace" (text namespace) (
      field "resourceName" (text resource_name)
        (field "ipam" (text "{\"type\": \"whereabouts\", \"range\": \"192.168.100.0/24\"}") nil)))

unfoldable pub deploy_sriov_network : Server → String → Requests (Unit {0})
unfolding sriov_network request
deploy_sriov_network server resource_name =
    request server (
      create (sriov_resource "sriovnetworks") sriov_operator_namespace
        (sriov_network resource_name))

-- The k-th poll of the loop finds the definition, or not; a pause takes five seconds.
unfoldable pub wait_for_sriov_nad : (ℕ → Option Object) → Polled Object
unfolding poll
wait_for_sriov_nad found = poll found 24 0

-- Both deletions are tried; a failure is a warning.
unfoldable pub destroy_sriov_resources : Server → Requests (Unit {0})
unfolding request
destroy_sriov_resources server = do
  ignoring (
      request server
        (delete (sriov_resource "sriovnetworks") sriov_operator_namespace sriov_nad_name))
  ignoring (
      request server (
        delete (sriov_resource "sriovnetworknodepolicies") sriov_operator_namespace
          sriov_policy_name))
