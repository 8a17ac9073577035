-- ===== src/Cluster/Objects/Networks.antt =====
-- The networks that pkg/k8s/kubernetes.go deploys: user-defined ones, the bridge and macvlan.
use k8s_netperf.Prelude.{String, ◌<>◌, if◌then◌else◌, ◌==◌, List, [], ◌∷◌}
use k8s_netperf.Prelude.Text.{is_empty, to_lower, upper_first}
use k8s_netperf.Cluster.{namespace, udn_name, cudn_name, macvlan_nad_name}
use k8s_netperf.Cluster.Objects.{
  Value, text, list, dict, item, end, Fields, nil, field, Resource, Object, Server, create, delete,
  Requests, empty_cudn, fail, request,
}

abbrev pub user_defined_networks : Resource
user_defined_networks = record {
  group = "k8s.ovn.org";
  version = "v1";
  resource = "userdefinednetworks";
}

abbrev pub cluster_user_defined_networks : Resource
cluster_user_defined_networks = record {
  group = "k8s.ovn.org";
  version = "v1";
  resource = "clusteruserdefinednetworks";
}

abbrev pub attachment_definitions : Resource
attachment_definitions = record {
  group = "k8s.cni.cncf.io";
  version = "v1";
  resource = "network-attachment-definitions";
}

user_defined_network : Fields → Object
user_defined_network spec = record {
  api_version = "k8s.ovn.org/v1";
  kind = "UserDefinedNetwork";
  name = udn_name;
  metadata_namespace = namespace;
  annotations = [];
  spec = spec;
}

-- `{"lifecycle": "Persistent"}`
persistent : Value
persistent = dict (field "lifecycle" (text "Persistent") nil)

unfoldable pub layer2_udn : Object
unfolding user_defined_network persistent
layer2_udn = user_defined_network (
    field "topology" (text "Layer2") (
      field "layer2"
        (dict (
          field "role" (text "Primary")
            (field "subnets" (list (item (text "10.0.0.0/24") end)) (field "ipam" persistent nil))))
        nil))

unfoldable pub layer3_udn : Object
unfolding user_defined_network
layer3_udn = user_defined_network (
    field "topology" (text "Layer3") (
      field "layer3"
        (dict (
          field "role" (text "Primary")
            (field "subnets" (list (item (dict (field "cidr" (text "10.0.0.0/16") nil)) end)) nil)))
        nil))

unfoldable pub deploy_l2_udn : Server → Requests (Unit {0})
unfolding layer2_udn request
deploy_l2_udn server = request server (create user_defined_networks namespace layer2_udn)

unfoldable pub deploy_l3_udn : Server → Requests (Unit {0})
unfolding layer3_udn request
deploy_l3_udn server = request server (create user_defined_networks namespace layer3_udn)

-- The map that the switch on the topology fills. A map has no order.
cudn_layer : String → Fields
unfolding persistent
cudn_layer topology =
    if topology == "Layer3"
    then field "role" (text "Secondary")
        (field "subnets" (list (item (dict (field "cidr" (text "20.0.0.0/16") nil)) end)) nil)
    else if topology == "Layer2"
    then field "role" (text "Secondary")
        (field "ipam" persistent (field "subnets" (list (item (text "20.0.0.0/16") end)) nil))
    else field "role" (text "Secondary") nil

-- The label by which the network selects its namespaces.
abbrev pub selected_labels : List (String × String)
selected_labels = ("netperf", "test-namespace") ∷ []

unfoldable pub topology_of : String → String
unfolding to_lower upper_first
topology_of cudn = upper_first (to_lower cudn)

unfoldable pub cudn_object : String → Object
unfolding cudn_layer topology_of to_lower
cudn_object cudn = record {
  api_version = "k8s.ovn.org/v1";
  kind = "ClusterUserDefinedNetwork";
  name = cudn_name;
  metadata_namespace = namespace;
  annotations = [];
  spec =
      field "namespaceSelector"
        (dict (field "matchLabels" (dict (field "netperf" (text "test-namespace") nil)) nil))
        (field "network"
          (dict (
            field "topology" (text (topology_of cudn))
              (field (to_lower cudn) (dict (cudn_layer (topology_of cudn))) nil)))
          nil);
}

unfoldable pub deploy_cudn : Server → String → Requests (Unit {0})
unfolding cudn_object request
deploy_cudn server cudn =
    if is_empty cudn
    then fail empty_cudn
    else request server (create cluster_user_defined_networks "" (cudn_object cudn))

unfoldable pub destroy_cudn : Server → String → Requests (Unit {0})
unfolding request
destroy_cudn server cudn = request server (delete cluster_user_defined_networks "" cudn)

attachment : String → List (String × String) → String → Object
attachment name annotations config = record {
  api_version = "k8s.cni.cncf.io/v1";
  kind = "NetworkAttachmentDefinition";
  name = name;
  metadata_namespace = namespace;
  annotations = annotations;
  spec = field "config" (text config) nil;
}

unfoldable pub bridge_attachment : String → Object
unfolding attachment
bridge_attachment bridge =
    attachment "br-netperf"
      (("k8s.v1.cni.cncf.io/resourceName", "bridge.network.kubevirt.io/" <> bridge) ∷ [])
      ("{\"cniVersion\": \"0.3.1\", \"type\": \"bridge\", \"name\": \"br-netperf\", \"bridge\": \""
        <> bridge <> "\"}")

unfoldable pub deploy_nad_bridge : Server → String → Requests (Unit {0})
unfolding bridge_attachment request
deploy_nad_bridge server bridge =
    request server (create attachment_definitions namespace (bridge_attachment bridge))

unfoldable pub macvlan_attachment : String → Object
unfolding attachment
macvlan_attachment master = attachment macvlan_nad_name [] (
    "{\"cniVersion\": \"0.3.1\", \"type\": \"macvlan\", \"master\": \"" <> master
    <> "\", \"mode\": \"bridge\", \"ipam\": {\"type\": \"whereabouts\", "
    <> "\"range\": \"192.168.200.0/24\"}}")

unfoldable pub deploy_nad_macvlan : Server → String → Requests (Unit {0})
unfolding macvlan_attachment request
deploy_nad_macvlan server master =
    request server (create attachment_definitions namespace (macvlan_attachment master))
