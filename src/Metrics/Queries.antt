-- ===== src/Metrics/Queries.antt =====
-- The Prometheus queries of pkg/metrics/system.go.
use k8s_netperf.Prelude.{String, ◌<>◌, ◌||◌, not, if◌then◌else◌, ◌==◌, Option, none, some}
use k8s_netperf.Metrics.Types.{NodeInfo, PromConnect}

unfoldable pub node_identifier : NodeInfo → String
node_identifier node =
    if not (node.node_name == "")
    then node.node_name
    else if not (node.ip == "")
    then node.ip
    else "unknown node"

-- What the queries hold in place of each `%s`.
fill : String → String → String → String
fill before x after = before <> x <> after

module _ {R : Type 0} where
  unfoldable pub node_details_query : PromConnect R → Option String
  node_details_query conn =
      if conn.microshift
      then some "node_uname_info"
      else if conn.openshift
      then some "kube_node_info"
      else none

  unfoldable pub node_cpu_query : NodeInfo → PromConnect R → String
  unfolding fill
  node_cpu_query node conn =
      if conn.openshift || conn.microshift
      then fill "(avg by(mode) (rate(node_cpu_seconds_total{instance=~\"" node.node_name
          "\"}[2m])) * 100)"
      else fill "(avg by(mode) (rate(node_cpu_seconds_total{instance=~\"" node.ip
          ":.*\"}[2m])) * 100)"

  unfoldable pub top_pod_cpu_query : NodeInfo → PromConnect R → String
  unfolding fill
  top_pod_cpu_query node conn =
      if conn.microshift
      then fill "topk(10,sum(irate(container_cpu_usage_seconds_total{name!=\"\",instance=~\""
          node.node_name "\"}[2m]) * 100) by (pod, namespace, instance))"
      else fill "topk(10,sum(irate(container_cpu_usage_seconds_total{name!=\"\",instance=~\""
          node.ip ":.*\"}[2m]) * 100) by (pod, namespace, instance))"

  unfoldable pub vswitch_cpu_query : NodeInfo → PromConnect R → String
  unfolding fill
  vswitch_cpu_query node conn =
      if conn.microshift
      then fill
          "sum(irate(namedprocess_namegroup_cpu_seconds_total{groupname=~\"ovs-vswitchd\",instance=~\""
          node.node_name "\"}[2m]))*100"
      else fill
          "irate(container_cpu_usage_seconds_total{id=~\"/system.slice/ovs-vswitchd.service\", node=~\""
          node.node_name "\"}[2m])*100"

  unfoldable pub vswitch_mem_query : NodeInfo → PromConnect R → String
  unfolding fill
  vswitch_mem_query node conn =
      if conn.microshift
      then fill
          "namedprocess_namegroup_memory_bytes{groupname=~\"ovs-vswitchd\",memtype=~\"resident\",instance=~\""
          node.node_name "\"}"
      else fill "container_memory_rss{id=~\"/system.slice/ovs-vswitchd.service\", node=~\""
          node.node_name "\"}"

  unfoldable pub top_pod_mem_query : NodeInfo → PromConnect R → String
  unfolding fill
  top_pod_mem_query node conn =
      if conn.microshift
      then fill "topk(10,sum(container_memory_rss{container!=\"POD\",name!=\"\",instance=~\""
          node.node_name "\"}) by (pod, namespace, instance))"
      else fill "topk(10,sum(container_memory_rss{container!=\"POD\",name!=\"\",node=~\""
          node.node_name "\"}) by (pod, namespace, node))"
