-- ===== src/Sut/Build.antt =====
-- The steps of `BuildSUT`, `launchClientVM` and `launchServerVM` of pkg/k8s/kubernetes.go.
use k8s_netperf.Prelude.{
  ℕ, String, Bool, true, false, not, ◌&&◌, ◌||◌, if◌then◌else◌, Option, none, some, List, [], ◌∷◌,
  length, ltb, Result, ok, err, ◌>>=◌,
}
use k8s_netperf.Prelude.Text.{is_empty}
use k8s_netperf.Cluster.{Pod}
use k8s_netperf.Cluster.Services.{create_services}
use k8s_netperf.Cluster.Zones.{Zones, count_of, get_zone}
use k8s_netperf.Cluster.Deployments.{DeploymentParams, deploy_deployment, get_pods}
use k8s_netperf.Vms
use k8s_netperf.Vms.Create.{create_vm_client, create_vm_server}
use k8s_netperf.Vms.Connect.{wait_for_vmi}
use k8s_netperf.Vms.Configure.{configure_vm_sriov_ip}
use k8s_netperf.Sut.{
  Options, Built, Error, few_zones, no_nodes, few_nodes, bad_ib_params, deployment_failed,
  service_failed, vm_failed, vm_not_running, vm_not_configured, Api, node_info, node_info_anyway,
}
use k8s_netperf.Sut.Commands.{server_commands}
use k8s_netperf.Sut.Params.{
  Placement, other_zone, external_client, local_client, client_across, client_host, server,
  server_host,
}
use k8s_netperf.Workload.{PerfScenarios}

-- An error of a callee under the name of this one.
unfoldable pub renamed : {E A : Type 0} → (E → Error) → Result E A → Result Error A
renamed f (err e) = err (f e)
renamed f (ok a) = ok a

abbrev pub Step : Type 0
Step = Built → Result Error Built

-- `if b { … }`
unfoldable pub step_if : Bool → Step → Step
step_if true step b = step b
step_if false step b = ok b

infixl 6 ◌and_then◌
abbrev pub ◌and_then◌ : Step → Step → Step
◌and_then◌ first next b = first b >>= next

module _ (api : Api) (o : Options) where
  -- `deployDeployment`, with what is made of the pods.
  unfoldable pub deploying : DeploymentParams → (List Pod → Built → Built) → Step
  unfolding renamed
  deploying dp store b =
      renamed deployment_failed (deploy_deployment api.deployments dp) >>= λ pods. ok (store pods b)

  abbrev pub store_client : List Pod → Built → Built
  store_client pods b = record b { scenario = record b.scenario { client = pods } }

  abbrev pub store_across : List Pod → Built → Built
  store_across pods b = record b { scenario = record b.scenario { client_across = pods } }

  abbrev pub store_client_host : List Pod → Built → Built
  store_client_host pods b = record b { scenario = record b.scenario { client_host = pods } }

  abbrev pub store_server : List Pod → Built → Built
  store_server pods b = record b { scenario = record b.scenario { server = pods } }

  abbrev pub store_server_host : List Pod → Built → Built
  store_server_host pods b = record b { scenario = record b.scenario { server_host = pods } }

  unfoldable pub client_info : String → Step
  client_info label b = node_info api label >>= λ info.
      ok (record b { scenario = record b.scenario { client_node_info = info } })

  unfoldable pub server_info : String → Step
  server_info label b = node_info api label >>= λ info.
      ok (record b { scenario = record b.scenario { server_node_info = info } })

  -- With an external server only the client is made.
  unfoldable pub build_external : Step
  unfolding deploying client_info
  build_external b =
      (deploying (external_client o.privileged b.scenario) store_client
          and_then client_info "role=client-local")
        b

  unfoldable pub build_local : Step
  unfolding step_if deploying client_info
  build_local b =
      (step_if b.scenario.pod (deploying (local_client o.privileged b.scenario) store_client)
          and_then client_info "role=client-local")
        b

  unfoldable pub build_services : Step
  unfolding renamed
  build_services b =
      let s = b.scenario in
      renamed service_failed
        (create_services api.services s.requested_drivers s.pod s.vm s.services)
      >>= λ services. ok (record b { scenario = record s { services = services } })

  unfoldable pub vm_options : PerfScenarios → Vms.Options
  vm_options s = record {
    image = o.vm_image;
    udn = s.udn;
    udn_plugin_binding = s.udn_plugin_binding;
    cudn = s.cudn;
    sriov_network = s.sriov_network;
    sockets = o.sockets;
    cores = o.cores;
    threads = o.threads;
  }

  -- The address on the SR-IOV network, where there is one and a pod.
  unfoldable pub configured : String → String → List Pod → Result Error (Unit {0})
  unfolding renamed
  configured sriov_network name [] = ok tt
  configured sriov_network name (pod ∷ pods) =
      if is_empty sriov_network
      then ok tt
      else renamed vm_not_configured
          (configure_vm_sriov_ip api.decode (api.vmi_replies name) pod).result

  unfoldable pub launch_client_vm : DeploymentParams → Step
  unfolding renamed vm_options configured
  launch_client_vm across b =
      let s = b.scenario in
      renamed vm_failed (
        create_vm_client api.machines (vm_options s) "client-across" across.pod_anti_affinity
          across.node_affinity o.bridge_client_network)
      >>= λ host.
          renamed vm_not_running (wait_for_vmi (api.vmi_events "client-across") "client-across")
          >>= λ _.
              renamed deployment_failed (get_pods api.deployments "app=client-across") >>= λ pods.
              node_info_anyway api "app=client-across" >>= λ info.
              configured s.sriov_network "client-across" pods >>= λ _. ok (record {
                scenario = record s { vm_client_across = pods; client_node_info = info };
                vm_host = host;
                vm_name = "client-across";
              })

  unfoldable pub launch_server_vm : DeploymentParams → Step
  unfolding renamed vm_options configured
  launch_server_vm params b =
      let s = b.scenario in
      renamed vm_failed (
        create_vm_server api.machines (vm_options s) "vm-server" "vm-server"
          params.pod_anti_affinity params.node_affinity s.bridge_server_network)
      >>= λ _.
          renamed vm_not_running (wait_for_vmi (api.vmi_events "vm-server") "vm-server") >>= λ _.
          renamed deployment_failed (get_pods api.deployments "app=vm-server") >>= λ pods.
          node_info_anyway api "app=vm-server" >>= λ info.
          configured s.sriov_network "vm-server" pods >>= λ _.
          ok (record b { scenario = record s { vm_server = pods; server_node_info = info } })

  -- The clients of a cluster with several workers.
  unfoldable pub build_clients : Placement → Step
  unfolding step_if deploying client_info launch_client_vm
  build_clients p b =
      let s = b.scenario in
      (step_if (s.host_network && s.pod)
            (deploying (client_host o.privileged s p) store_client_host)
          and_then step_if (o.host_network_only && s.host_network) (client_info "role=host-client")
          and_then step_if (not o.host_network_only && s.pod)
              (deploying (client_across o.privileged s p) store_across)
          and_then step_if (not o.host_network_only && s.vm)
              (launch_client_vm (client_across o.privileged s p)))
        b

  unfoldable pub build_host_server : Placement → List (List String) → Step
  unfolding step_if deploying server_info
  build_host_server p commands b =
      let s = b.scenario in
      (step_if (s.pod && s.host_network)
            (deploying (server_host o.privileged s p commands) store_server_host)
          and_then step_if (o.host_network_only && s.host_network) (server_info "role=host-server"))
        b

  unfoldable pub build_server : Placement → List (List String) → Step
  unfolding step_if deploying server_info client_info launch_server_vm
  build_server p commands b =
      let s = b.scenario in
      (step_if s.pod (deploying (server o.privileged s p commands) store_server)
          and_then step_if s.pod (server_info "role=server")
          and_then step_if (s.pod && not s.node_local) (client_info "role=client-across")
          and_then step_if s.vm (launch_server_vm (server o.privileged s p commands)))
        b

  -- The servers: the pod of the host network, and the regular one.
  unfoldable pub build_servers : Placement → List (List String) → Step
  unfolding step_if build_host_server build_server
  build_servers p commands b =
      (step_if (ltb 1 p.workers) (build_host_server p commands)
          and_then step_if (not o.host_network_only || b.scenario.node_local)
              (build_server p commands))
        b

  -- From the count of the workers on.
  unfoldable pub build_placed : Placement → Step
  unfolding step_if build_local build_services build_clients build_servers
  build_placed p b =
      (step_if b.scenario.node_local build_local
          and_then build_services
          and_then step_if (ltb 1 p.workers) (build_clients p))
        b
      >>= λ b'.
          elim (server_commands b.scenario.requested_drivers b.scenario.configs
            o.ib_write_bw_params) [
              | none ↦ err bad_ib_params
              | some commands ↦ build_servers p commands b'
            ]

  abbrev pub zones_of : Option (String × Zones) → String × Zones
  zones_of none = ("", [])
  zones_of (some found) = found

  unfoldable pub placed : String × Zones → ℕ → PerfScenarios → Placement
  placed (z, zones) workers s = record {
    zone = z;
    zone_nodes = count_of z zones;
    across_zone = if s.across_az then other_zone z (api.iterated zones) else "";
    workers = workers;
    labeled = api.labeled;
  }

  unfoldable pub build_sut : Step
  unfolding build_external build_placed placed
  build_sut b =
      let s = b.scenario in
      let found = zones_of (get_zone api.zone_labels) in
      if s.external_server
      then build_external b
      else if ltb (length found.1) 2 && s.across_az
      then err few_zones
      else elim api.worker_count [
        | none ↦ err no_nodes
        | some workers ↦
            if not s.node_local && ltb workers 2
            then err few_nodes
            else build_placed (placed found workers s) b
      ]
