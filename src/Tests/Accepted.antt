-- ===== src/Tests/Accepted.antt =====
-- A run from its flags to its tests.
use k8s_netperf.Prelude.{
  String, true, false, Option, none, List, [], ◌∷◌, All, ◌≡◌, ◌≢◌, refl, Result, ok, err, some,
}
use k8s_netperf.Config.{Config}
use k8s_netperf.Flags.{Flags, guards, check_flags, requested_drivers}
use k8s_netperf.Cluster.Services.{
  create_services, when, contains_driver, netperf_pod, make, netperf_vm,
}
use k8s_netperf.Cluster.Deployments.{deploy_deployment, get_pods}
use k8s_netperf.Cluster.Zones.{get_zone}
use k8s_netperf.Sut.Params.{client_host, client_across, server_host, server}
use k8s_netperf.Sut.Commands.{server_commands}
use k8s_netperf.Workload.{panic}
use k8s_netperf.Workload.Plan.{Call, all_calls}
use k8s_netperf.Workload.Server.{choose_server, choose_client}
use k8s_netperf.Sut.{Built, node_info, node_info_anyway}
use k8s_netperf.Sut.Build.{build_sut, launch_client_vm, launch_server_vm}
use k8s_netperf.Vms.Create.{
  create_vm_client, create_vm_server, public_key, create_vmi, create_comm_service, expose_service,
}
use k8s_netperf.Vms.Connect.{wait_for_vmi}
use k8s_netperf.Scenario.Machines.{build_sut_vms}
use k8s_netperf.Scenario.Stops.{run_tests_stops}
use k8s_netperf.Workload.Run.{run_tests}
use k8s_netperf.Scenario.{BridgeNetworkConfig, Choices, options_of, initial}
use k8s_netperf.Scenario.Served.{build_sut_services, build_sut_pods}
use k8s_netperf.Tests.{whole, stream}
use k8s_netperf.Tests.Workloads.{flags, decoders, world}
use k8s_netperf.Tests.Deployed.{api, running_pods, running_machines}

abbrev choices : Choices
choices = record {
  full = true;
  node_local = false;
  server_ip = "";
  bridge_namespace = "default";
  bridge_network = "bridgeNetwork.json";
  udn_plugin_binding = "passt";
  vm_image = "fedora:39";
  sockets = 2;
  cores = 2;
  threads = 1;
}

-- A test without and one with a service.
abbrev configs : List Config
configs = record stream { service = false } ∷ record stream { service = true } ∷ []

abbrev no_file : String → Option (Option String)
no_file _ = none

abbrev no_json : String → Option BridgeNetworkConfig
no_json _ = none

abbrev or_start : {E : Type 0} → Result E Built → Built
or_start (ok b) = b
or_start (err _) = initial no_file no_json flags choices configs

after : Built
unfolding build_sut
after = or_start (
    build_sut api (options_of no_file no_json flags choices)
      (initial no_file no_json flags choices configs))

built :
    build_sut api
      (options_of no_file no_json flags choices)
      (initial no_file no_json flags choices configs)
    ≡ ok after
unfolding after build_sut initial options_of get_zone create_services when contains_driver
    requested_drivers netperf_pod make netperf_vm deploy_deployment client_host client_across
    server_commands server_host server node_info
built = refl

build_sut_services_example :
    All
      (λ (x : Call).
        x.config.service ≡ true
        → choose_server decoders flags "" x.config after.scenario x.host_net x.driver x.virt
          ≢ err panic)
      (all_calls after.scenario false true)
unfolding check_flags guards
build_sut_services_example =
    build_sut_services decoders no_file no_json flags choices configs api true after refl built

build_sut_pods_example :
    All
      (λ (x : Call).
        x.virt ≡ false
        → (choose_client after.scenario x.host_net false ≢ [])
          × (choose_server decoders flags "" x.config after.scenario x.host_net x.driver false
              ≢ err panic))
      (all_calls after.scenario false true)
unfolding check_flags guards
build_sut_pods_example =
    build_sut_pods decoders no_file no_json flags choices configs api true after running_pods refl
      refl (λ never. cc) built

-- The same with virtual machines.
abbrev vm_flags : Flags
vm_flags = record flags { vm = true }

after_vms : Built
unfolding build_sut
after_vms = or_start (
    build_sut api (options_of no_file no_json vm_flags choices)
      (initial no_file no_json vm_flags choices configs))

built_vms :
    build_sut api
      (options_of no_file no_json vm_flags choices)
      (initial no_file no_json vm_flags choices configs)
    ≡ ok after_vms
unfolding after_vms build_sut initial options_of get_zone create_services when contains_driver
    requested_drivers netperf_pod make netperf_vm deploy_deployment client_host client_across
    server_commands server_host server node_info node_info_anyway launch_client_vm launch_server_vm
    create_vm_client create_vm_server wait_for_vmi get_pods public_key create_vmi
    create_comm_service expose_service
built_vms = refl

build_sut_vms_example :
    All
      (λ (x : Call).
        x.virt ≡ true
        → (choose_client after_vms.scenario x.host_net true ≢ [])
          × (choose_server decoders vm_flags "" x.config after_vms.scenario x.host_net x.driver true
              ≢ err panic))
      (all_calls after_vms.scenario false true)
unfolding check_flags guards
build_sut_vms_example =
    build_sut_vms decoders no_file no_json vm_flags choices configs api true after_vms running_pods
      (λ _. running_machines) refl refl (λ _. refl) (λ _ never. cc) built_vms

run_tests_stops_example :
    run_tests whole decoders vm_flags "" (λ _. world) 3 after_vms.scenario true ≢ some (err panic)
unfolding check_flags guards
run_tests_stops_example =
    run_tests_stops whole decoders no_file no_json vm_flags choices configs api true after_vms
      running_pods (λ _. running_machines) refl refl (λ never. cc) (λ _. refl) (λ _ never. cc)
      built_vms (λ _. world) 3
