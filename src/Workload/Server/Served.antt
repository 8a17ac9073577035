-- ===== src/Workload/Server/Served.antt =====
-- The service that `executeWorkload` reads (cmd/k8s-netperf/k8s-netperf.go).
use k8s_netperf.Prelude.{
  String, Bool, true, false, if◌then◌else◌, some, List, ok, err, ◌≡◌, ◌≢◌, Bool-cases, inl, inr,
}
use k8s_netperf.Prelude.Text.{is_empty}
use k8s_netperf.Config.{Config}
use k8s_netperf.Cluster.Services.{Api, Service, Services, contains_driver, create_services}
use k8s_netperf.Cluster.Services.Created.{
  iperf_service-Sets, iperf_vm_service-Sets, uperf_service-Sets, uperf_vm_service-Sets,
  netperf_service-Sets, netperf_vm_service-Sets,
}
use k8s_netperf.Flags.{Flags}
use k8s_netperf.Workload.{PerfScenarios, panic}
use k8s_netperf.Workload.Server.{Decoders, select_service, cluster_ip_of, choose_server}

-- The drivers whose tests through a service have one of their own.
pub data IsServed : String → Type 0 where
  by_iperf3 : IsServed "iperf3"
  by_uperf : IsServed "uperf"
  by_netperf : IsServed "netperf"

-- After `BuildSUT` has made the services, `executeWorkload` finds the one of every driver of
-- iperf3, uperf and netperf that was asked for, for pods where pods run and for VMs where they do.
pub select_service_made :
    (api : Api) (drivers : List String) (pod vm : Bool) (s s' : Services)
    → create_services api drivers pod vm s ≡ ok s'
    → (driver : String) → IsServed driver
    → contains_driver drivers driver ≡ true
    → (virt : Bool) → (if virt then vm else pod) ≡ true
    → (v : Service) × (select_service s' driver virt ≡ some v)
unfolding select_service
select_service_made api drivers pod vm s s' h _ by_iperf3 asked true on =
    iperf_vm_service-Sets api drivers pod vm asked on s s' h
select_service_made api drivers pod vm s s' h _ by_iperf3 asked false on =
    iperf_service-Sets api drivers pod vm asked on s s' h
select_service_made api drivers pod vm s s' h _ by_uperf asked true on =
    uperf_vm_service-Sets api drivers pod vm asked on s s' h
select_service_made api drivers pod vm s s' h _ by_uperf asked false on =
    uperf_service-Sets api drivers pod vm asked on s s' h
select_service_made api drivers pod vm s s' h _ by_netperf asked true on =
    netperf_vm_service-Sets api drivers pod vm asked on s s' h
select_service_made api drivers pod vm s s' h _ by_netperf asked false on =
    netperf_service-Sets api drivers pod vm asked on s s' h

-- The choice of a service that is there.
pub choose_server_of_service :
    (D : Decoders) (f : Flags) (ip : String) (nc : Config) (s : PerfScenarios) (host_net : Bool)
    (driver : String) (virt : Bool) (v : Service)
    → nc.service ≡ true
    → select_service s.services driver virt ≡ some v
    → choose_server D f ip nc s host_net driver virt ≢ err panic
unfolding choose_server cluster_ip_of
choose_server_of_service D f ip nc s host_net driver virt v through found =
    elim (Bool-cases (is_empty ip)) [
      | inl e ↦ rw (e, through, found) (λ bad. cc)
      | inr e ↦ rw e (λ bad. cc)
    ]

-- The choice of the address that was given.
pub choose_server_given :
    (D : Decoders) (f : Flags) (ip : String) (nc : Config) (s : PerfScenarios) (host_net : Bool)
    (driver : String) (virt : Bool)
    → is_empty ip ≡ false
    → choose_server D f ip nc s host_net driver virt ≢ err panic
unfolding choose_server
choose_server_given D f ip nc s host_net driver virt given = rw given (λ bad. cc)
