-- ===== src/Cluster/Services/Created.antt =====
-- Which services exist once `BuildSUT` has made them.
use k8s_netperf.Prelude.{String, Bool, true, false, List, ◌≡◌, refl, subst, sym}
use k8s_netperf.Cluster.Services.{
  Api, iperf_pod, iperf_vm, uperf_pod, uperf_vm, netperf_pod, netperf_vm, when, contains_driver,
  create_services,
}
use k8s_netperf.Cluster.Services.Steps.{
  Step, Keeps, Sets, Keeps->>=, Sets-first, Sets-last, Keeps-when, when-first, when-last,
  when-skipped, iperf_pod-Keeps, iperf_vm-Keeps, uperf_pod-Keeps, uperf_vm-Keeps, netperf_pod-Keeps,
  netperf_vm-Keeps, iperf_pod-Sets, iperf_vm-Sets, uperf_pod-Sets, uperf_vm-Sets, netperf_pod-Sets,
  netperf_vm-Sets,
}

module _ (api : Api) where
  module _ (drivers : List String) (pod vm : Bool) where
    abbrev iperf_block : Step
    iperf_block = when (contains_driver drivers "iperf3") (iperf_pod api pod) (iperf_vm api vm)

    abbrev uperf_block : Step
    uperf_block = when (contains_driver drivers "uperf") (uperf_pod api pod) (uperf_vm api vm)

    abbrev netperf_block : Step
    netperf_block =
        when (contains_driver drivers "netperf") (netperf_pod api pod) (netperf_vm api vm)

    pub iperf_service-Sets :
        contains_driver drivers "iperf3" ≡ true
        → pod ≡ true
        → Sets (λ s. s.iperf_service) (create_services api drivers pod vm)
    unfolding create_services
    iperf_service-Sets h on =
        Sets-first (λ s. s.iperf_service) _ _
          (when-first (λ s. s.iperf_service) (contains_driver drivers "iperf3") _ _ h
            (subst (λ b. Sets (λ s. s.iperf_service) (iperf_pod api b)) (sym on)
              (iperf_pod-Sets api))
            (iperf_vm-Keeps (λ s. s.iperf_service) api (λ _ _. refl) vm))
          (Keeps->>= (λ s. s.iperf_service) _ _
            (Keeps-when (λ s. s.iperf_service) (contains_driver drivers "uperf") _ _
              (uperf_pod-Keeps (λ s. s.iperf_service) api (λ _ _ _. refl) pod)
              (uperf_vm-Keeps (λ s. s.iperf_service) api (λ _ _ _. refl) vm))
            (Keeps-when (λ s. s.iperf_service) (contains_driver drivers "netperf") _ _
              (netperf_pod-Keeps (λ s. s.iperf_service) api (λ _ _. refl) pod)
              (netperf_vm-Keeps (λ s. s.iperf_service) api (λ _ _. refl) vm)))

    pub iperf_vm_service-Sets :
        contains_driver drivers "iperf3" ≡ true
        → vm ≡ true
        → Sets (λ s. s.iperf_vm_service) (create_services api drivers pod vm)
    unfolding create_services
    iperf_vm_service-Sets h on =
        Sets-first (λ s. s.iperf_vm_service) _ _
          (when-last (λ s. s.iperf_vm_service) (contains_driver drivers "iperf3") _ _ h
            (subst (λ b. Sets (λ s. s.iperf_vm_service) (iperf_vm api b)) (sym on)
              (iperf_vm-Sets api)))
          (Keeps->>= (λ s. s.iperf_vm_service) _ _
            (Keeps-when (λ s. s.iperf_vm_service) (contains_driver drivers "uperf") _ _
              (uperf_pod-Keeps (λ s. s.iperf_vm_service) api (λ _ _ _. refl) pod)
              (uperf_vm-Keeps (λ s. s.iperf_vm_service) api (λ _ _ _. refl) vm))
            (Keeps-when (λ s. s.iperf_vm_service) (contains_driver drivers "netperf") _ _
              (netperf_pod-Keeps (λ s. s.iperf_vm_service) api (λ _ _. refl) pod)
              (netperf_vm-Keeps (λ s. s.iperf_vm_service) api (λ _ _. refl) vm)))

    pub uperf_service-Sets :
        contains_driver drivers "uperf" ≡ true
        → pod ≡ true
        → Sets (λ s. s.uperf_service) (create_services api drivers pod vm)
    unfolding create_services
    uperf_service-Sets h on =
        Sets-last (λ s. s.uperf_service) _ _
          (Sets-first (λ s. s.uperf_service) _ _
            (when-first (λ s. s.uperf_service) (contains_driver drivers "uperf") _ _ h
              (subst (λ b. Sets (λ s. s.uperf_service) (uperf_pod api b)) (sym on)
                (uperf_pod-Sets api))
              (uperf_vm-Keeps (λ s. s.uperf_service) api (λ _ _ _. refl) vm))
            (Keeps-when (λ s. s.uperf_service) (contains_driver drivers "netperf") _ _
              (netperf_pod-Keeps (λ s. s.uperf_service) api (λ _ _. refl) pod)
              (netperf_vm-Keeps (λ s. s.uperf_service) api (λ _ _. refl) vm)))

    pub uperf_vm_service-Sets :
        contains_driver drivers "uperf" ≡ true
        → vm ≡ true
        → Sets (λ s. s.uperf_vm_service) (create_services api drivers pod vm)
    unfolding create_services
    uperf_vm_service-Sets h on =
        Sets-last (λ s. s.uperf_vm_service) _ _
          (Sets-first (λ s. s.uperf_vm_service) _ _
            (when-last (λ s. s.uperf_vm_service) (contains_driver drivers "uperf") _ _ h
              (subst (λ b. Sets (λ s. s.uperf_vm_service) (uperf_vm api b)) (sym on)
                (uperf_vm-Sets api)))
            (Keeps-when (λ s. s.uperf_vm_service) (contains_driver drivers "netperf") _ _
              (netperf_pod-Keeps (λ s. s.uperf_vm_service) api (λ _ _. refl) pod)
              (netperf_vm-Keeps (λ s. s.uperf_vm_service) api (λ _ _. refl) vm)))

    pub netperf_service-Sets :
        contains_driver drivers "netperf" ≡ true
        → pod ≡ true
        → Sets (λ s. s.netperf_service) (create_services api drivers pod vm)
    unfolding create_services
    netperf_service-Sets h on =
        Sets-last (λ s. s.netperf_service) iperf_block _
          (Sets-last (λ s. s.netperf_service) uperf_block netperf_block
            (when-first (λ s. s.netperf_service) (contains_driver drivers "netperf") _ _ h
              (subst (λ b. Sets (λ s. s.netperf_service) (netperf_pod api b)) (sym on)
                (netperf_pod-Sets api))
              (netperf_vm-Keeps (λ s. s.netperf_service) api (λ _ _. refl) vm)))

    pub netperf_vm_service-Sets :
        contains_driver drivers "netperf" ≡ true
        → vm ≡ true
        → Sets (λ s. s.netperf_vm_service) (create_services api drivers pod vm)
    unfolding create_services
    netperf_vm_service-Sets h on =
        Sets-last (λ s. s.netperf_vm_service) iperf_block _
          (Sets-last (λ s. s.netperf_vm_service) uperf_block netperf_block
            (when-last (λ s. s.netperf_vm_service) (contains_driver drivers "netperf")
              (netperf_pod api pod) _ h
              (subst (λ b. Sets (λ s. s.netperf_vm_service) (netperf_vm api b)) (sym on)
                (netperf_vm-Sets api))))

    pub netperf_service-Keeps :
        contains_driver drivers "netperf" ≡ false
        → Keeps (λ s. s.netperf_service) (create_services api drivers pod vm)
    unfolding create_services
    netperf_service-Keeps h =
        Keeps->>= (λ s. s.netperf_service) _ _
          (Keeps-when (λ s. s.netperf_service) (contains_driver drivers "iperf3") _ _
            (iperf_pod-Keeps (λ s. s.netperf_service) api (λ _ _. refl) pod)
            (iperf_vm-Keeps (λ s. s.netperf_service) api (λ _ _. refl) vm))
          (Keeps->>= (λ s. s.netperf_service) _ _
            (Keeps-when (λ s. s.netperf_service) (contains_driver drivers "uperf") _ _
              (uperf_pod-Keeps (λ s. s.netperf_service) api (λ _ _ _. refl) pod)
              (uperf_vm-Keeps (λ s. s.netperf_service) api (λ _ _ _. refl) vm))
            (when-skipped (λ s. s.netperf_service) (contains_driver drivers "netperf") _ _ h))

    pub netperf_vm_service-Keeps :
        contains_driver drivers "netperf" ≡ false
        → Keeps (λ s. s.netperf_vm_service) (create_services api drivers pod vm)
    unfolding create_services
    netperf_vm_service-Keeps h =
        Keeps->>= (λ s. s.netperf_vm_service) _ _
          (Keeps-when (λ s. s.netperf_vm_service) (contains_driver drivers "iperf3") _ _
            (iperf_pod-Keeps (λ s. s.netperf_vm_service) api (λ _ _. refl) pod)
            (iperf_vm-Keeps (λ s. s.netperf_vm_service) api (λ _ _. refl) vm))
          (Keeps->>= (λ s. s.netperf_vm_service) _ _
            (Keeps-when (λ s. s.netperf_vm_service) (contains_driver drivers "uperf") _ _
              (uperf_pod-Keeps (λ s. s.netperf_vm_service) api (λ _ _ _. refl) pod)
              (uperf_vm-Keeps (λ s. s.netperf_vm_service) api (λ _ _ _. refl) vm))
            (when-skipped (λ s. s.netperf_vm_service) (contains_driver drivers "netperf") _ _ h))
