-- ===== src/Cluster/Services/Steps.antt =====
-- What one step of the making of the services sets and keeps.
use k8s_netperf.Prelude.{
  Bool, true, false, Option, some, [], ◌∷◌, Result, ok, err, ◌>>=◌, >>=-eq-ok, ◌≡◌, refl, subst,
  ◌∙◌,
}
use k8s_netperf.Cluster.Services.{
  Api, Service, Services, Error, no_uperf_service, no_histogram_service, make, iperf_pod, iperf_vm,
  uperf_pod, uperf_vm, netperf_pod, netperf_vm, when,
}

abbrev pub Step : Type 0
Step = Services → Result Error Services

module _ (field : Services → Option Service) where
  abbrev pub Keeps : Step → Type 0
  Keeps step = (s s' : Services) → step s ≡ ok s' → field s' ≡ field s

  abbrev pub Sets : Step → Type 0
  Sets step = (s s' : Services) → step s ≡ ok s' → (v : Service) × (field s' ≡ some v)

  pub Keeps->>= : (a b : Step) → Keeps a → Keeps b → Keeps (λ s. a s >>= b)
  Keeps->>= a b ha hb s s' h = let (t, ea, eb) = >>=-eq-ok (a s) b h in hb t s' eb ∙ ha s t ea

  pub Sets-first : (a b : Step) → Sets a → Keeps b → Sets (λ s. a s >>= b)
  Sets-first a b ha hb s s' h =
      let (t, ea, eb) = >>=-eq-ok (a s) b h in let (v, e) = ha s t ea in (v, hb t s' eb ∙ e)

  pub Sets-last : (a b : Step) → Sets b → Sets (λ s. a s >>= b)
  Sets-last a b hb s s' h = let (t, ea, eb) = >>=-eq-ok (a s) b h in hb t s' eb

  pub Keeps-ok :
      (f : Services → Services) → ((s : Services) → field (f s) ≡ field s) → Keeps (λ s. ok (f s))
  Keeps-ok f k s s' h = subst (λ r. field (elim r [ ok t ↦ t | err _ ↦ s' ]) ≡ field s) h (k s)

  pub Keeps-made :
      (m : Result Error Service) (f : Service → Step)
      → ((v : Service) → Keeps (f v))
      → Keeps (λ s. m >>= λ v. f v s)
  Keeps-made m f k s s' h = let (v, _, e) = >>=-eq-ok m (λ v. f v s) h in k v s s' e

  pub Sets-made :
      (m : Result Error Service) (f : Service → Step)
      → ((v : Service) → Sets (f v))
      → Sets (λ s. m >>= λ v. f v s)
  Sets-made m f k s s' h = let (v, _, e) = >>=-eq-ok m (λ v. f v s) h in k v s s' e

  pub Sets-ok :
      (f : Services → Services) (v : Service)
      → ((s : Services) → field (f s) ≡ some v)
      → Sets (λ s. ok (f s))
  Sets-ok f v k s s' h = (v, subst (λ r. field (elim r [ ok t ↦ t | err _ ↦ s' ]) ≡ some v) h (k s))

  pub Keeps-when : (b : Bool) (pods vms : Step) → Keeps pods → Keeps vms → Keeps (when b pods vms)
  unfolding when
  Keeps-when true pods vms hp hv = Keeps->>= pods vms hp hv
  Keeps-when false pods vms hp hv = Keeps-ok (λ s. s) (λ s. refl)

  pub when-first :
      (b : Bool) (pods vms : Step) → b ≡ true → Sets pods → Keeps vms → Sets (when b pods vms)
  unfolding when
  when-first true pods vms h hp hv = Sets-first pods vms hp hv
  when-first false pods vms h hp hv = cc

  pub when-last : (b : Bool) (pods vms : Step) → b ≡ true → Sets vms → Sets (when b pods vms)
  unfolding when
  when-last true pods vms h hv = Sets-last pods vms hv
  when-last false pods vms h hv = cc

  pub when-skipped : (b : Bool) (pods vms : Step) → b ≡ false → Keeps (when b pods vms)
  unfolding when
  when-skipped true pods vms h = cc
  when-skipped false pods vms h = Keeps-ok (λ s. s) (λ s. refl)

  module _ (api : Api) where
    pub iperf_pod-Keeps :
        ((v : Option Service) (s : Services) → field (record s { iperf_service = v }) ≡ field s)
        → (b : Bool) → Keeps (iperf_pod api b)
    unfolding iperf_pod
    iperf_pod-Keeps k true = Keeps-made _ _ (λ v. Keeps-ok _ (k (some v)))
    iperf_pod-Keeps k false = Keeps-ok (λ s. s) (λ s. refl)

    pub iperf_vm-Keeps :
        ((v : Option Service) (s : Services) → field (record s { iperf_vm_service = v }) ≡ field s)
        → (b : Bool) → Keeps (iperf_vm api b)
    unfolding iperf_vm
    iperf_vm-Keeps k true = Keeps-made _ _ (λ v. Keeps-ok _ (k (some v)))
    iperf_vm-Keeps k false = Keeps-ok (λ s. s) (λ s. refl)

    pub uperf_pod-Keeps :
        ((v w : Option Service) (s : Services)
          → field (record s { uperf_service = v; uperf_lat_service = w }) ≡ field s)
        → (b : Bool) → Keeps (uperf_pod api b)
    unfolding uperf_pod
    uperf_pod-Keeps k true =
        Keeps-made (make api "uperf-service" "server" 30000 (30001 ∷ []) no_uperf_service) _ (λ v.
          Keeps-made
            (make api "uperf-histogram-service" "server" 31000 (31001 ∷ []) no_histogram_service) _
            (λ w. Keeps-ok _ (k (some v) (some w))))
    uperf_pod-Keeps k false = Keeps-ok (λ s. s) (λ s. refl)

    pub uperf_vm-Keeps :
        ((v w : Option Service) (s : Services)
          → field (record s { uperf_vm_service = v; uperf_lat_vm_service = w }) ≡ field s)
        → (b : Bool) → Keeps (uperf_vm api b)
    unfolding uperf_vm
    uperf_vm-Keeps k true =
        Keeps-made (make api "uperf-vm-service" "vm-server" 30000 (30101 ∷ []) no_uperf_service) _
          (λ v.
            Keeps-made
              (make api "uperf-vm-histogram-service" "vm-server" 31000 (31101 ∷ [])
                no_histogram_service)
              _ (λ w. Keeps-ok _ (k (some v) (some w))))
    uperf_vm-Keeps k false = Keeps-ok (λ s. s) (λ s. refl)

    pub netperf_pod-Keeps :
        ((v : Option Service) (s : Services) → field (record s { netperf_service = v }) ≡ field s)
        → (b : Bool) → Keeps (netperf_pod api b)
    unfolding netperf_pod
    netperf_pod-Keeps k true = Keeps-made _ _ (λ v. Keeps-ok _ (k (some v)))
    netperf_pod-Keeps k false = Keeps-ok (λ s. s) (λ s. refl)

    pub netperf_vm-Keeps :
        ((v : Option Service) (s : Services)
          → field (record s { netperf_vm_service = v }) ≡ field s)
        → (b : Bool) → Keeps (netperf_vm api b)
    unfolding netperf_vm
    netperf_vm-Keeps k true = Keeps-made _ _ (λ v. Keeps-ok _ (k (some v)))
    netperf_vm-Keeps k false = Keeps-ok (λ s. s) (λ s. refl)

module _ (api : Api) where
  pub iperf_pod-Sets : Sets (λ s. s.iperf_service) (iperf_pod api true)
  unfolding iperf_pod
  iperf_pod-Sets =
      Sets-made (λ s. s.iperf_service) _ _ (λ v. Sets-ok (λ s. s.iperf_service) _ v (λ s. refl))

  pub iperf_vm-Sets : Sets (λ s. s.iperf_vm_service) (iperf_vm api true)
  unfolding iperf_vm
  iperf_vm-Sets =
      Sets-made (λ s. s.iperf_vm_service) _ _
        (λ v. Sets-ok (λ s. s.iperf_vm_service) _ v (λ s. refl))

  pub uperf_pod-Sets : Sets (λ s. s.uperf_service) (uperf_pod api true)
  unfolding uperf_pod
  uperf_pod-Sets =
      Sets-made (λ s. s.uperf_service)
        (make api "uperf-service" "server" 30000 (30001 ∷ []) no_uperf_service) _
        (λ v.
          Sets-made (λ s. s.uperf_service)
            (make api "uperf-histogram-service" "server" 31000 (31001 ∷ []) no_histogram_service) _
            (λ w. Sets-ok (λ s. s.uperf_service) _ v (λ s. refl)))

  pub uperf_vm-Sets : Sets (λ s. s.uperf_vm_service) (uperf_vm api true)
  unfolding uperf_vm
  uperf_vm-Sets =
      Sets-made (λ s. s.uperf_vm_service)
        (make api "uperf-vm-service" "vm-server" 30000 (30101 ∷ []) no_uperf_service) _
        (λ v.
          Sets-made (λ s. s.uperf_vm_service)
            (make api "uperf-vm-histogram-service" "vm-server" 31000 (31101 ∷ [])
              no_histogram_service)
            _ (λ w. Sets-ok (λ s. s.uperf_vm_service) _ v (λ s. refl)))

  pub netperf_pod-Sets : Sets (λ s. s.netperf_service) (netperf_pod api true)
  unfolding netperf_pod
  netperf_pod-Sets =
      Sets-made (λ s. s.netperf_service) _ _ (λ v. Sets-ok (λ s. s.netperf_service) _ v (λ s. refl))

  pub netperf_vm-Sets : Sets (λ s. s.netperf_vm_service) (netperf_vm api true)
  unfolding netperf_vm
  netperf_vm-Sets =
      Sets-made (λ s. s.netperf_vm_service) _ _
        (λ v. Sets-ok (λ s. s.netperf_vm_service) _ v (λ s. refl))
