-- ===== src/Workload/Plan/Allowed.antt =====
-- Which tests `Run` makes, and what their results are.

use k8s_netperf.Prelude.{
  eq_refl, ℕ, String, Bool, true, false, not, ◌&&◌, if◌then◌else◌, Option, some, Option-cases,
  Bool-cases, List, [], ◌∷◌, ◌++◌, All, All-append, Result, ok, Result-cases, ◌≡◌, refl, subst,
  arith, inl, inr,
}
use k8s_netperf.Config.{Config}
use k8s_netperf.Cluster.Services.{contains_driver}
use k8s_netperf.Results.{Data}
use k8s_netperf.Workload.{PerfScenarios, Stop}
use k8s_netperf.Workload.Plan.{
  Call, configured, call_if, pod_calls_of, vm_calls_of, pod_calls, vm_calls, all_calls,
  append_result, run_calls,
}

module _ (s : PerfScenarios) (host_net_only across : Bool) where
  -- A test is of a requested driver, on pods or VMs only where these run. On the host network it is
  -- of pods, when host tests are wanted, and not through a service; any other is made unless only
  -- the host network is wanted.
  pub record IsAllowed (c : Call) : Type 0 where
    pub requested : contains_driver s.requested_drivers c.driver ≡ true
    pub runs : (if c.virt then s.vm else s.pod) ≡ true
    pub on_host :
        c.host_net ≡ true → (s.host_network ≡ true) × (c.config.service ≡ false) × (c.virt ≡ false)
    pub on_pods : c.host_net ≡ false → host_net_only ≡ false
    pub zones : c.config.across_az ≡ across

  All-call_if : (b : Bool) (c : Call) → (b ≡ true → IsAllowed c) → All IsAllowed (call_if b c)
  unfolding call_if
  All-call_if true c h = (h refl, tt)
  All-call_if false c h = tt

  -- The drivers that a loop has still to see are requested.
  abbrev AreRequested : List String → Type 0
  AreRequested ds =
      (d : String) → contains_driver ds d ≡ true → contains_driver s.requested_drivers d ≡ true

  first_requested :
      (d : String) (ds : List String)
      → AreRequested (d ∷ ds)
      → contains_driver s.requested_drivers d ≡ true
  unfolding contains_driver
  first_requested d ds asked = asked d (ground (arith, eq_refl d))

  rest_requested : (d : String) (ds : List String) → AreRequested (d ∷ ds) → AreRequested ds
  unfolding contains_driver
  rest_requested d ds asked e h = asked e (ground (arith, h))

  pod_calls_of-IsAllowed :
      (nc : Config) (ds : List String)
      → nc.across_az ≡ across
      → s.pod ≡ true
      → AreRequested ds
      → All IsAllowed (pod_calls_of s.host_network host_net_only nc ds)
  unfolding pod_calls_of
  pod_calls_of-IsAllowed nc [] az pods asked = tt
  pod_calls_of-IsAllowed nc (d ∷ ds) az pods asked =
      All-append IsAllowed _ _
        (All-call_if (s.host_network && not nc.service) _ (λ h. record {
          requested = first_requested d ds asked;
          runs = pods;
          on_host = λ _. (ground (arith, h), ground (arith, h), refl);
          on_pods = λ bad. cc;
          zones = az;
        }))
        (All-append IsAllowed _ _
          (All-call_if (not host_net_only) _ (λ h. record {
            requested = first_requested d ds asked;
            runs = pods;
            on_host = λ bad. cc;
            on_pods = λ _. ground (arith, h);
            zones = az;
          }))
          (pod_calls_of-IsAllowed nc ds az pods (rest_requested d ds asked)))

  vm_calls_of-IsAllowed :
      (nc : Config) (ds : List String)
      → nc.across_az ≡ across
      → s.vm ≡ true
      → AreRequested ds
      → All IsAllowed (vm_calls_of host_net_only nc ds)
  unfolding vm_calls_of
  vm_calls_of-IsAllowed nc [] az vms asked = tt
  vm_calls_of-IsAllowed nc (d ∷ ds) az vms asked =
      All-append IsAllowed _ _
        (All-call_if (not host_net_only) _ (λ h. record {
          requested = first_requested d ds asked;
          runs = vms;
          on_host = λ bad. cc;
          on_pods = λ _. ground (arith, h);
          zones = az;
        }))
        (vm_calls_of-IsAllowed nc ds az vms (rest_requested d ds asked))

  pod_calls-IsAllowed :
      s.pod ≡ true → (ncs : List Config) → All IsAllowed (pod_calls s host_net_only across ncs)
  unfolding pod_calls configured
  pod_calls-IsAllowed pods [] = tt
  pod_calls-IsAllowed pods (nc ∷ ncs) =
      All-append IsAllowed _ _ (pod_calls_of-IsAllowed _ s.requested_drivers refl pods (λ d h. h))
        (pod_calls-IsAllowed pods ncs)

  vm_calls-IsAllowed :
      s.vm ≡ true → (ncs : List Config) → All IsAllowed (vm_calls s host_net_only across ncs)
  unfolding vm_calls configured
  vm_calls-IsAllowed vms [] = tt
  vm_calls-IsAllowed vms (nc ∷ ncs) =
      All-append IsAllowed _ _ (vm_calls_of-IsAllowed _ s.requested_drivers refl vms (λ d h. h))
        (vm_calls-IsAllowed vms ncs)

  -- Every test that `Run` makes is allowed: of a requested driver, on pods or VMs only where these
  -- run; on the host network only when host tests are wanted, not through a service and not on a
  -- VM, elsewhere only when not the host network alone is wanted, and with the flag for zones that
  -- `Run` computed.
  pub all_calls-IsAllowed : All IsAllowed (all_calls s host_net_only across)
  unfolding all_calls
  all_calls-IsAllowed =
      All-append IsAllowed _ _ (if_All s.pod _ (λ on. pod_calls-IsAllowed on s.configs))
        (if_All s.vm _ (λ on. vm_calls-IsAllowed on s.configs))
    where
      if_All :
          (b : Bool) (cs : List Call)
          → (b ≡ true → All IsAllowed cs)
          → All IsAllowed (if b then cs else [])
      if_All true cs h = h refl
      if_All false cs h = tt

module _ {R : Type 0} (P : Data R → Type 0)
    (execute : Call → ℕ → Option (Result Stop (Data R × Bool × ℕ)))
    (holds : (c : Call) (k : ℕ) (npr : Data R) (k' : ℕ)
      → execute c k ≡ some (ok (npr, true, k'))
      → P npr) where
  -- What every test that is done gives, every result of the run has.
  pub run_calls-All :
      (cs : List Call) (k : ℕ) (results results' : List (Data R)) (k' : ℕ)
      → All P results
      → run_calls execute cs k results ≡ some (ok (results', k'))
      → All P results'
  unfolding run_calls append_result
  run_calls-All [] k results results' k' all h = subst (All P) (cc h) all
  run_calls-All (c ∷ cs) k results results' k' all h = elim (Option-cases (execute c k)) [
    | inl e ↦ let never : ⊥ = ground (arith, e, h) in absurd never
    | inr (r, e) ↦ elim (Result-cases r) [
      | inr (x, f) ↦ let never : ⊥ = ground (arith, e, f, h) in absurd never
      | inl ((npr, done, j), f) ↦ elim (Bool-cases done) [
        | inl d ↦
            run_calls-All cs j (results ++ (npr ∷ [])) results' k'
              (All-append P results (npr ∷ []) all (holds c k npr j (ground (arith, e, f, d)), tt))
              (ground (arith, e, f, d, h))
        | inr d ↦ run_calls-All cs j results results' k' all (ground (arith, e, f, d, h))
      ]
    ]
  ]
