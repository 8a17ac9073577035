-- ===== src/Workload/Plan.antt =====
-- The loops of `Run` over the configurations and the drivers (cmd/k8s-netperf/k8s-netperf.go).
-- The connection to the VM, which `Run` makes between the loops for pods and for VMs, is left out.
pub mod Allowed
use k8s_netperf.Prelude.{
  ℕ, String, Bool, true, false, not, ◌&&◌, if◌then◌else◌, Option, none, some, List, [], ◌∷◌, ◌++◌,
  Result, ok, err,
}
use k8s_netperf.Prelude.Text.{contains}
use k8s_netperf.Config.{Config}
use k8s_netperf.Results.{Data}
use k8s_netperf.Workload.{PerfScenarios, Stop}

-- The arguments of a call of `executeWorkload`.
pub record Call : Type 0 where
  pub config : Config
  pub host_net : Bool
  pub driver : String
  pub virt : Bool

-- What the loops set in a configuration.
unfoldable pub configured : Bool → Config → Config
configured across nc = record nc {
  metric = if contains nc.profile "STREAM" then "Mb/s" else "OP/s";
  across_az = across;
}

call_if : Bool → Call → List Call
call_if b c = if b then c ∷ [] else []

-- The inner loop, over the drivers, for pods and for VMs.
unfoldable pub pod_calls_of : Bool → Bool → Config → List String → List Call
unfolding call_if
pod_calls_of host_network host_net_only nc [] = []
pod_calls_of host_network host_net_only nc (d ∷ ds) =
    let host : Call = record { config = nc; host_net = true; driver = d; virt = false } in
    let net : Call = record { config = nc; host_net = false; driver = d; virt = false } in
    call_if (host_network && not nc.service) host
    ++ (call_if (not host_net_only) net ++ pod_calls_of host_network host_net_only nc ds)

unfoldable pub vm_calls_of : Bool → Config → List String → List Call
unfolding call_if
vm_calls_of host_net_only nc [] = []
vm_calls_of host_net_only nc (d ∷ ds) =
    let net : Call = record { config = nc; host_net = false; driver = d; virt = true } in
    call_if (not host_net_only) net ++ vm_calls_of host_net_only nc ds

module _ (s : PerfScenarios) (host_net_only across : Bool) where
  unfoldable pub pod_calls : List Config → List Call
  unfolding pod_calls_of configured
  pod_calls [] = []
  pod_calls (nc ∷ ncs) =
      pod_calls_of s.host_network host_net_only (configured across nc) s.requested_drivers
      ++ pod_calls ncs

  unfoldable pub vm_calls : List Config → List Call
  unfolding vm_calls_of configured
  vm_calls [] = []
  vm_calls (nc ∷ ncs) =
      vm_calls_of host_net_only (configured across nc) s.requested_drivers ++ vm_calls ncs

  -- Every call, in the order in which `Run` makes them.
  unfoldable pub all_calls : List Call
  unfolding pod_calls vm_calls
  all_calls =
      (if s.pod then pod_calls s.configs else []) ++ (if s.vm then vm_calls s.configs else [])

-- `sr.Results = append(sr.Results, pr)`, where the call reports one.
unfoldable pub append_result : {R : Type 0} → Bool → Data R → List (Data R) → List (Data R)
append_result done npr results = if done then results ++ (npr ∷ []) else results

-- The calls one after the other. `none` where one does not end.
unfoldable pub run_calls :
    {R : Type 0}
    → (Call → ℕ → Option (Result Stop (Data R × Bool × ℕ)))
    → List Call
    → ℕ
    → List (Data R)
    → Option (Result Stop (List (Data R) × ℕ))
unfolding append_result
run_calls execute [] k results = some (ok (results, k))
run_calls execute (c ∷ cs) k results = elim (execute c k) [
  | none ↦ none
  | some (err e) ↦ some (err e)
  | some (ok (npr, done, k')) ↦ run_calls execute cs k' (append_result done npr results)
]
