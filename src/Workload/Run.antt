-- ===== src/Workload/Run.antt =====
-- `Run` of cmd/k8s-netperf/k8s-netperf.go, from the loops over the tests to their results.
use k8s_netperf.Prelude.{
  ℕ, String, Bool, false, ◌&&◌, Option, some, List, [], All, length, Result, ok, ◌≡◌, ap, sym, ◌∙◌,
}
use k8s_netperf.Prelude.Int.{rounds}
use k8s_netperf.Float.{Float64}
use k8s_netperf.Results.{Data}
use k8s_netperf.Flags.{Flags}
use k8s_netperf.Config.{Config}
use k8s_netperf.Workload.{PerfScenarios, Stop}
use k8s_netperf.Workload.Server.{Decoders}
use k8s_netperf.Workload.Execute.{World, execute_workload}
use k8s_netperf.Workload.Execute.Outcome.{IsComplete, execute_workload-IsComplete}
use k8s_netperf.Workload.Plan.{Call, all_calls, run_calls}
use k8s_netperf.Workload.Plan.Allowed.{run_calls-All}

-- The result has as many values as its configuration has samples, and is not both of one node and
-- across zones.
pub record IsMeasured {R : Type 0} (npr : Data R) : Type 0 where
  pub throughput : length npr.throughput_summary ≡ rounds npr.config.samples
  pub latency_avg : length npr.latency_avg_summary ≡ rounds npr.config.samples
  pub latency50 : length npr.latency50_summary ≡ rounds npr.config.samples
  pub latency99 : length npr.latency_summary ≡ rounds npr.config.samples
  pub loss : length npr.loss_summary ≡ rounds npr.config.samples
  pub retransmits : length npr.retransmit_summary ≡ rounds npr.config.samples
  pub zones : (npr.same_node && npr.across_az) ≡ false

IsComplete-IsMeasured :
    {R : Type 0} (nc : Config) (s : PerfScenarios) (host_net : Bool) (driver : String)
    (npr : Data R)
    → IsComplete nc s host_net driver npr
    → IsMeasured npr
IsComplete-IsMeasured nc s host_net driver npr h =
    let same = ap (λ (c : Config). rounds c.samples) (sym h.tested) in
    record {
      throughput = h.throughput ∙ same;
      latency_avg = h.latency_avg ∙ same;
      latency50 = h.latency50 ∙ same;
      latency99 = h.latency99 ∙ same;
      loss = h.loss ∙ same;
      retransmits = h.retransmits ∙ same;
      zones = h.zones;
    }

module _ (F : Float64) (D : Decoders) (f : Flags) (server_ip : String) where
  open F use {Real}

  -- The tests of a scenario; the world may differ from call to call.
  unfoldable pub run_tests :
      (Call → World Real) → ℕ → PerfScenarios → Bool → Option (Result Stop (List (Data Real) × ℕ))
  run_tests w fuel s across =
      run_calls
        (λ c k. execute_workload F D f server_ip (w c) fuel c.config s c.host_net c.driver c.virt k)
        (all_calls s f.host_net_only across) 0 []

  -- When the tests of a scenario have run, each result has, in all six summaries, as many values
  -- as its own configuration has samples, and none is both of one node and across zones.
  pub run_tests-IsMeasured :
      (w : Call → World Real) (fuel : ℕ) (s : PerfScenarios) (across : Bool)
      (results : List (Data Real)) (k : ℕ)
      → run_tests w fuel s across ≡ some (ok (results, k))
      → All IsMeasured results
  unfolding run_tests
  run_tests-IsMeasured w fuel s across results k h =
      run_calls-All IsMeasured
        (λ c j. execute_workload F D f server_ip (w c) fuel c.config s c.host_net c.driver c.virt j)
        (λ c j npr j' e. IsComplete-IsMeasured c.config s c.host_net c.driver npr (
          execute_workload-IsComplete F D f server_ip (w c) fuel c.config s c.host_net c.driver
            c.virt j npr j' e))
        (all_calls s f.host_net_only across) 0 [] results k tt h
