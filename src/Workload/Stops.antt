-- ===== src/Workload/Stops.antt =====
-- How the tests of `Run` (cmd/k8s-netperf/k8s-netperf.go) end early.
use k8s_netperf.Prelude.{
  ℕ, zero, suc, String, Bool, Option, some, List, [], ◌∷◌, All, Result, err, ◌≡◌, ◌≢◌, ◌⊎◌, refl,
  sym, ap, ◌∙◌, arith, Bool-cases, Option-cases, Result-cases, inl, inr,
}
use k8s_netperf.Prelude.Int.{rounds}
use k8s_netperf.Float.{Float64}
use k8s_netperf.Config.{Config}
use k8s_netperf.Cluster.{Pod}
use k8s_netperf.Drivers.{Sample, new_driver, is_test_supported}
use k8s_netperf.Drivers.Parse.{parse_with}
use k8s_netperf.Results.{Data}
use k8s_netperf.Flags.{Flags}
use k8s_netperf.Workload.{PerfScenarios, Stop, unknown_driver, run_failed, unsuccessful, panic}
use k8s_netperf.Workload.Server.{Decoders, choose_server, choose_client}
use k8s_netperf.Workload.Samples.{
  Tried, parsed, gave_up, still_running, Summaries, no_summaries, retry_from, take_sample,
  take_samples, append_sample, sample_client,
}
use k8s_netperf.Workload.Execute.{World, execute_workload, reported}
use k8s_netperf.Workload.Plan.{Call, run_calls, append_result}

-- The ways in which the retries end.
Tried-cases :
    {R : Type 0} (t : Tried R)
    → ((nr : Sample R) × (k : ℕ) × (t ≡ parsed nr k))
      ⊎ (((k : ℕ) × (t ≡ gave_up k)) ⊎ (t ≡ still_running))
Tried-cases (parsed nr k) = inl (nr, k, refl)
Tried-cases (gave_up k) = inr (inl (k, refl))
Tried-cases still_running = inr (inr refl)

module _ {R : Type 0} (run : ℕ → Option String) (parse : String → Option (Sample R)) where
  take_sample_stops :
      (fuel k : ℕ) (e : Stop) → take_sample run parse fuel k ≡ some (err e) → e ≢ panic
  unfolding take_sample
  take_sample_stops fuel k e h = elim (Option-cases (run k)) [
    | inl e1 ↦ let same : run_failed ≡ e = ground (arith, e1, h) in rw (sym same) (λ bad. cc)
    | inr (out, e1) ↦ elim (Option-cases (parse out)) [
      | inr (nr, e2) ↦ absurd (ground (arith, e1, e2, h))
      | inl e2 ↦ elim (Tried-cases (retry_from run parse fuel 3 (suc k))) [
        | inl (nr, j, e3) ↦ absurd (ground (arith, e1, e2, e3, h))
        | inr (inr e3) ↦ absurd (ground (arith, e1, e2, e3, h))
        | inr (inl (j, e3)) ↦
            let same : unsuccessful ≡ e = ground (arith, e1, e2, e3, h) in rw (sym same) (λ bad. cc)
      ]
    ]
  ]

  take_samples_stops :
      (fuel left k : ℕ) (t : Summaries R) (e : Stop)
      → take_samples run parse fuel left k t ≡ some (err e)
      → e ≢ panic
  unfolding take_samples
  take_samples_stops fuel zero k t e h = absurd (ground (arith, h))
  take_samples_stops fuel (suc left) k t e h = elim (Option-cases (take_sample run parse fuel k)) [
    | inl e1 ↦ absurd (ground (arith, e1, h))
    | inr (r, e1) ↦ elim (Result-cases r) [
      | inr (x, e2) ↦ take_sample_stops fuel k e (ground (arith, e1, e2, h))
      | inl ((nr, j), e2) ↦
          take_samples_stops fuel left j (append_sample nr t) e (ground (arith, e1, e2, h))
    ]
  ]

  sample_client_stops :
      (fuel : ℕ) (client : List Pod) (left k : ℕ) (e : Stop)
      → client ≢ []
      → sample_client run parse fuel client left k ≡ some (err e)
      → e ≢ panic
  unfolding sample_client
  sample_client_stops fuel [] left k e filled h = absurd (filled refl)
  sample_client_stops fuel (pod ∷ pods) left k e filled h =
      take_samples_stops fuel left k no_summaries e h

module _ (F : Float64) (D : Decoders) (f : Flags) (server_ip : String) where
  open F use {Real}

  -- A test that finds its server without a panic and has a client.
  pub execute_workload_stops :
      (w : World Real) (fuel : ℕ) (nc : Config) (s : PerfScenarios) (host_net : Bool)
      (driver : String) (virt : Bool) (k : ℕ) (e : Stop)
      → choose_server D f server_ip nc s host_net driver virt ≢ err panic
      → choose_client s host_net virt ≢ []
      → execute_workload F D f server_ip w fuel nc s host_net driver virt k ≡ some (err e)
      → e ≢ panic
  unfolding execute_workload reported
  execute_workload_stops w fuel nc s host_net driver virt k e safe filled h =
      elim (Result-cases (choose_server D f server_ip nc s host_net driver virt)) [
        | inr (x, e1) ↦
            let same : x ≡ e = ground (arith, e1, h) in λ bad. safe (e1 ∙ ap err (same ∙ bad))
        | inl (c, e1) ↦ elim (Option-cases (new_driver driver nc)) [
          | inl e2 ↦
              let same : unknown_driver ≡ e = ground (arith, e1, e2, h) in rw (sym same) (λ bad. cc)
          | inr (d, e2) ↦ elim (Bool-cases (is_test_supported d)) [
            | inr e3 ↦ absurd (ground (arith, e1, e2, e3, h))
            | inl e3 ↦
                let client = choose_client s host_net virt in
                let run = w.run d client c.server_ip virt in
                let parse = parse_with F w.libraries d nc in
                elim (Option-cases (sample_client run parse fuel client (rounds nc.samples) k)) [
                  | inl e4 ↦ absurd (ground (arith, e1, e2, e3, e4, h))
                  | inr (r, e4) ↦ elim (Result-cases r) [
                    | inl ((t, j), e5) ↦ absurd (ground (arith, e1, e2, e3, e4, e5, h))
                    | inr (x, e5) ↦
                        sample_client_stops run parse fuel client (rounds nc.samples) k e filled
                          (ground (arith, e1, e2, e3, e4, e5, h))
                  ]
                ]
          ]
        ]
      ]

module _ {R : Type 0} (execute : Call → ℕ → Option (Result Stop (Data R × Bool × ℕ))) where
  -- A stop of the loop over the tests is that of one of its tests.
  pub run_calls_stops :
      (cs : List Call) (k : ℕ) (results : List (Data R)) (e : Stop)
      → All (λ (c : Call). (j : ℕ) → (x : Stop) → execute c j ≡ some (err x) → x ≢ panic) cs
      → run_calls execute cs k results ≡ some (err e)
      → e ≢ panic
  unfolding run_calls
  run_calls_stops [] k results e all h = absurd (ground (arith, h))
  run_calls_stops (c ∷ cs) k results e all h = elim (Option-cases (execute c k)) [
    | inl e1 ↦ absurd (ground (arith, e1, h))
    | inr (r, e1) ↦ elim (Result-cases r) [
      | inr (x, e2) ↦ all.0 k e (ground (arith, e1, e2, h))
      | inl ((npr, done, j), e2) ↦
          run_calls_stops cs j (append_result done npr results) e all.1 (ground (arith, e1, e2, h))
    ]
  ]
