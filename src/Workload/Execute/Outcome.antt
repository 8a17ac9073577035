-- ===== src/Workload/Execute/Outcome.antt =====
-- The result of a test of `executeWorkload` (cmd/k8s-netperf/k8s-netperf.go).
use k8s_netperf.Prelude.{
  ℕ, ◌≤◌, String, Bool, true, false, ◌&&◌, Option, none, some, Option-cases, Bool-cases, List,
  length, Result, ok, err, Result-cases, ◌≡◌, refl, subst, arith, inl, inr,
}
use k8s_netperf.Prelude.Int.{rounds}
use k8s_netperf.Float.{Float64}
use k8s_netperf.Config.{Config}
use k8s_netperf.Drivers.{Driver, new_driver, is_test_supported}
use k8s_netperf.Cluster.{Pod}
use k8s_netperf.Drivers.Parse.{parse_with}
use k8s_netperf.Results.{Data}
use k8s_netperf.Flags.{Flags}
use k8s_netperf.Workload.{PerfScenarios, Stop, unknown_driver}
use k8s_netperf.Workload.Server.{Decoders, Chosen, choose_server, choose_client}
use k8s_netperf.Workload.Samples.{Summaries}
use k8s_netperf.Workload.Samples.Lengths.{IsSized, sample_client-IsSized, sample_client_ends}
use k8s_netperf.Workload.Execute.{World, prepared, completed, reported, execute_workload}

pub record IsComplete {R : Type 0} (nc : Config) (s : PerfScenarios) (host_net : Bool)
    (driver : String) (npr : Data R) : Type 0 where
  pub throughput : length npr.throughput_summary ≡ rounds nc.samples
  pub latency_avg : length npr.latency_avg_summary ≡ rounds nc.samples
  pub latency50 : length npr.latency50_summary ≡ rounds nc.samples
  pub latency99 : length npr.latency_summary ≡ rounds nc.samples
  pub loss : length npr.loss_summary ≡ rounds nc.samples
  pub retransmits : length npr.retransmit_summary ≡ rounds nc.samples
  pub tested : npr.config ≡ nc
  pub on_host : npr.host_network ≡ host_net
  pub by : npr.driver ≡ driver
  pub zones : (npr.same_node && npr.across_az) ≡ false

module _ (F : Float64) (D : Decoders) (f : Flags) (server_ip : String) where
  open F use {Real}

  completed-IsComplete :
      (started ended : ℕ) (nc : Config) (s : PerfScenarios) (host_net : Bool) (driver : String)
      (virt : Bool) (c : Chosen) (t : Summaries Real)
      → IsSized (rounds nc.samples) t
      → IsComplete nc s host_net driver (
          completed F D f server_ip ended s t
            (prepared F D f server_ip started nc s host_net driver virt c))
  unfolding completed prepared
  completed-IsComplete started ended nc s host_net driver virt c t h = record {
    throughput = h.throughput;
    latency_avg = h.latency_avg;
    latency50 = h.latency50;
    latency99 = h.latency99;
    loss = h.loss;
    retransmits = h.retransmits;
    tested = refl;
    on_host = refl;
    by = refl;
    zones = ground arith;
  }

  reported-IsComplete :
      (started ended : ℕ) (nc : Config) (s : PerfScenarios) (host_net : Bool) (driver : String)
      (virt : Bool) (c : Chosen) (r : Option (Result Stop (Summaries Real × ℕ))) (npr : Data Real)
      (k' : ℕ)
      → ((t : Summaries Real) (j : ℕ) → r ≡ some (ok (t, j)) → IsSized (rounds nc.samples) t)
      → reported F D f server_ip ended s
          (prepared F D f server_ip started nc s host_net driver virt c)
          r
        ≡ some (ok (npr, true, k'))
      → IsComplete nc s host_net driver npr
  unfolding reported
  reported-IsComplete started ended nc s host_net driver virt c none npr k' sized h = cc
  reported-IsComplete started ended nc s host_net driver virt c (some (err e)) npr k' sized h = cc
  reported-IsComplete started ended nc s host_net driver virt c (some (ok (t, j))) npr k' sized h =
      subst (IsComplete nc s host_net driver) (cc h)
        (completed-IsComplete started ended nc s host_net driver virt c t (sized t j refl))

  -- A test that is reported as done has one value for each sample in all six summaries, carries
  -- the configuration, network and driver that it was run with, and is never both on one node and
  -- across zones.
  pub execute_workload-IsComplete :
      (w : World Real) (fuel : ℕ) (nc : Config) (s : PerfScenarios) (host_net : Bool)
      (driver : String) (virt : Bool) (k : ℕ) (npr : Data Real) (k' : ℕ)
      → execute_workload F D f server_ip w fuel nc s host_net driver virt k
        ≡ some (ok (npr, true, k'))
      → IsComplete nc s host_net driver npr
  unfolding execute_workload
  execute_workload-IsComplete w fuel nc s host_net driver virt k npr k' h =
      elim (Result-cases (choose_server D f server_ip nc s host_net driver virt)) [
        | inr (x, e) ↦ let never : ⊥ = ground (arith, e, h) in absurd never
        | inl (c, e) ↦ elim (Option-cases (new_driver driver nc)) [
          | inl n ↦ let never : ⊥ = ground (arith, e, n, h) in absurd never
          | inr (d, n) ↦ elim (Bool-cases (is_test_supported d)) [
            | inr u ↦ let never : ⊥ = ground (arith, e, n, u, h) in absurd never
            | inl u ↦
                reported-IsComplete w.started w.ended nc s host_net driver virt c _ npr k'
                  (λ t j q.
                    sample_client-IsSized (w.run d (choose_client s host_net virt) c.server_ip virt)
                      (parse_with F w.libraries d nc) fuel (choose_client s host_net virt)
                      (rounds nc.samples) k t j q)
                  (ground (arith, e, n, u, h))
          ]
        ]
      ]

  reported_ends :
      (ended : ℕ) (s : PerfScenarios) (npr : Data Real) (q : Result Stop (Summaries Real × ℕ))
      → (r : Result Stop (Data Real × Bool × ℕ)) × (reported F D f server_ip ended s npr (some q)
          ≡ some r)
  unfolding reported
  reported_ends ended s npr (err e) = (_, refl)
  reported_ends ended s npr (ok (t, k)) = (_, refl)

  -- Where no `Run` of a driver fails, three rounds of fuel for the retries are enough for a test to
  -- come to an end: a result, a test that is skipped, or one that ends the program.
  pub execute_workload_ends :
      (w : World Real) (fuel : ℕ) (nc : Config) (s : PerfScenarios) (host_net : Bool)
      (driver : String) (virt : Bool) (k : ℕ)
      → ((d : Driver) (client : List Pod) (ip : String) (v : Bool) (j : ℕ)
          → (out : String) × (w.run d client ip v j ≡ some out))
      → 3 ≤ fuel
      → (r : Result Stop (Data Real × Bool × ℕ)) × (execute_workload F D f server_ip w fuel nc s
            host_net driver virt k
          ≡ some r)
  unfolding execute_workload
  execute_workload_ends w fuel nc s host_net driver virt k runs enough =
      elim (Result-cases (choose_server D f server_ip nc s host_net driver virt)) [
        | inr (x, e) ↦ (err x, ground (arith, e))
        | inl (c, e) ↦ elim (Option-cases (new_driver driver nc)) [
          | inl n ↦ (err unknown_driver, ground (arith, e, n))
          | inr (d, n) ↦
              let npr = prepared F D f server_ip w.started nc s host_net driver virt c in
              let client = choose_client s host_net virt in
              let (q, g) =
                sample_client_ends (w.run d client c.server_ip virt) (parse_with F w.libraries d nc)
                  fuel client (rounds nc.samples) k (runs d client c.server_ip virt) enough in
              elim (Bool-cases (is_test_supported d)) [
                | inr u ↦ (ok (npr, false, k), ground (arith, e, n, u))
                | inl u ↦
                    let (r, o) = reported_ends w.ended s npr q in (r, ground (arith, e, n, u, g, o))
              ]
        ]
      ]
