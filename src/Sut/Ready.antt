-- ===== src/Sut/Ready.antt =====
-- The pods that `BuildSUT` (pkg/k8s/kubernetes.go) leaves for the tests.
pub mod Chains
pub mod Steps
pub mod Parts
pub mod Kept
pub mod Served
pub mod Machines
use k8s_netperf.Prelude.{
  ℕ, String, Bool, true, false, not, ◌&&◌, ◌||◌, if◌then◌else◌, Option, none, some, List, [], ◌∷◌,
  length, ltb, Result, ok, err, ◌>>=◌, >>=-eq-ok, ◌≡◌, ◌≢◌, refl, ap, subst, ◌∙◌, arith, Bool-cases,
  Option-cases, inl, inr,
}
use k8s_netperf.Cluster.Zones.{get_zone}
use k8s_netperf.Workload.{PerfScenarios}
use k8s_netperf.Sut.{Options, Built, Error, Api}
use k8s_netperf.Sut.Commands.{server_commands}
use k8s_netperf.Sut.Params.{
  Placement, local_client, client_across, client_host, server, server_host,
}
use k8s_netperf.Sut.Build.{
  Step, step_if, ◌and_then◌, deploying, client_info, server_info, build_local, build_services,
  build_clients, build_host_server, build_server, build_servers, build_placed, build_sut, placed,
  zones_of, store_client, store_across, store_client_host, store_server, store_server_host,
  launch_client_vm, launch_server_vm,
}
use Chains.{Runs, Leads, Leads-and_then, Leads-step_if}
use Parts.{
  made, Leads-when, Leads-kept, build_local-IsMade, with_clients, build_clients-IsMade,
  with_servers, build_host_server-IsMade, build_server-IsMade, build_servers-IsMade,
}
use Steps.{
  Made, IsMade, client_info-IsMade, server_info-IsMade, build_services-IsMade,
  launch_client_vm-IsMade, launch_server_vm-IsMade, client-IsMade, across-IsMade,
  client_host-IsMade, server-IsMade, server_host-IsMade,
}

module _ (api : Api) (o : Options) (runs : Runs api) (s : PerfScenarios) where
  -- Everything, by whether there are several workers.
  abbrev pub all_made : Bool → Made
  all_made many =
      with_servers api o runs s
        (made (s.node_local && s.pod) (many && (not o.host_network_only && s.pod))
          (many && (s.host_network && s.pod)) false false false
          (many && (not o.host_network_only && s.vm)))
        many

  build_placed-IsMade :
      (p : Placement)
      → Leads
          (IsMade api (made false false false false false false false) s)
          (build_placed api o p)
          (IsMade api (all_made (ltb 1 p.workers)) s)
  unfolding build_placed
  build_placed-IsMade p b b' i e =
      let many = ltb 1 p.workers in
      let local =
        λ (x : Bool). IsMade api (made (x && s.pod) false false false false false false) s in
      let c = b.scenario.node_local && s.pod in
      let across = λ (x : Bool).
        IsMade api
          (made c (x && (not o.host_network_only && s.pod)) (x && (s.host_network && s.pod)) false
            false false (x && (not o.host_network_only && s.vm)))
          s in
      let (t, e1, e2) = >>=-eq-ok _ _ e in
      let first =
        Leads-and_then (local false) (across false) (across many) _ _
          (Leads-and_then (local false) (local b.scenario.node_local) (across false) _ _
            (Leads-when local b.scenario.node_local _ (build_local-IsMade api o runs s))
            (build_services-IsMade api o runs (made c false false false false false false) s))
          (Leads-when across many _ (build_clients-IsMade api o runs s c p)) b t i e1 in
      let found =
        server_commands b.scenario.requested_drivers b.scenario.configs o.ib_write_bw_params in
      elim (Option-cases found) [
        | inl none_found ↦ absurd (ground (arith, none_found, e2))
        | inr (commands, e3) ↦
            let last =
              build_servers-IsMade api o runs s c (many && (not o.host_network_only && s.pod))
                (many && (s.host_network && s.pod)) (many && (not o.host_network_only && s.vm)) p
                commands t b' first (rw e3 at e2) in
            subst
              (λ (x : Bool).
                IsMade api
                  (with_servers api o runs s
                    (made (x && s.pod) (many && (not o.host_network_only && s.pod))
                      (many && (s.host_network && s.pod)) false false false
                      (many && (not o.host_network_only && s.vm)))
                    many)
                  s b')
              i.3 last
      ]

  -- Where a client may be on another node, there are several workers.
  pub build_sut-IsMade :
      (b b' : Built)
      → IsMade api (made false false false false false false false) s b
      → s.external_server ≡ false
      → build_sut api o b ≡ ok b'
      → (many : Bool) × (IsMade api (all_made many) s b') × (s.node_local ≡ false → many ≡ true)
  unfolding build_sut placed
  build_sut-IsMade b b' i external e =
      let here : b.scenario.external_server ≡ false =
        ap (λ (t : PerfScenarios). t.external_server) i.11 ∙ external in
      elim (Option-cases api.worker_count) [
        | inl none_found ↦ absurd (ground (arith, none_found, here, e))
        | inr (workers, e1) ↦
            let p = placed api o (zones_of api o (get_zone api.zone_labels)) workers b.scenario in
            let e2 : build_placed api o p b ≡ ok b' = ground (arith, e1, here, e) in
            (
              ltb 1 workers,
              build_placed-IsMade p b b' i e2,
              λ away. ground (arith, e1, here, e, away, i.3),
            )
      ]

-- Before the first step nothing has to be filled.
pub start-IsMade :
    (api : Api) (b : Built)
    → IsMade api (made false false false false false false false) b.scenario b
start-IsMade api b = (
  refl,
  refl,
  refl,
  refl,
  λ x. cc,
  λ x. cc,
  λ x. cc,
  λ x. cc,
  λ x. cc,
  λ x _. cc,
  λ x _. cc,
  refl,
)
