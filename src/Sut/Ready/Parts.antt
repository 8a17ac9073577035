-- ===== src/Sut/Ready/Parts.antt =====
-- What the clients and the servers of `BuildSUT` (pkg/k8s/kubernetes.go) fill.
use k8s_netperf.Prelude.{
  String, Bool, true, false, not, ◌&&◌, ◌||◌, List, ltb, Result, ok, err, ◌≡◌, refl, subst,
}
use k8s_netperf.Workload.{PerfScenarios}
use k8s_netperf.Sut.{Options, Built, Error, Api}
use k8s_netperf.Sut.Params.{
  Placement, local_client, client_across, client_host, server, server_host,
}
use k8s_netperf.Sut.Build.{
  Step, step_if, build_local, build_clients, build_host_server, build_server, build_servers,
}
use k8s_netperf.Sut.Ready.Chains.{Runs, Leads, Leads-and_then}
use k8s_netperf.Sut.Ready.Steps.{
  Made, IsMade, client_info-IsMade, server_info-IsMade, launch_client_vm-IsMade,
  launch_server_vm-IsMade, client-IsMade, across-IsMade, client_host-IsMade, server-IsMade,
  server_host-IsMade,
}

-- The client, the one on another node, the one on the host network, the two servers, the machines
-- of server and client.
abbrev pub made : Bool → Bool → Bool → Bool → Bool → Bool → Bool → Made
made client across client_host server server_host vm_server vm_client = record {
  client = client;
  across = across;
  client_host = client_host;
  server = server;
  server_host = server_host;
  vm_server = vm_server;
  vm_client = vm_client;
}

-- A step under a condition that fills one list.
pub Leads-when :
    (P : Bool → Built → Type 0) (flag : Bool) (step : Step)
    → Leads (P false) step (P true)
    → Leads (P false) (step_if flag step) (P flag)
unfolding step_if
Leads-when P true step h b b' p e = h b b' p e
Leads-when P false step h b b' p e =
    subst (λ (r : Result Error Built). elim r [ ok t ↦ P false t | err _ ↦ P false b ]) e p

-- A step under a condition that keeps all of them.
pub Leads-kept :
    (P : Built → Type 0) (flag : Bool) (step : Step)
    → Leads P step P
    → Leads P (step_if flag step) P
Leads-kept P flag step h = Leads-when (λ _. P) flag step h

module _ (api : Api) (o : Options) (runs : Runs api) (s : PerfScenarios) where
  pub build_local-IsMade :
      Leads
        (IsMade api (made false false false false false false false) s)
        (build_local api o)
        (IsMade api (made s.pod false false false false false false) s)
  unfolding build_local
  build_local-IsMade b b' h e =
      let client = λ (x : Bool). IsMade api (made x false false false false false false) s in
      subst (λ (x : Bool). client x b') h.0
        (Leads-and_then (client false) (client b.scenario.pod) (client b.scenario.pod) _ _
          (Leads-when client b.scenario.pod _ (
            client-IsMade api o runs (made false false false false false false false) s
              (local_client o.privileged b.scenario)))
          (client_info-IsMade api o runs (made b.scenario.pod false false false false false false) s
            "role=client-local")
          b b' h e)

  -- What `build_clients` fills besides the local client.
  abbrev pub with_clients : Bool → Made
  with_clients c =
      made c (not o.host_network_only && s.pod) (s.host_network && s.pod) false false false
        (not o.host_network_only && s.vm)

  pub build_clients-IsMade :
      (c : Bool) (p : Placement)
      → Leads
          (IsMade api (made c false false false false false false) s)
          (build_clients api o p)
          (IsMade api (with_clients c) s)
  unfolding build_clients
  build_clients-IsMade c p b b' h e =
      let t = b.scenario in
      let only = o.host_network_only in
      let host = λ (x : Bool). IsMade api (made c false x false false false false) s in
      let f1 = t.host_network && t.pod in
      let f2 = not only && t.pod in
      let across = λ (x : Bool). IsMade api (made c x f1 false false false false) s in
      let machine = λ (x : Bool). IsMade api (made c f2 f1 false false false x) s in
      let dp = client_across o.privileged t p in
      let all =
        Leads-and_then (host false) (across f2) (machine (not only && t.vm)) _ _
          (Leads-and_then (host false) (host f1) (across f2) _ _
            (Leads-and_then (host false) (host f1) (host f1) _ _
              (Leads-when host f1 _ (
                client_host-IsMade api o runs (made c false false false false false false) s
                  (client_host o.privileged t p)))
              (Leads-kept (host f1) (only && t.host_network) _ (
                client_info-IsMade api o runs (made c false f1 false false false false) s
                  "role=host-client")))
            (Leads-when across f2 _
              (across-IsMade api o runs (made c false f1 false false false false) s dp)))
          (Leads-when machine (not only && t.vm) _
            (launch_client_vm-IsMade api o runs (made c f2 f1 false false false false) s dp))
          b b' h e in
      let same : made c (not only && t.pod) (t.host_network && t.pod) false false false
            (not only && t.vm)
          ≡ with_clients c =
        rw (h.0, h.1, h.2) refl in
      subst (λ (m : Made). IsMade api m s b') same all

  -- What the servers add.
  abbrev pub with_servers : Made → Bool → Made
  with_servers m many =
      made m.client m.across m.client_host ((not o.host_network_only || s.node_local) && s.pod)
        (many && (s.pod && s.host_network)) ((not o.host_network_only || s.node_local) && s.vm)
        m.vm_client

  pub build_host_server-IsMade :
      (c a h v : Bool) (p : Placement) (commands : List (List String))
      → Leads
          (IsMade api (made c a h false false false v) s)
          (build_host_server api o p commands)
          (IsMade api (made c a h false (s.pod && s.host_network) false v) s)
  unfolding build_host_server
  build_host_server-IsMade c a h v p commands b b' i e =
      let t = b.scenario in
      let host = λ (x : Bool). IsMade api (made c a h false x false v) s in
      let f = t.pod && t.host_network in
      let all =
        Leads-and_then (host false) (host f) (host f) _ _
          (Leads-when host f _ (
            server_host-IsMade api o runs (made c a h false false false v) s
              (server_host o.privileged t p commands)))
          (Leads-kept (host f) (o.host_network_only && t.host_network) _
            (server_info-IsMade api o runs (made c a h false f false v) s "role=host-server"))
          b b' i e in
      let same : made c a h false (t.pod && t.host_network) false v
          ≡ made c a h false (s.pod && s.host_network) false v =
        rw (i.0, i.2) refl in
      subst (λ (m : Made). IsMade api m s b') same all

  pub build_server-IsMade :
      (c a h x v : Bool) (p : Placement) (commands : List (List String))
      → Leads
          (IsMade api (made c a h false x false v) s)
          (build_server api o p commands)
          (IsMade api (made c a h s.pod x s.vm v) s)
  unfolding build_server
  build_server-IsMade c a h x v p commands b b' i e =
      let t = b.scenario in
      let pods = λ (y : Bool). IsMade api (made c a h y x false v) s in
      let machine = λ (y : Bool). IsMade api (made c a h t.pod x y v) s in
      let dp = server o.privileged t p commands in
      let m = made c a h t.pod x false v in
      let all =
        Leads-and_then (pods false) (pods t.pod) (machine t.vm) _ _
          (Leads-and_then (pods false) (pods t.pod) (pods t.pod) _ _
            (Leads-and_then (pods false) (pods t.pod) (pods t.pod) _ _
              (Leads-when pods t.pod _ (server-IsMade api o runs (made c a h false x false v) s dp))
              (Leads-kept (pods t.pod) t.pod _ (server_info-IsMade api o runs m s "role=server")))
            (Leads-kept (pods t.pod) (t.pod && not t.node_local) _
              (client_info-IsMade api o runs m s "role=client-across")))
          (Leads-when machine t.vm _ (launch_server_vm-IsMade api o runs m s dp)) b b' i e in
      let same : made c a h t.pod x t.vm v ≡ made c a h s.pod x s.vm v = rw (i.0, i.1) refl in
      subst (λ (n : Made). IsMade api n s b') same all

  pub build_servers-IsMade :
      (c a h v : Bool) (p : Placement) (commands : List (List String))
      → Leads
          (IsMade api (made c a h false false false v) s)
          (build_servers api o p commands)
          (IsMade api (with_servers (made c a h false false false v) (ltb 1 p.workers)) s)
  unfolding build_servers
  build_servers-IsMade c a h v p commands b b' i e =
      let many = ltb 1 p.workers in
      let host =
        λ (x : Bool). IsMade api (made c a h false (x && (s.pod && s.host_network)) false v) s in
      let f = not o.host_network_only || b.scenario.node_local in
      let regular = λ (x : Bool).
        IsMade api (made c a h (x && s.pod) (many && (s.pod && s.host_network)) (x && s.vm) v) s in
      let all =
        Leads-and_then (host false) (host many) (regular f) _ _
          (Leads-when host many _ (build_host_server-IsMade c a h v p commands))
          (Leads-when regular f _
            (build_server-IsMade c a h (many && (s.pod && s.host_network)) v p commands))
          b b' i e in
      subst (λ (x : Bool). regular (not o.host_network_only || x) b') i.3 all
