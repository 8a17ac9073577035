-- ===== src/Vms/Configure/Outcome.antt =====
-- The outcome of `ConfigureVMSriovIP` (pkg/k8s/kubevirt.go).
use k8s_netperf.Prelude.{
  ℕ, ◌≤◌, String, false, Option, some, List, [], ◌∷◌, ok, ◌≡◌, refl, inl, inr, Bool-cases,
  Option-cases, Result-cases, arith,
}
use k8s_netperf.Prelude.Text.{is_empty, trim_space}
use k8s_netperf.Cluster.{Pod}
use k8s_netperf.Cluster.Networks.{NetworkStatus, extract_sriov_ip}
use k8s_netperf.Cluster.Polling.{poll, poll-IsPolled}
use k8s_netperf.Vms.Configure.{
  Replies, Configured, list_interfaces, set_address, configure_interface, configure_vm_sriov_ip,
}

-- The address of the pod was set, by a command that succeeded, on an interface with a name.
pub record IsConfigured (decode : String → Option (List NetworkStatus)) (r : Replies) (pod : Pod)
    (c : Configured) : Type 0 where
  pub ip : String
  pub interface : String
  pub address : extract_sriov_ip decode pod ≡ ok ip
  pub listed : (out : String) × (r.reply list_interfaces ≡ some out) × (interface ≡ trim_space out)
  pub named : is_empty interface ≡ false
  pub commands : c.commands ≡ list_interfaces ∷ set_address interface ip ∷ []
  pub done : (out : String) × (r.reply (set_address interface ip) ≡ some out)
  pub some_probe : 1 ≤ c.probes
  pub probes : c.probes ≤ 30

module _ (decode : String → Option (List NetworkStatus)) (r : Replies) (pod : Pod) where
  configure_interface-eq-ok :
      (ip : String) (probes : ℕ)
      → extract_sriov_ip decode pod ≡ ok ip
      → 1 ≤ probes
      → probes ≤ 30
      → (configure_interface r ip probes).result ≡ ok tt
      → IsConfigured decode r pod (configure_interface r ip probes)
  unfolding configure_interface
  configure_interface-eq-ok ip probes e low high h = elim (Option-cases (r.reply list_interfaces)) [
    | inl e1 ↦ absurd (ground (arith, e1, h))
    | inr (out, e1) ↦ elim (Bool-cases (is_empty (trim_space out))) [
      | inl e2 ↦ absurd (ground (arith, e1, e2, h))
      | inr e2 ↦ elim (Option-cases (r.reply (set_address (trim_space out) ip))) [
        | inl e3 ↦ absurd (ground (arith, e1, e2, e3, h))
        | inr (reply, e3) ↦
            rw (e1, configure_interface)
              (rw (e2, configure_interface)
                (record {
                  ip = ip;
                  interface = trim_space out;
                  address = e;
                  listed = (out, e1, refl);
                  named = e2;
                  commands = refl;
                  done = (reply, e3);
                  some_probe = low;
                  probes = high;
                }))
      ]
    ]
  ]

  -- Where `ConfigureVMSriovIP` returns no error, it has probed the machine one to thirty times, and
  -- then set the address of the pod's annotation on the interface that the machine has listed, whose
  -- name is not empty.
  pub configure_vm_sriov_ip-eq-ok :
      (configure_vm_sriov_ip decode r pod).result ≡ ok tt
      → IsConfigured decode r pod (configure_vm_sriov_ip decode r pod)
  unfolding configure_vm_sriov_ip
  configure_vm_sriov_ip-eq-ok h =
      let p = poll-IsPolled r.probe 30 0 in
      elim (Result-cases (extract_sriov_ip decode pod)) [
        | inr (why, e) ↦ absurd (ground (arith, e, h))
        | inl (ip, e) ↦ elim p.outcome [
          | inl (none_left, _, _) ↦ absurd (ground (arith, e, none_left, h))
          | inr (a, found, _, tries, before) ↦
              let r1 : (configure_interface r ip (poll r.probe 30 0).attempts).result ≡ ok tt =
                ground (arith, e, found, h) in
              rw (e, configure_vm_sriov_ip)
                (rw (found, configure_vm_sriov_ip)
                  (configure_interface-eq-ok ip (poll r.probe 30 0).attempts e
                    (omega (arith, tries)) (omega (arith, tries, before)) r1))
        ]
      ]
