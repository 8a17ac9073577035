-- ===== src/Vms/Configure.antt =====
-- `ConfigureVMSriovIP` of pkg/k8s/kubevirt.go.
pub mod Outcome
use k8s_netperf.Prelude.{
  ℕ, zero, suc, ◌+◌, String, ◌<>◌, Bool, true, false, if◌then◌else◌, Option, none, some, List, [],
  ◌∷◌, Result, ok, err,
}
use k8s_netperf.Prelude.Text.{is_empty, trim_space}
use k8s_netperf.Cluster.{Pod}
use k8s_netperf.Cluster.Networks.{NetworkStatus, extract_sriov_ip}
use k8s_netperf.Cluster.Polling.{Polled, poll}

pub data Error : Type 0 where
  no_address no_access no_interfaces no_interface not_configured : Error

-- The outcome of the commands on the machine: of the n-th probe, and of a later command.
pub record Replies : Type 0 where
  pub probe : ℕ → Option String
  pub reply : String → Option String

-- The commands that were run, after the probes, and what the function returns.
pub record Configured : Type 0 where
  pub probes : ℕ
  pub commands : List String
  pub result : Result Error (Unit {0})

abbrev pub list_interfaces : String
list_interfaces = "ls /sys/class/net | grep -v -e lo -e eth0 | head -1"

unfoldable pub set_address : String → String → String
set_address interface ip =
    "sudo nmcli con add type ethernet ifname " <> interface <> " con-name sriov-netperf ip4 " <> ip
    <> "/24 && sudo nmcli con up sriov-netperf"

-- From the search for the interface on, after so many probes.
configure_interface : Replies → String → ℕ → Configured
unfolding set_address
configure_interface r ip probes = elim (r.reply list_interfaces) [
  | none ↦ record { probes = probes; commands = list_interfaces ∷ []; result = err no_interfaces }
  | some out ↦
      let interface = trim_space out in
      if is_empty interface
      then record { probes = probes; commands = list_interfaces ∷ []; result = err no_interface }
      else record {
        probes = probes;
        commands = list_interfaces ∷ set_address interface ip ∷ [];
        result = elim (r.reply (set_address interface ip)) [
          | none ↦ err not_configured
          | some _ ↦ ok tt
        ];
      }
]

-- The probe is tried thirty times, with pauses.
unfoldable pub configure_vm_sriov_ip :
    (String → Option (List NetworkStatus)) → Replies → Pod → Configured
unfolding configure_interface poll
configure_vm_sriov_ip decode r pod = elim (extract_sriov_ip decode pod) [
  | err _ ↦ record { probes = 0; commands = []; result = err no_address }
  | ok ip ↦
      let p : Polled String = poll r.probe 30 0 in
      elim p.answer [
        | none ↦ record { probes = p.attempts; commands = []; result = err no_access }
        | some _ ↦ configure_interface r ip p.attempts
      ]
]
