-- ===== src/Tests/Machines.antt =====
-- Virtual machines.
use k8s_netperf.Prelude.Text.{contains, trim_space}
use k8s_netperf.Prelude.{
  ℕ, ◌<◌, String, false, Option, none, some, List, [], ◌∷◌, ◌≡◌, ◌↔◌, ◌⊎◌, refl, ltb, if◌then◌else◌,
  ◌==◌, ok, err,
}
use k8s_netperf.Cluster.{Pod}
use k8s_netperf.Cluster.Networks.{NetworkStatus, extract_sriov_ip, extract_ip}
use k8s_netperf.Cluster.Polling.{FailsFrom}
use k8s_netperf.Vms.Connect.{Event, vmi, no_ssh, wait_for_vmi, Ssh, ssh_connect}
use k8s_netperf.Vms.Connect.Waits.{IsFine, wait_for_vmi-eq-ok_iff, ssh_connect_attempts}
use k8s_netperf.Vms.Configure.{Replies, list_interfaces, configure_vm_sriov_ip}
use k8s_netperf.Vms.Configure.Outcome.{IsConfigured, configure_vm_sriov_ip-eq-ok}

-- The machine is never seen running.
abbrev phases : List Event
phases = vmi "vm-server" "Pending" ∷ vmi "client-across" "Running" ∷ vmi "vm-server" "Failed" ∷ []

wait_for_vmi-eq-ok_iff_example :
    (wait_for_vmi (some phases) "vm-server" ≡ ok tt) ↔ IsFine "vm-server" phases
wait_for_vmi-eq-ok_iff_example = wait_for_vmi-eq-ok_iff "vm-server" phases

-- The wait is over all the same.
waited : wait_for_vmi (some phases) "vm-server" ≡ ok tt
unfolding wait_for_vmi
waited = refl

-- The third attempt connects.
abbrev ssh : Ssh String ℕ
ssh = record {
  home = some "/home/user";
  read_file = λ _. some "key";
  raw_key = λ k. some k;
  new_conn = λ _ k. if ltb k 2 then none else some k;
}

abbrev attempt : ℕ → Option ℕ
attempt = ssh.new_conn (record { user = "fedora"; addr = "host"; port = 32022; auth = "key" })

ssh_connect_attempts_example :
    ((k : ℕ) × (c : ℕ) × (k < 30)
      × FailsFrom attempt 0 k
      × (attempt k ≡ some c)
      × (ssh_connect ssh "host" ≡ ok c))
    ⊎ (FailsFrom attempt 0 30 × (ssh_connect ssh "host" ≡ err no_ssh))
ssh_connect_attempts_example =
    ssh_connect_attempts ssh "host" "/home/user" "key" "key" refl refl refl

abbrev statuses : List NetworkStatus
statuses =
    record {
      name = "netperf/sriov-netperf";
      interface = "net1";
      ips = "192.168.100.7" ∷ [];
      default = false;
    }
    ∷ []

abbrev launcher : Pod
launcher = record { name = "virt-launcher"; annotation = λ _. "networks"; pod_ip = "10.1.0.7" }

-- The machine answers from the fourth probe on.
abbrev replies : Replies
replies = record {
  probe = λ k. if ltb k 3 then none else some "ready";
  reply = λ command. if command == list_interfaces then some "enp6s0\n" else some "";
}

configure_vm_sriov_ip-eq-ok_example :
    IsConfigured
      (λ _. some statuses)
      replies
      launcher
      (configure_vm_sriov_ip (λ _. some statuses) replies launcher)
unfolding configure_vm_sriov_ip extract_sriov_ip extract_ip contains trim_space
configure_vm_sriov_ip-eq-ok_example =
    configure_vm_sriov_ip-eq-ok (λ _. some statuses) replies launcher refl
