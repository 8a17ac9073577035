-- ===== src/Vms/Connect.antt =====
-- How pkg/k8s/kubevirt.go waits for a machine and connects to it.
pub mod Waits
use k8s_netperf.Prelude.{
  ℕ, String, ◌<>◌, Bool, true, false, not, ◌&&◌, if◌then◌else◌, ◌==◌, Option, none, some, List, [],
  ◌∷◌, Result, ok, err,
}
use k8s_netperf.Prelude.Text.{is_empty}
use k8s_netperf.Cluster.{namespace}
use k8s_netperf.Cluster.Polling.{Polled, poll}

-- An event of a watch over the machines: one by its name and phase, or another object.
pub data Event : Type 0 where
  vmi : String → String → Event
  other : Event

pub data Error : Type 0 where
  no_watch bad_event no_home no_key bad_key no_ssh no_virtctl command_failed : Error

-- A watch that ends without the machine running is no error.
unfoldable pub running_among : String → List Event → Result Error (Unit {0})
running_among name [] = ok tt
running_among name (other ∷ events) = err bad_event
running_among name (vmi n phase ∷ events) =
    let rest = running_among name events in
    if (n == name) && (phase == "Running") then ok tt else rest

unfoldable pub wait_for_vmi : Option (List Event) → String → Result Error (Unit {0})
unfolding running_among
wait_for_vmi none name = err no_watch
wait_for_vmi (some events) name = running_among name events

-- Thirty attempts, with a pause of ten seconds after each that fails.
unfoldable pub connect : {C : Type 0} → (ℕ → Option C) → Polled C
unfolding poll
connect try = poll try 30 0

pub record SshConfig (A : Type 0) : Type 0 where
  pub user : String
  pub addr : String
  pub port : ℕ
  pub auth : A

-- The user's files, the reading of a key, and the attempts of the library to connect.
pub record Ssh (A C : Type 0) : Type 0 where
  pub home : Option String
  pub read_file : String → Option String
  pub raw_key : String → Option A
  pub new_conn : SshConfig A → ℕ → Option C

connected : {C : Type 0} → Option C → Result Error C
connected none = err no_ssh
connected (some c) = ok c

unfoldable pub ssh_connect : {A C : Type 0} → Ssh A C → String → Result Error C
unfolding connected
ssh_connect ssh vm_host = elim ssh.home [
  | none ↦ err no_home
  | some dir ↦ elim (ssh.read_file (dir <> "/.ssh/id_rsa")) [
    | none ↦ err no_key
    | some key ↦ elim (ssh.raw_key key) [
      | none ↦ err bad_key
      | some auth ↦
          connected
            (connect (
              ssh.new_conn
                (record { user = "fedora"; addr = vm_host; port = 32022; auth = auth }))).answer
    ]
  ]
]

-- What `ConnectToVM` returns: a `VirtctlClient` or a wrapped connection.
pub data Executor (C : Type 0) : Type 0 where
  virtctl : String → String → Executor C
  wrapped : C → Executor C

wrap : {C : Type 0} → Result Error C → Result Error (Executor C)
wrap (err e) = err e
wrap (ok c) = ok (wrapped c)

unfoldable pub connect_to_vm :
    {A C : Type 0} → Ssh A C → Bool → String → String → Result Error (Executor C)
unfolding wrap
connect_to_vm ssh use_virtctl vm_name vm_host =
    if use_virtctl && not (is_empty vm_name)
    then ok (virtctl vm_name namespace)
    else wrap (ssh_connect ssh vm_host)

-- The arguments of `virtctl` for a command.
unfoldable pub virtctl_arguments : String → String → String → String → List String
virtctl_arguments identity ns vm_name command =
    "ssh"
    ∷ "--namespace"
    ∷ ns
    ∷ "--local-ssh-opts"
    ∷ "-o StrictHostKeyChecking=no"
    ∷ "--local-ssh-opts"
    ∷ "-o UserKnownHostsFile=/dev/null"
    ∷ "--identity-file"
    ∷ identity
    ∷ "-c"
    ∷ command
    ∷ ("fedora@vmi/" <> vm_name)
    ∷ []

-- The path of the binary, and what running it gives.
pub record Shell : Type 0 where
  pub virtctl_path : Option String
  pub home : Option String
  pub run : String → List String → Option String

unfoldable pub run_virtctl : Shell → String → String → String → Result Error String
run_virtctl sh ns vm_name command = elim sh.virtctl_path [
  | none ↦ err no_virtctl
  | some path ↦ elim sh.home [
    | none ↦ err no_home
    | some dir ↦ elim (sh.run path (virtctl_arguments (dir <> "/.ssh/id_rsa") ns vm_name command)) [
      | none ↦ err command_failed
      | some out ↦ ok out
    ]
  ]
]
