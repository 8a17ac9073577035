-- ===== src/Vms/Connect/Waits.antt =====
-- The outcomes of the waits of pkg/k8s/kubevirt.go.
use k8s_netperf.Prelude.{
  ℕ, ◌<◌, String, ◌<>◌, Bool, true, false, ◌&&◌, ◌==◌, Option, some, List, [], ◌∷◌, ◌++◌, All, ok,
  err, ◌≡◌, refl, ap, subst, ◌↔◌, ◌⊎◌, inl, inr, Bool-cases, arith,
}
use k8s_netperf.Cluster.Polling.{poll, FailsFrom, poll-IsPolled}
use k8s_netperf.Vms.Connect.{
  Event, vmi, other, no_ssh, running_among, wait_for_vmi, connect, connected, Ssh, ssh_connect,
}

-- An event of a machine other than the one waited for, or of another phase of it.
abbrev pub IsPassed : String → Event → Type 0
IsPassed name other = ⊥
IsPassed name (vmi n phase) = ((n == name) && (phase == "Running")) ≡ false

-- An event of the machine in the phase waited for.
abbrev pub is_running : String → Event → Bool
is_running name other = false
is_running name (vmi n phase) = (n == name) && (phase == "Running")

abbrev pub IsFine : String → List Event → Type 0
IsFine name events =
    All (IsPassed name) events
    ⊎ ((before after : List Event) × (e : Event) × (events ≡ before ++ (e ∷ after))
        × All (IsPassed name) before
        × (is_running name e ≡ true))

IsFine-after :
    (name : String) (e : Event) (es : List Event)
    → IsPassed name e
    → IsFine name es
    → IsFine name (e ∷ es)
IsFine-after name e es passed (inl all) = inl (passed, all)
IsFine-after name e es passed (inr (before, after, r, split, skipped, running)) =
    inr (e ∷ before, after, r, ap (λ (l : List Event). e ∷ l) split, (passed, skipped), running)

running_among_sound :
    (name : String) (events : List Event) → running_among name events ≡ ok tt → IsFine name events
unfolding running_among
running_among_sound name [] h = inl tt
running_among_sound name (other ∷ events) h = cc
running_among_sound name (vmi n phase ∷ events) h =
    elim (Bool-cases ((n == name) && (phase == "Running"))) [
      | inl runs ↦ inr ([], events, vmi n phase, refl, tt, runs)
      | inr passed ↦
          IsFine-after name (vmi n phase) events passed
            (running_among_sound name events (rw passed at h))
    ]

running_among_complete :
    (name : String) (before after : List Event) (e : Event)
    → All (IsPassed name) before
    → is_running name e ≡ true
    → running_among name (before ++ (e ∷ after)) ≡ ok tt
unfolding running_among
running_among_complete name [] after other skipped runs = cc
running_among_complete name [] after (vmi n phase) skipped runs = rw runs refl
running_among_complete name (other ∷ before) after e skipped runs = absurd skipped.0
running_among_complete name (vmi n phase ∷ before) after e skipped runs =
    rw skipped.0 (running_among_complete name before after e skipped.1 runs)

running_among_passed :
    (name : String) (events : List Event)
    → All (IsPassed name) events
    → running_among name events ≡ ok tt
unfolding running_among
running_among_passed name [] h = refl
running_among_passed name (other ∷ events) h = absurd h.0
running_among_passed name (vmi n phase ∷ events) h = rw h.0 (running_among_passed name events h.1)

-- `WaitForVMI` on a watch returns no error exactly when no object of another kind comes before the
-- machine is seen running; a watch that ends without that is a success too.
pub wait_for_vmi-eq-ok_iff :
    (name : String) (events : List Event)
    → (wait_for_vmi (some events) name ≡ ok tt) ↔ IsFine name events
unfolding wait_for_vmi
wait_for_vmi-eq-ok_iff name events = (
  running_among_sound name events,
  λ fine. elim fine [
    | inl all ↦ running_among_passed name events all
    | inr (before, after, e, split, skipped, runs) ↦
        rw split (running_among_complete name before after e skipped runs)
  ],
)

-- A connection that `SSHConnect` returns is that of the first of its thirty attempts that did not
-- fail; with the error that it has for the connection, all thirty have failed.
pub ssh_connect_attempts :
    {A C : Type 0} (ssh : Ssh A C) (vm_host : String) (dir key : String) (auth : A)
    → ssh.home ≡ some dir
    → ssh.read_file (dir <> "/.ssh/id_rsa") ≡ some key
    → ssh.raw_key key ≡ some auth
    → let try : ℕ → Option C =
        ssh.new_conn (record { user = "fedora"; addr = vm_host; port = 32022; auth = auth }) in
      (((k : ℕ) × (c : C) × (k < 30)
          × FailsFrom try 0 k
          × (try k ≡ some c)
          × (ssh_connect ssh vm_host ≡ ok c))
        ⊎ (FailsFrom try 0 30 × (ssh_connect ssh vm_host ≡ err no_ssh)))
unfolding ssh_connect connect connected
ssh_connect_attempts {C = C} ssh vm_host dir key auth e1 e2 e3 =
    let try : ℕ → Option C =
      ssh.new_conn (record { user = "fedora"; addr = vm_host; port = 32022; auth = auth }) in
    let p = poll-IsPolled try 30 0 in
    elim p.outcome [
      | inl (none_left, all, _) ↦
          inr (subst (FailsFrom try 0) all p.failed, rw (e1, e2, e3, none_left) refl)
      | inr (c, found, there, _, before) ↦ inl (
        (poll try 30 0).pauses,
        c,
        before,
        p.failed,
        subst (λ (n : ℕ). try n ≡ some c) (omega arith) there,
        rw (e1, e2, e3, found) refl,
      )
    ]
