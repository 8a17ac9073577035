-- ===== src/Drivers/Remote/Vm/Counts.antt =====
-- How many connections to a VM a log leaves open, and what one step does to them.
use k8s_netperf.Prelude.{
  ℕ, zero, suc, ◌+◌, String, Bool, true, false, not, if◌then◌else◌, to_ℕ, Option, none, some, List,
  [], ◌∷◌, ◌++◌, ◌≡◌, refl, arith, Bool-cases, inl, inr,
}
use k8s_netperf.Drivers.Remote.Steps.{
  Event, connected, closed, ran, slept, Reply, Vm, Log, acquire, release, run, retry_run,
}
use k8s_netperf.Drivers.Remote.Vm.{Error, command_failed, profile_failed, Outcome, with_client}

abbrev pub opens : List Event → ℕ
opens [] = 0
opens (connected ∷ es) = suc (opens es)
opens (_ ∷ es) = opens es

abbrev pub closes : List Event → ℕ
closes [] = 0
closes (closed ∷ es) = suc (closes es)
closes (_ ∷ es) = closes es

pub opens-append : (es fs : List Event) → opens (es ++ fs) ≡ opens es + opens fs
opens-append [] fs = omega arith
opens-append (connected ∷ es) fs = omega (arith, opens-append es fs)
opens-append (e ∷ es) fs = opens-append es fs

pub closes-append : (es fs : List Event) → closes (es ++ fs) ≡ closes es + closes fs
closes-append [] fs = omega arith
closes-append (closed ∷ es) fs = omega (arith, closes-append es fs)
closes-append (e ∷ es) fs = closes-append es fs

-- `k` connections are open.
abbrev pub Open : ℕ → Log → Type 0
Open k t = opens t.events ≡ closes t.events + k

pub run-Open : (vm : Vm) (cmd : String) (k : ℕ) (t : Log) → Open k t → Open k (run vm cmd t).1
unfolding run
run-Open vm cmd k t h =
    omega (arith, opens-append t.events (ran cmd ∷ []), closes-append t.events (ran cmd ∷ []))

pub slept-Open :
    (s k : ℕ) (t : Log) → Open k t → Open k (record t { events = t.events ++ (slept s ∷ []) })
slept-Open s k t h =
    omega (arith, opens-append t.events (slept s ∷ []), closes-append t.events (slept s ∷ []))

pub release-Open :
    (created : Bool) (k : ℕ) (t : Log) → Open (k + to_ℕ created) t → Open k (release created t)
unfolding release
release-Open true k t h =
    omega (arith, opens-append t.events (closed ∷ []), closes-append t.events (closed ∷ []))
release-Open false k t h = omega arith

pub retry_run-Open :
    (n : ℕ) (vm : Vm) (cmd : String) (s : ℕ) (last : Reply) (k : ℕ) (t : Log)
    → Open k t
    → Open k (retry_run n vm cmd s last t).1
unfolding retry_run
retry_run-Open zero vm cmd s last k t h = h
retry_run-Open (suc n) vm cmd s last k t h = elim (Bool-cases (vm.reply t.commands cmd).succeeds) [
  | inl good ↦ rw (good, retry_run) (run-Open vm cmd k t h)
  | inr bad ↦
      rw (bad, retry_run)
        (retry_run-Open n vm cmd s (run vm cmd t).0 k _
          (slept-Open s k (run vm cmd t).1 (run-Open vm cmd k t h)))
]

-- What `acquire` leaves open: a connection more if it made one, which it does if none is shared.
abbrev pub AcquireOpen : Vm → ℕ → Option Bool × Log → Type 0
AcquireOpen vm k (none, t) = Open k t
AcquireOpen vm k (some created, t) = (created ≡ not vm.shared) × Open (k + to_ℕ created) t

pub acquire-Open : (vm : Vm) (k : ℕ) (t : Log) → Open k t → AcquireOpen vm k (acquire vm t)
unfolding acquire
acquire-Open vm k t h = elim (Bool-cases vm.shared) [
  | inl shared ↦ rw (shared, acquire) (refl, omega arith)
  | inr own ↦ elim (Bool-cases (vm.connects t.connections)) [
    | inl up ↦
        rw (own, up, acquire)
          (
            refl,
            omega (
              arith,
              opens-append t.events (connected ∷ []),
              closes-append t.events (connected ∷ []),
            ),
          )
    | inr down ↦ rw (own, down, acquire) h
  ]
]

abbrev pub is_error : Error → Option Error → Bool
is_error command_failed (some command_failed) = true
is_error profile_failed (some profile_failed) = true
is_error _ _ = false

-- After an outcome one connection more is open, if the run made its own, exactly where it ended in
-- the error that is named.
abbrev pub OpenUnless : Error → Vm → ℕ → Option Error × Log → Type 0
OpenUnless e vm k (r, t) = Open (k + (if is_error e r then to_ℕ (not vm.shared) else 0)) t

abbrev pub NetperfOpen : Vm → ℕ → Outcome → Type 0
NetperfOpen vm k (r, t) = OpenUnless command_failed vm k (r.1, t)

abbrev pub UperfOpen : Vm → ℕ → Option Error × Log → Type 0
UperfOpen vm k r = OpenUnless profile_failed vm k r

abbrev pub UperfRunOpen : Vm → ℕ → Outcome → Type 0
UperfRunOpen vm k (r, t) = OpenUnless profile_failed vm k (r.1, t)

module _ {A : Type 0} (vm : Vm) (k : ℕ) (P : A × Log → Type 0) (failed : A) where
  pub with_client_rule :
      (body : Bool → Log → A × Log)
      → ((t : Log) → Open k t → P (failed, t))
      → ((t : Log) (created : Bool)
          → created ≡ not vm.shared
          → Open (k + to_ℕ created) t
          → P (body created t))
      → (a : Option Bool × Log) → AcquireOpen vm k a
      → P (with_client failed body a)
  unfolding with_client
  with_client_rule body none_case some_case (none, t) o = none_case t o
  with_client_rule body none_case some_case (some created, t) (e, o) = some_case t created e o
