-- ===== src/Drivers/Remote/Steps.antt =====
-- The connection to a VM, as the `Run` methods of pkg/drivers/*.go use it.
use k8s_netperf.Prelude.{
  ℕ, zero, suc, ◌+◌, String, Bool, true, false, if◌then◌else◌, Option, none, some, List, [], ◌∷◌,
  ◌++◌,
}

pub data Event : Type 0 where
  connected closed : Event
  ran : String → Event
  slept : ℕ → Event

-- What a command gives: its output, and whether the error is nil.
pub record Reply : Type 0 where
  pub output : String
  pub succeeds : Bool

-- The surroundings of a `Run`: whether `perf.VMClientExecutor` is set, whether the k-th
-- `ConnectToVM` succeeds, and the reply to the k-th command, counted from 0.
pub record Vm : Type 0 where
  pub shared : Bool
  pub connects : ℕ → Bool
  pub reply : ℕ → String → Reply

-- What has happened so far, in order, and how many connections and commands that was.
pub record Log : Type 0 where
  pub events : List Event
  pub connections : ℕ
  pub commands : ℕ

abbrev pub no_events : Log
no_events = record { events = []; connections = 0; commands = 0 }

-- `createdClient`, or `none` for the error of `ConnectToVM`.
unfoldable pub acquire : Vm → Log → Option Bool × Log
acquire vm t =
    if vm.shared
    then (some false, t)
    else if vm.connects t.connections
    then (
      some true,
      record t { events = t.events ++ (connected ∷ []); connections = t.connections + 1 },
    )
    else (none, record t { connections = t.connections + 1 })

-- `if createdClient { vmClient.Close() }`, whose error is only logged.
unfoldable pub release : Bool → Log → Log
release true t = record t { events = t.events ++ (closed ∷ []) }
release false t = t

unfoldable pub run : Vm → String → Log → Reply × Log
run vm cmd t = (
  vm.reply t.commands cmd,
  record t { events = t.events ++ (ran cmd ∷ []); commands = t.commands + 1 },
)

pause : ℕ → Log → Log
pause seconds t = record t { events = t.events ++ (slept seconds ∷ []) }

-- `for i := 0; i <= retry; i++ { run; if err == nil { break }; sleep }`, with the last reply.
unfoldable pub retry_run : ℕ → Vm → String → ℕ → Reply → Log → Reply × Log
unfolding run pause
retry_run zero vm cmd seconds last t = (last, t)
retry_run (suc left) vm cmd seconds last t =
    let (r, u) = run vm cmd t in
    elim r.succeeds [ true ↦ (r, u) | false ↦ retry_run left vm cmd seconds r (pause seconds u) ]

-- The loops make `retry + 1` rounds.
abbrev pub rounds_of_retry : ℕ
rounds_of_retry = 11

abbrev pub no_reply : Reply
no_reply = record { output = ""; succeeds = false }
