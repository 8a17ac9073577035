-- ===== src/Metrics/NodeCpu.antt =====
-- Reading the answers: `avg`, `extractNodeCPU` and `extractMTU` of pkg/metrics/system.go.
use mathlib.Core.List.{foldl}
use k8s_netperf.Prelude.{
  String, Bool, true, false, if◌then◌else◌, ◌==◌, Option, none, some, List, [], ◌∷◌, length,
  last_or, Result, ok, err,
}
use k8s_netperf.Prelude.Int.{ℤ}
use k8s_netperf.Float.{Float64}
use k8s_netperf.Metrics.Types.{NodeCpu, Stream, Value, matrix, vector, other}

pub data Error : Type 0 where
  no_client query_failed unexpected_type no_series no_samples unavailable : Error

-- The modes of the switch in `extractNodeCPU`.
pub data Mode : Type 0 where
  idle steal system user nice irq softirq iowait : Mode

unfoldable pub mode_of : String → Option Mode
mode_of label =
    if label == "idle"
    then some idle
    else if label == "steal"
    then some steal
    else if label == "system"
    then some system
    else if label == "user"
    then some user
    else if label == "nice"
    then some nice
    else if label == "irq"
    then some irq
    else if label == "softirq"
    then some softirq
    else if label == "iowait"
    then some iowait
    else none

module _ {R : Type 0} where
  abbrev pub get_mode : Mode → NodeCpu R → R
  get_mode idle c = c.idle
  get_mode steal c = c.steal
  get_mode system c = c.system
  get_mode user c = c.user
  get_mode nice c = c.nice
  get_mode irq c = c.irq
  get_mode softirq c = c.softirq
  get_mode iowait c = c.iowait

  unfoldable pub set_mode : Mode → R → NodeCpu R → NodeCpu R
  set_mode idle x c = record c { idle = x }
  set_mode steal x c = record c { steal = x }
  set_mode system x c = record c { system = x }
  set_mode user x c = record c { user = x }
  set_mode nice x c = record c { nice = x }
  set_mode irq x c = record c { irq = x }
  set_mode softirq x c = record c { softirq = x }
  set_mode iowait x c = record c { iowait = x }

module _ (F : Float64) where
  open F use {Real, of_ℕ, add, div, to_int}

  -- `avg`: of no values it is 0 / 0.
  unfoldable pub avg : List Real → Real
  avg values = div (foldl add (of_ℕ 0) values) (of_ℕ (length values))

  abbrev pub zero_cpu : NodeCpu Real
  zero_cpu = record {
    idle = of_ℕ 0;
    user = of_ℕ 0;
    steal = of_ℕ 0;
    system = of_ℕ 0;
    nice = of_ℕ 0;
    irq = of_ℕ 0;
    softirq = of_ℕ 0;
    iowait = of_ℕ 0;
    vswitch_cpu = of_ℕ 0;
    vswitch_mem = of_ℕ 0;
  }

  unfoldable pub store_mode : Option Mode → List Real → NodeCpu Real × Bool → NodeCpu Real × Bool
  store_mode mode [] acc = acc
  store_mode none (x ∷ xs) acc = acc
  store_mode (some m) (x ∷ xs) (cpu, collected) = (set_mode m (avg (x ∷ xs)) cpu, true)

  -- One round of the loop over the series.
  unfoldable pub read_series : Option (Stream Real) → NodeCpu Real × Bool → NodeCpu Real × Bool
  unfolding store_mode
  read_series none acc = acc
  read_series (some s) acc = store_mode (mode_of (s.label "mode")) s.values acc

  unfoldable pub read_all : List (Option (Stream Real)) → NodeCpu Real × Bool → NodeCpu Real × Bool
  read_all [] acc = acc
  read_all (s ∷ rest) acc = read_all rest (read_series s acc)

  finish : NodeCpu Real × Bool → Result Error (NodeCpu Real)
  finish (cpu, true) = ok cpu
  finish (cpu, false) = err no_samples

  unfoldable pub extract_node_cpu : Value Real → Result Error (NodeCpu Real)
  unfolding finish
  extract_node_cpu (matrix []) = err no_series
  extract_node_cpu (matrix (s ∷ v)) = finish (read_all (s ∷ v) (zero_cpu, false))
  extract_node_cpu (vector v) = err unexpected_type
  extract_node_cpu other = err unexpected_type

  first_mtu : List (Option (Stream Real)) → Result Error ℤ
  first_mtu [] = err no_samples
  first_mtu (none ∷ rest) = first_mtu rest
  first_mtu (some s ∷ rest) = elim s.values [
    | [] ↦ first_mtu rest
    | x ∷ xs ↦ ok (to_int (last_or x xs))
  ]

  unfoldable pub extract_mtu : Value Real → Result Error ℤ
  unfolding first_mtu
  extract_mtu (matrix v) = first_mtu v
  extract_mtu (vector v) = err unexpected_type
  extract_mtu other = err unexpected_type
