-- ===== src/Metrics/Extraction.antt =====
-- What `extractNodeCPU` of pkg/metrics/system.go reads from an answer.
use k8s_netperf.Prelude.{
  Bool, true, false, ◌||◌, if◌then◌else◌, Option, none, some, List, [], ◌∷◌, map, last_or, any, ok,
  ◌≡◌, refl, ◌∙◌, ◌↔◌, arith, Bool-cases, inl, inr,
}
use k8s_netperf.Float.{Float64}
use k8s_netperf.Metrics.Types.{NodeCpu, Stream, matrix}
use k8s_netperf.Metrics.NodeCpu.{
  Mode, idle, steal, system, user, nice, irq, softirq, iowait, mode_of, get_mode, set_mode,
  store_mode, avg, zero_cpu, read_series, read_all, extract_node_cpu,
}

abbrev pub mode_eqb : Mode → Mode → Bool
mode_eqb idle idle = true
mode_eqb steal steal = true
mode_eqb system system = true
mode_eqb user user = true
mode_eqb nice nice = true
mode_eqb irq irq = true
mode_eqb softirq softirq = true
mode_eqb iowait iowait = true
mode_eqb _ _ = false

get_mode-set_mode :
    {R : Type 0} (m m' : Mode) (x : R) (c : NodeCpu R)
    → get_mode m (set_mode m' x c) ≡ (if mode_eqb m m' then x else get_mode m c)
unfolding set_mode
get_mode-set_mode m m' x c = ground arith

module _ {R : Type 0} where
  abbrev counts : Option Mode → List R → Bool
  counts mode [] = false
  counts none (x ∷ xs) = false
  counts (some m) (x ∷ xs) = true

  abbrev counts_for : Mode → Option Mode → List R → Bool
  counts_for m mode [] = false
  counts_for m none (x ∷ xs) = false
  counts_for m (some m') (x ∷ xs) = mode_eqb m m'

  -- A series that counts: the pointer is not nil, it has values, and its mode is one of the eight.
  abbrev pub is_usable : Option (Stream R) → Bool
  is_usable none = false
  is_usable (some s) = counts (mode_of (s.label "mode")) s.values

  abbrev pub is_of_mode : Mode → Option (Stream R) → Bool
  is_of_mode m none = false
  is_of_mode m (some s) = counts_for m (mode_of (s.label "mode")) s.values

  abbrev values_of : Option (Stream R) → List R
  values_of none = []
  values_of (some s) = s.values

  -- The values of the usable series of a mode, in the order of the answer.
  abbrev pub series_of : Mode → List (Option (Stream R)) → List (List R)
  series_of m [] = []
  series_of m (s ∷ v) =
      let rest = series_of m v in if is_of_mode m s then values_of s ∷ rest else rest

module _ (F : Float64) where
  open F use {Real, of_ℕ}

  get_mode-store_mode :
      (m : Mode) (mode : Option Mode) (values : List Real) (acc : NodeCpu Real × Bool)
      → get_mode m (store_mode F mode values acc).0
        ≡ (if counts_for m mode values then avg F values else get_mode m acc.0)
  unfolding store_mode
  get_mode-store_mode m mode [] acc = refl
  get_mode-store_mode m none (x ∷ xs) acc = refl
  get_mode-store_mode m (some m') (x ∷ xs) (c, b) = get_mode-set_mode m m' (avg F (x ∷ xs)) c

  get_mode-read_series :
      (m : Mode) (s : Option (Stream Real)) (acc : NodeCpu Real × Bool)
      → get_mode m (read_series F s acc).0
        ≡ (if is_of_mode m s then avg F (values_of s) else get_mode m acc.0)
  unfolding read_series
  get_mode-read_series m none acc = refl
  get_mode-read_series m (some s) acc =
      get_mode-store_mode m (mode_of (s.label "mode")) s.values acc

  get_mode-read_all :
      (m : Mode) (v : List (Option (Stream Real))) (acc : NodeCpu Real × Bool)
      → get_mode m (read_all F v acc).0 ≡ last_or (get_mode m acc.0) (map (avg F) (series_of m v))
  unfolding read_all
  get_mode-read_all m [] acc = refl
  get_mode-read_all m (s ∷ v) acc = elim (Bool-cases (is_of_mode m s)) [
    | inl it ↦
        rw (get_mode-read_all m v (read_series F s acc), get_mode-read_series m s acc, it) refl
    | inr other ↦
        rw (get_mode-read_all m v (read_series F s acc), get_mode-read_series m s acc, other) refl
  ]

  collected-store_mode :
      (mode : Option Mode) (values : List Real) (acc : NodeCpu Real × Bool)
      → (store_mode F mode values acc).1 ≡ (counts mode values || acc.1)
  unfolding store_mode
  collected-store_mode mode [] acc = refl
  collected-store_mode none (x ∷ xs) acc = refl
  collected-store_mode (some m) (x ∷ xs) acc = refl

  collected-read_series :
      (s : Option (Stream Real)) (acc : NodeCpu Real × Bool)
      → (read_series F s acc).1 ≡ (is_usable s || acc.1)
  unfolding read_series
  collected-read_series none acc = refl
  collected-read_series (some s) acc = collected-store_mode (mode_of (s.label "mode")) s.values acc

  collected-read_all :
      (v : List (Option (Stream Real))) (acc : NodeCpu Real × Bool)
      → (read_all F v acc).1 ≡ (any is_usable v || acc.1)
  unfolding read_all
  collected-read_all [] acc = refl
  collected-read_all (s ∷ v) acc =
      ground (arith, collected-read_all v (read_series F s acc), collected-read_series s acc)

  get_mode-zero_cpu : (m : Mode) → get_mode m (zero_cpu F) ≡ of_ℕ 0
  get_mode-zero_cpu m = ground arith

  -- An answer is accepted exactly if one of its series is usable.
  extract_node_cpu-eq-ok_iff :
      (v : List (Option (Stream Real)))
      → ((c : NodeCpu Real) × (extract_node_cpu F (matrix v) ≡ ok c)) ↔ (any is_usable v ≡ true)
  unfolding extract_node_cpu
  extract_node_cpu-eq-ok_iff [] = (λ h. cc h.1, λ h. cc)
  extract_node_cpu-eq-ok_iff (s ∷ v) =
      let all = collected-read_all (s ∷ v) (zero_cpu F, false) in
      (
        λ (c, e). ground (arith, all),
        λ h. ((read_all F (s ∷ v) (zero_cpu F, false)).0, ground (arith, all)),
      )

  -- Of an accepted answer each mode holds the average of its last usable series, or 0 without one.
  pub extract_node_cpu_modes :
      (v : List (Option (Stream Real))) (c : NodeCpu Real) (m : Mode)
      → extract_node_cpu F (matrix v) ≡ ok c
      → get_mode m c ≡ last_or (of_ℕ 0) (map (avg F) (series_of m v))
  unfolding extract_node_cpu
  extract_node_cpu_modes [] c m h = cc
  extract_node_cpu_modes (s ∷ v) c m h =
      let e : c ≡ (read_all F (s ∷ v) (zero_cpu F, false)).0 = ground arith in
      rw e (get_mode-read_all m (s ∷ v) (zero_cpu F, false) ∙ rw (get_mode-zero_cpu m))
