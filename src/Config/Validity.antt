-- ===== src/Config/Validity.antt =====
-- Which configurations `validConfig` and the two parsers of pkg/config/config.go accept.
use mathlib.Core.List.{append-nil, append_assoc}
use k8s_netperf.Prelude.{
  String, true, false, List, [], ◌∷◌, ◌++◌, any, ◌≡◌, ◌∙◌, ◌↔◌, ◌⊎◌, inl, inr, arith, Bool-cases,
  All, Result-cases, ok,
}
use k8s_netperf.Prelude.Int.{ℤ, pos, negsuc, below, AtLeast}
use k8s_netperf.Config.{Config, valid_config, collect}
use k8s_netperf.Config.Profile.{valid_tests, match_profile, find_fold, HasFold, find_fold_iff}

-- The profile names one of the tests `ts`, in any case.
abbrev pub NamesTest : List String → String → Type 0
NamesTest [] profile = ⊥
NamesTest (t ∷ ts) profile = HasFold profile t ⊎ NamesTest ts profile

-- What a configuration must be for the tests to run.
pub record IsRunnable (cfg : Config) : Type 0 where
  pub names_test : NamesTest valid_tests cfg.profile
  pub duration : AtLeast 1 cfg.duration
  pub samples : AtLeast 1 cfg.samples
  pub message_size : AtLeast 1 cfg.message_size
  pub parallelism : AtLeast 1 cfg.parallelism

any-NamesTest : (ts : List String) (p : String) → (any (find_fold p) ts ≡ true) ↔ NamesTest ts p
any-NamesTest [] p = (λ h. cc, λ h. absurd h)
any-NamesTest (t ∷ ts) p = (
  λ h. elim (Bool-cases (find_fold p t)) [
    | inl found ↦ inl ((find_fold_iff p t).0 found)
    | inr missed ↦ inr ((any-NamesTest ts p).0 (ground arith))
  ],
  elim [
    | inl here ↦ rw ((find_fold_iff p t).1 here)
    | inr there ↦ ground (arith, (any-NamesTest ts p).1 there)
  ],
)

match_profile_iff : (p : String) → (match_profile p ≡ true) ↔ NamesTest valid_tests p
unfolding match_profile
match_profile_iff p = any-NamesTest valid_tests p

below_iff : (x : ℤ) → (below x 1 ≡ false) ↔ AtLeast 1 x
below_iff (pos n) = (λ h. ground arith, λ h. ground arith)
below_iff (negsuc n) = (λ h. cc, λ h. absurd h)

valid_config_guards :
    (cfg : Config)
    → (valid_config cfg ≡ ok tt)
      ↔ (match_profile cfg.profile ≡ true)
        × (below cfg.duration 1 ≡ false)
        × (below cfg.samples 1 ≡ false)
        × (below cfg.message_size 1 ≡ false)
        × (below cfg.parallelism 1 ≡ false)
unfolding valid_config
valid_config_guards cfg = (λ h. ground arith, λ h. ground arith)

-- `validConfig` accepts exactly the runnable configurations.
pub valid_config-IsRunnable : (cfg : Config) → (valid_config cfg ≡ ok tt) ↔ IsRunnable cfg
valid_config-IsRunnable cfg = (
  λ h.
      let g = (valid_config_guards cfg).0 h in
      record {
        names_test = (match_profile_iff cfg.profile).0 g.0;
        duration = (below_iff cfg.duration).0 g.1;
        samples = (below_iff cfg.samples).0 g.2;
        message_size = (below_iff cfg.message_size).0 g.3;
        parallelism = (below_iff cfg.parallelism).0 g.4;
      },
  λ r. (valid_config_guards cfg).1 (
    (match_profile_iff cfg.profile).1 r.names_test,
    (below_iff cfg.duration).1 r.duration,
    (below_iff cfg.samples).1 r.samples,
    (below_iff cfg.message_size).1 r.message_size,
    (below_iff cfg.parallelism).1 r.parallelism,
  ),
)

collect-All : (acc cs : List Config) → All IsRunnable cs → collect acc cs ≡ ok (acc ++ cs)
unfolding collect
collect-All acc [] h = rw append-nil
collect-All acc (c ∷ cs) h =
    rw ((valid_config-IsRunnable c).1 h.0, collect)
      (collect-All (acc ++ (c ∷ [])) cs h.1 ∙ rw append_assoc)

collect_only :
    (acc cs ts : List Config) → collect acc cs ≡ ok ts → All IsRunnable cs × (ts ≡ acc ++ cs)
unfolding collect
collect_only acc [] ts h = (tt, cc (append-nil acc))
collect_only acc (c ∷ cs) ts h = elim (Result-cases (valid_config c)) [
  | inl (_, good) ↦
      let (all, e) = collect_only (acc ++ (c ∷ [])) cs ts (rw (good, collect) at h) in
      (((valid_config-IsRunnable c).0 good, all), e ∙ append_assoc acc (c ∷ []) cs)
  | inr (e, bad) ↦ let never : ⊥ = ground (arith, bad) in absurd never
]

-- The loop of `ParseConf` returns its values, all of them and in order, exactly if each is
-- runnable.
pub collect-eq-ok_iff :
    (cs ts : List Config) → (collect [] cs ≡ ok ts) ↔ (All IsRunnable cs × (ts ≡ cs))
collect-eq-ok_iff cs ts = (collect_only [] cs ts, λ h. collect-All [] cs h.0 ∙ cc)
