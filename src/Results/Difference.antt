-- ===== src/Results/Difference.antt =====
-- The exit code of `Run` after the comparison of host and pod network
-- (cmd/k8s-netperf/k8s-netperf.go, pkg/results/result.go).
use mathlib.Core.List.{Memᴰ}
use mathlib.Core.List.Memᴰ
use k8s_netperf.Prelude.{
  Bool, true, false, not, ◌&&◌, ◌==◌, eq_iff, List, [], ◌∷◌, any, filter, map, last_or,
  if◌then◌else◌, ◌≡◌, ◌↔◌, refl, sym, ap, ◌∙◌, subst, Bool-cases, inl, inr, arith,
}
use k8s_netperf.Prelude.Int.{ℤ, pos, negsuc, is_num, same_int}
use k8s_netperf.Float.{Float64}
use k8s_netperf.Results.{
  Data, DiffData, check_host_results, cal_diff, perfs, do_perf_diff, diff_data, diffs_of,
  tcp_throughput_diff, exit_code,
}

any-eq-true :
    {A : Type 0} (p : A → Bool) (xs : List A) → any p xs ≡ true → (x : A) × Memᴰ x xs × (p x ≡ true)
any-eq-true p [] h = cc
any-eq-true p (x ∷ xs) h = elim (Bool-cases (p x)) [
  | inl e ↦ (x, Memᴰ.head refl, e)
  | inr e ↦ let (y, m, q) = any-eq-true p xs (ground (arith, e, h)) in (y, Memᴰ.tail m, q)
]

Mem-any :
    {A : Type 0} (p : A → Bool) (xs : List A) (x : A) → Memᴰ x xs → p x ≡ true → any p xs ≡ true
Mem-any p [] x m h = absurd (Memᴰ.not-nil m)
Mem-any p (y ∷ xs) x (Memᴰ.head e) h =
    let now : p y ≡ true = subst (λ z. p z ≡ true) e h in ground (arith, now)
Mem-any p (y ∷ xs) x (Memᴰ.tail m) h =
    let later = Mem-any p xs x m h in
    elim (Bool-cases (p y)) [ inl e ↦ ground (arith, e) | inr e ↦ ground (arith, e, later) ]

module _ (F : Float64) (average : List F.Real → F.Real) where
  open F use {Real, of_ℕ, add, sub, mul, div, lt}

  -- A test on the host network that the comparison is made for: one TCP stream, no service.
  pub IsCompared : Data Real → Type 0
  IsCompared t =
      (t.service ≡ false)
      × (t.config.parallelism ≡ pos 1)
      × (t.host_network ≡ true)
      × (t.config.profile ≡ "TCP_STREAM")

  -- A test that counts for the throughput of the host network, or of the pod network, at a message
  -- size: one TCP stream of pods, no service.
  abbrev pub matches : Bool → ℤ → Data Real → Bool
  matches host size t =
      (t.config.profile == "TCP_STREAM")
      && (not t.service
          && (not t.virt
              && (same_int t.config.message_size size
                  && (same_int t.config.parallelism (pos 1)
                      && (if host then t.host_network else not t.host_network)))))

  -- The mean throughputs of the tests that count, those above zero.
  abbrev pub throughputs : Bool → ℤ → List (Data Real) → List Real
  throughputs host size results =
      filter (λ v. lt (of_ℕ 0) v)
        (map (λ t. average t.throughput_summary) (filter (matches host size) results))

  -- The last of them, or zero.
  abbrev pub perf_of : Bool → ℤ → List (Data Real) → Real
  perf_of host size results = last_or (of_ℕ 0) (throughputs host size results)

  -- By how much, in percent of their mean, the host network is above the pod network.
  abbrev pub difference : Real → Real → Real
  difference host pod = mul (div (sub host pod) (div (add host pod) (of_ℕ 2))) (of_ℕ 100)

  -- One such test has a difference above the tolerance.
  pub record Exceeds (tcpt : Real) (results : List (Data Real)) : Type 0 where
    pub test : Data Real
    pub among : Memᴰ test results
    pub compared : IsCompared test
    pub above :
        (let size = test.config.message_size in
          lt tcpt (difference (perf_of true size results) (perf_of false size results)))
        ≡ true

  module _ (not_above : lt (of_ℕ 0) (of_ℕ 0) ≡ false) where
    -- The loop of `doPerfDiff` over what the first loop of `TCPThroughputDiff` leaves.
    perfs-diff_data :
        (size : ℤ) (host pod : Real) (results : List (Data Real))
        → perfs F size (pos 1) host pod (diff_data F average results) ≡ (
          last_or host (throughputs true size results),
          last_or pod (throughputs false size results),
        )
    unfolding perfs diff_data
    perfs-diff_data size host pod [] = refl
    perfs-diff_data size host pod (t ∷ ts) =
        let v = average t.throughput_summary in
        let counts = (t.config.profile == "TCP_STREAM") && (not t.service && not t.virt) in
        let sized = same_int t.config.message_size size && same_int t.config.parallelism (pos 1) in
        let skipped = perfs-diff_data size host pod ts in
        elim (Bool-cases counts) [
          | inr e ↦ ground (arith, e, skipped)
          | inl e ↦ elim (Bool-cases sized) [
            | inr f ↦ ground (arith, e, f, skipped)
            | inl f ↦ elim (Bool-cases t.host_network) [
              | inl g ↦ elim (Bool-cases (lt (of_ℕ 0) v)) [
                | inl k ↦ ground (arith, e, f, g, k, not_above, perfs-diff_data size v pod ts)
                | inr k ↦ ground (arith, e, f, g, k, not_above, skipped)
              ]
              | inr g ↦ elim (Bool-cases (lt (of_ℕ 0) v)) [
                | inl k ↦ ground (arith, e, f, g, k, not_above, perfs-diff_data size host v ts)
                | inr k ↦ ground (arith, e, f, g, k, not_above, skipped)
              ]
            ]
          ]
        ]

    do_perf_diff-diff_data :
        (size : ℤ) (results : List (Data Real))
        → do_perf_diff F (diff_data F average results) size (pos 1)
          ≡ difference (perf_of true size results) (perf_of false size results)
    unfolding do_perf_diff cal_diff
    do_perf_diff-diff_data size results = rw (perfs-diff_data size (of_ℕ 0) (of_ℕ 0) results) refl

  compared : Data Real → Bool
  compared t =
      not t.service
      && (is_num t.config.parallelism 1 && (t.host_network && (t.config.profile == "TCP_STREAM")))

  one-stream : (n : ℤ) → (is_num n 1 ≡ true) ↔ (n ≡ pos 1)
  one-stream (pos n) =
      (λ h. ap pos (ground (arith, h)), λ h. subst (λ m. is_num m 1 ≡ true) (sym h) refl)
  one-stream (negsuc n) = (λ h. cc, λ h. subst (λ m. is_num m 1 ≡ true) (sym h) refl)

  compared_iff : (t : Data Real) → (compared t ≡ true) ↔ IsCompared t
  unfolding compared IsCompared
  compared_iff t =
      let one = one-stream t.config.parallelism in
      let name = eq_iff t.config.profile "TCP_STREAM" in
      (
        λ h. (
          ground (arith, h),
          one.0 (ground (arith, h)),
          ground (arith, h),
          name.0 (ground (arith, h)),
        ),
        λ (a, b, c, d). let e = one.1 b in let g = name.1 d in ground (arith, a, c, e, g),
      )

  any-diffs_of :
      (tcpt : Real) (diff : List (DiffData Real)) (msgs : List (Data Real))
      → any (λ d. lt tcpt d.result) (diffs_of F average diff msgs)
        ≡ any (λ t. compared t && lt tcpt (do_perf_diff F diff t.config.message_size (pos 1))) msgs
  unfolding diffs_of compared
  any-diffs_of tcpt diff [] = refl
  any-diffs_of tcpt diff (t ∷ ts) =
      let ih = any-diffs_of tcpt diff ts in
      elim (Bool-cases (compared t)) [
        | inl e ↦ ground (arith, e, ih)
        | inr e ↦ ground (arith, e, ih)
      ]

  -- Where zero is not above zero, the exit code that `Run` computes from the comparison at its end is
  -- 1 exactly when the host network is not the only one tested and some single-stream TCP test on it,
  -- without a service, has a message size at which the host network is above the pod network, in
  -- percent of the mean of the two, by more than the tolerance. The throughput of a network is that
  -- of the last of its single-stream TCP tests of pods at this size, without a service, whose mean is
  -- positive, or zero.
  pub exit_code-eq_iff :
      (host_net_only : Bool) (tcpt : Real) (results : List (Data Real))
      → lt (of_ℕ 0) (of_ℕ 0) ≡ false
      → (exit_code F average host_net_only tcpt results ≡ 1)
        ↔ ((host_net_only ≡ false) × Exceeds tcpt results)
  unfolding exit_code tcp_throughput_diff check_host_results IsCompared
  exit_code-eq_iff host_net_only tcpt results not_above =
      let diff = diff_data F average results in
      let same = any-diffs_of tcpt diff results in
      (
        λ h.
            let (t, m, q) = any-eq-true _ results (sym same ∙ ground (arith, h)) in
            (
              ground (arith, h),
              record {
                test = t;
                among = m;
                compared = (compared_iff t).0 (ground (arith, q));
                above =
                    ap (lt tcpt)
                      (sym (do_perf_diff-diff_data not_above t.config.message_size results))
                    ∙ ground (arith, q);
              },
            ),
        λ (off, x).
            let same_value = do_perf_diff-diff_data not_above x.test.config.message_size results in
            let exceeds = ap (lt tcpt) same_value ∙ x.above in
            let is = (compared_iff x.test).1 x.compared in
            let host = Mem-any (λ t. t.host_network) results x.test x.among x.compared.2 in
            let above =
              Mem-any
                (λ t. compared t && lt tcpt (do_perf_diff F diff t.config.message_size (pos 1)))
                results x.test x.among (ground (arith, is, exceeds)) in
            ground (arith, off, host, above, same),
      )
