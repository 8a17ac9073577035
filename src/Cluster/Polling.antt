-- ===== src/Cluster/Polling.antt =====
-- The loops that try again after a pause, of pkg/k8s: `WaitForSriovNad`, `connect`, and the first
-- one of `ConfigureVMSriovIP`.
use k8s_netperf.Prelude.{
  ℕ, zero, suc, ◌+◌, ◌<◌, Option, none, some, ◌≡◌, refl, ap, subst, ◌⊎◌, inl, inr, arith,
  Option-cases,
}

-- What the loop returns, and how often it tried and paused.
pub record Polled {ℓ} (A : Type ℓ) : Type ℓ where
  pub answer : Option A
  pub attempts : ℕ
  pub pauses : ℕ

module _ {ℓ} {A : Type ℓ} (try : ℕ → Option A) where
  -- `left` rounds from round `i` on. A failed round ends with a pause, the last one too.
  unfoldable pub poll : ℕ → ℕ → Polled A
  poll zero i = record { answer = none; attempts = 0; pauses = 0 }
  poll (suc left) i = elim (try i) [
    | some a ↦ record { answer = some a; attempts = 1; pauses = 0 }
    | none ↦
        let rest = poll left (i + 1) in
        record { answer = rest.answer; attempts = suc rest.attempts; pauses = suc rest.pauses }
  ]

  -- The rounds from `i` to before `j` fail.
  abbrev pub FailsFrom : ℕ → ℕ → Type ℓ
  FailsFrom i zero = Unit
  FailsFrom i (suc n) = (try i ≡ none) × FailsFrom (i + 1) n

  -- Either every round fails and is followed by a pause, or the first one that does not gives the
  -- answer, with a pause after each one before.
  pub record IsPolled (left i : ℕ) (p : Polled A) : Type ℓ where
    pub failed : FailsFrom i p.pauses
    pub outcome :
        ((p.answer ≡ none) × (p.pauses ≡ left) × (p.attempts ≡ left))
        ⊎ ((a : A) × (p.answer ≡ some a)
            × (try (i + p.pauses) ≡ some a)
            × (p.attempts ≡ p.pauses + 1)
            × (p.pauses < left))

  later :
      (left i : ℕ) (p : Polled A)
      → try i ≡ none
      → IsPolled left (i + 1) p
      → IsPolled
          (suc left)
          i
          (record { answer = p.answer; attempts = suc p.attempts; pauses = suc p.pauses })
  later left i p e h = record {
    failed = (e, h.failed);
    outcome = elim h.outcome [
      | inl (none_left, all, tries) ↦ inl (none_left, ap suc all, ap suc tries)
      | inr (a, found, there, tries, before) ↦
          let shifted : try (i + suc p.pauses) ≡ some a =
            subst (λ k. try k ≡ some a) (omega arith) there in
          inr (a, found, shifted, omega (arith, tries), omega (arith, before))
    ];
  }

  -- The loop is as described, however many rounds it has.
  pub poll-IsPolled : (left i : ℕ) → IsPolled left i (poll left i)
  unfolding poll
  poll-IsPolled zero i = record { failed = tt; outcome = inl (refl, refl, refl) }
  poll-IsPolled (suc left) i = elim (Option-cases (try i)) [
    | inl e ↦ rw (e, poll) (later left i (poll left (i + 1)) e (poll-IsPolled left (i + 1)))
    | inr (a, e) ↦
        rw (e, poll)
          (record {
            failed = tt;
            outcome = inr (a, refl, subst (λ k. try k ≡ some a) (omega arith) e, refl, omega arith);
          })
  ]
