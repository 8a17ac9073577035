-- ===== src/Cluster/Deployments/Waits.antt =====
-- When the wait for a deployment of pkg/k8s/kubernetes.go succeeds.
use k8s_netperf.Prelude.{
  ℕ, String, true, false, ◌&&◌, ◌==◌, some, List, [], ◌∷◌, ◌++◌, All, ok, err, eqb, ◌≡◌, refl, ap,
  ◌↔◌, inl, inr, Bool-cases, arith, eq_iff, eq_refl,
}
use k8s_netperf.Cluster.Deployments.{Event, deployment, other, panic, ready_among, wait_for_ready}

-- An event of a deployment that is not the one waited for with its one replica.
abbrev pub IsPassed : String → Event → Type 0
IsPassed name other = ⊥
IsPassed name (deployment n replicas) = ((n == name) && eqb replicas 1) ≡ false

-- The deployment is seen with its replica ready before any object of another kind.
abbrev pub IsSeen : String → List Event → Type 0
IsSeen name events =
    (before after : List Event) × (events ≡ before ++ (deployment name 1 ∷ after))
    × All (IsPassed name) before

ready-deployment :
    (name n : String) (replicas : ℕ)
    → ((n == name) && eqb replicas 1) ≡ true
    → deployment n replicas ≡ deployment name 1
ready-deployment name n replicas h = ground (arith, eq_iff n name)

ready_among_sound :
    (name : String) (events : List Event) → ready_among name events ≡ ok tt → IsSeen name events
unfolding ready_among
ready_among_sound name [] h = cc
ready_among_sound name (other ∷ events) h = cc
ready_among_sound name (deployment n replicas ∷ events) h =
    elim (Bool-cases ((n == name) && eqb replicas 1)) [
      | inl ready ↦
          ([], events, ap (λ (d : Event). d ∷ events) (ready-deployment name n replicas ready), tt)
      | inr passed ↦
          let (before, after, e, skipped) = ready_among_sound name events (rw passed at h) in
          (
            deployment n replicas ∷ before,
            after,
            ap (λ (es : List Event). deployment n replicas ∷ es) e,
            (passed, skipped),
          )
    ]

ready_among_complete :
    (name : String) (before after : List Event)
    → All (IsPassed name) before
    → ready_among name (before ++ (deployment name 1 ∷ after)) ≡ ok tt
unfolding ready_among
ready_among_complete name [] after h = rw (eq_refl name) refl
ready_among_complete name (other ∷ before) after h = absurd h.0
ready_among_complete name (deployment n replicas ∷ before) after h =
    rw h.0 (ready_among_complete name before after h.1)

-- `WaitForReady` on a watch returns no error exactly when the deployment is seen with its one
-- replica ready before any object of another kind.
pub wait_for_ready-eq-ok_iff :
    (name : String) (events : List Event)
    → (wait_for_ready (some events) name ≡ ok tt) ↔ IsSeen name events
unfolding wait_for_ready
wait_for_ready-eq-ok_iff name events = (
  ready_among_sound name events,
  λ (before, after, e, h). rw e (ready_among_complete name before after h),
)

-- An object of another kind that comes first ends the program, since its name is read all the same.
wait_for_ready_panics :
    (name : String) (before after : List Event)
    → All (IsPassed name) before
    → wait_for_ready (some (before ++ (other ∷ after))) name ≡ err panic
unfolding wait_for_ready ready_among
wait_for_ready_panics name [] after h = refl
wait_for_ready_panics name (other ∷ before) after h = absurd h.0
wait_for_ready_panics name (deployment n replicas ∷ before) after h =
    rw h.0 (wait_for_ready_panics name before after h.1)
