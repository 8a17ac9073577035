-- ===== src/Cluster/Infra/Built.antt =====
-- What `BuildInfra` (pkg/k8s/kubernetes.go) leaves in the cluster.
use k8s_netperf.Prelude.{Bool, true, none, some, ok, ◌≡◌, arith, ◌⊎◌, inl, inr, Option-cases}
use k8s_netperf.Cluster.Infra.{
  Infra, Answers, labels_of, with_namespace, with_account, with_binding, build_infra, Labels,
}

-- All three are there, and those that were there are as before.
pub record IsBuilt (udn : Bool) (t t' : Infra) : Type 0 where
  pub namespace :
      ((t.namespace_labels ≡ none) × (t'.namespace_labels ≡ some (labels_of udn)))
      ⊎ ((ls : Labels) × (t.namespace_labels ≡ some ls) × (t'.namespace_labels ≡ some ls))
  pub account : t'.service_account ≡ true
  pub binding : t'.role_binding ≡ true

-- Where `BuildInfra` returns no error, the namespace, the account and the role binding exist, and a
-- namespace that existed has kept its labels.
pub build_infra-IsBuilt :
    (a : Answers) (udn : Bool) (t : Infra)
    → (build_infra a udn t).1 ≡ ok tt
    → IsBuilt udn t (build_infra a udn t).0
unfolding build_infra with_namespace with_account with_binding
build_infra-IsBuilt a udn t h = record {
  namespace = elim (Option-cases t.namespace_labels) [
    | inl e ↦ inl (e, ground arith)
    | inr (ls, e) ↦ inr (ls, e, ground arith)
  ];
  account = ground arith;
  binding = ground arith;
}

-- A second call changes nothing and succeeds, as long as what exists can be read.
build_infra_again :
    (a : Answers) (udn : Bool) (t : Infra)
    → a.reads_namespace ≡ true
    → a.reads_account ≡ true
    → a.reads_binding ≡ true
    → (build_infra a udn t).1 ≡ ok tt
    → build_infra a udn (build_infra a udn t).0 ≡ ((build_infra a udn t).0, ok tt)
unfolding build_infra with_namespace with_account with_binding
build_infra_again a udn t r1 r2 r3 h = ground arith
