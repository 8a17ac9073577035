-- ===== src/Cluster/Infra.antt =====
-- `BuildInfra` and `DestroyNamespace` of pkg/k8s/kubernetes.go.
pub mod Built
use k8s_netperf.Prelude.{
  String, Bool, true, false, not, ◌&&◌, if◌then◌else◌, Option, none, some, List, [], ◌∷◌, Result,
  ok, err,
}
use k8s_netperf.Cluster.{namespace}

abbrev pub Labels : Type 0
Labels = List (String × String)

-- What the cluster has: the namespace with its labels, and in it the account and the role binding.
pub record Infra : Type 0 where
  pub namespace_labels : Option Labels
  pub service_account : Bool
  pub role_binding : Bool

pub data Error : Type 0 where
  no_namespace no_account no_binding no_delete not_deleted no_watch : Error

-- How the server answers: whether each of the three can be read, and whether it accepts a new one.
pub record Answers : Type 0 where
  pub reads_namespace : Bool
  pub reads_account : Bool
  pub reads_binding : Bool
  pub creates_namespace : Bool
  pub creates_account : Bool
  pub creates_binding : Bool

abbrev pub exists : {A : Type 0} → Option A → Bool
exists none = false
exists (some a) = true

-- The namespace is to be a primary user-defined network's, or is labelled for the tests.
unfoldable pub labels_of : Bool → Labels
labels_of udn =
    if udn
    then ("k8s.ovn.org/primary-user-defined-network", "") ∷ []
    else ("netperf", "test-namespace") ∷ []

-- `Create` refuses what exists already.
unfoldable pub with_namespace : Answers → Bool → Infra → Infra × Result Error (Unit {0})
unfolding labels_of
with_namespace a udn t =
    if a.reads_namespace && exists t.namespace_labels
    then (t, ok tt)
    else if a.creates_namespace && not (exists t.namespace_labels)
    then (record t { namespace_labels = some (labels_of udn) }, ok tt)
    else (t, err no_namespace)

unfoldable pub with_account : Answers → Infra → Infra × Result Error (Unit {0})
with_account a t =
    if a.reads_account && t.service_account
    then (t, ok tt)
    else if a.creates_account && not t.service_account
    then (record t { service_account = true }, ok tt)
    else (t, err no_account)

unfoldable pub with_binding : Answers → Infra → Infra × Result Error (Unit {0})
with_binding a t =
    if a.reads_binding && t.role_binding
    then (t, ok tt)
    else if a.creates_binding && not t.role_binding
    then (record t { role_binding = true }, ok tt)
    else (t, err no_binding)

-- The next step, unless an error was returned.
abbrev pub then_do :
    Infra × Result Error (Unit {0})
    → (Infra → Infra × Result Error (Unit {0}))
    → Infra × Result Error (Unit {0})
then_do m next = elim m.1 [ err e ↦ (m.0, err e) | ok _ ↦ next m.0 ]

unfoldable pub build_infra : Answers → Bool → Infra → Infra × Result Error (Unit {0})
unfolding with_namespace with_account with_binding
build_infra a udn t =
    then_do (with_namespace a udn t) (λ t1. then_do (with_account a t1) (with_binding a))

-- The events of a watch: whether each is of the kind `Deleted`.
unfoldable pub wait_for_namespace_delete : Option (List Bool) → Result Error (Unit {0})
wait_for_namespace_delete none = err no_watch
wait_for_namespace_delete (some []) = err not_deleted
wait_for_namespace_delete (some (deleted ∷ events)) =
    let rest = wait_for_namespace_delete (some events) in if deleted then ok tt else rest

-- A namespace that is deleted has taken with it what was inside.
abbrev pub no_infra : Infra
no_infra = record { namespace_labels = none; service_account = false; role_binding = false }

-- The deletion is over once it has been seen; `left` is what there still is when the watch ends
-- before that, or cannot be made.
unfoldable pub destroy_namespace :
    Bool → Bool → Option (List Bool) → Infra → Infra → Infra × Result Error (Unit {0})
unfolding wait_for_namespace_delete
destroy_namespace reads deletes events left t =
    if reads && exists t.namespace_labels
    then (if deletes
        then elim (wait_for_namespace_delete events) [
          | ok _ ↦ (no_infra, ok tt)
          | err e ↦ (left, err e)
        ]
        else (t, err no_delete))
    else (t, ok tt)
