-- ===== src/Cluster/Deployments/Affinity.antt =====
-- The scheduling rules that `BuildSUT` (pkg/k8s/kubernetes.go) gives to pods and VMs.
use k8s_netperf.Prelude.{
  ℕ, String, Bool, not, ◌&&◌, if◌then◌else◌, Option, none, some, List, [], ◌∷◌, eqb,
}
use k8s_netperf.Prelude.Text.{is_empty}

pub data Operator : Type 0 where
  one_of not_one_of : Operator

pub record Requirement : Type 0 where
  pub key : String
  pub operator : Operator
  pub values : List String

-- Pods that meet the requirements, on nodes with the same value of the key.
pub record PodTerm : Type 0 where
  pub requirements : List Requirement
  pub topology_key : String

pub record Preference : Type 0 where
  pub weight : ℕ
  pub requirements : List Requirement

-- The one required term of a node, if any, and the preferred ones.
pub record NodeAffinity : Type 0 where
  pub required : Option (List Requirement)
  pub preferred : List Preference

abbrev pub anywhere : NodeAffinity
anywhere = record { required = none; preferred = [] }

-- `workerNodeSelectorExpression`
unfoldable pub worker_nodes : List Requirement
worker_nodes =
    record { key = "node-role.kubernetes.io/worker"; operator = one_of; values = "" ∷ [] }
    ∷ record { key = "node-role.kubernetes.io/infra"; operator = not_one_of; values = "" ∷ [] }
    ∷ record { key = "node-role.kubernetes.io/workload"; operator = not_one_of; values = "" ∷ [] }
    ∷ []

-- Pods of a role on the same host.
unfoldable pub same_host : String → List PodTerm
same_host role =
    record {
      requirements = record { key = "role"; operator = one_of; values = role ∷ [] } ∷ [];
      topology_key = "kubernetes.io/hostname";
    }
    ∷ []

-- How many nodes have the label of the server and of the client; `none` is a failed query, whose
-- list is empty.
unfoldable pub are_nodes_labeled : Option ℕ → Option ℕ → Bool
are_nodes_labeled server client =
    not (
      eqb (elim server [ none ↦ 0 | some n ↦ n ]) 0
      && eqb (elim client [ none ↦ 0 | some n ↦ n ]) 0)

-- `zoneNodeSelectorExpression`
unfoldable pub zone_nodes : Bool → String → String → List Preference
zone_nodes labeled zone role =
    record {
      weight = 100;
      requirements =
          record { key = "netperf"; operator = one_of; values = role ∷ [] }
          ∷ (if not labeled && not (is_empty zone)
              then record {
                key = "topology.kubernetes.io/zone";
                operator = one_of;
                values = zone ∷ [];
              }
                ∷ []
              else []);
    }
    ∷ []

-- The preference where no zone is known.
unfoldable pub labeled_nodes : String → NodeAffinity
labeled_nodes role = record {
  required = none;
  preferred =
      record {
        weight = 100;
        requirements = record { key = "netperf"; operator = one_of; values = role ∷ [] } ∷ [];
      }
      ∷ [];
}
