-- ===== src/Sut/Separate.antt =====
-- Where the scheduling rules of `BuildSUT` (pkg/k8s/kubernetes.go) put a server and its client.
use mathlib.Core.List.{Memᴰ}
use k8s_netperf.Prelude.{
  String, Bool, true, false, not, ◌&&◌, if◌then◌else◌, ◌==◌, List, [], ◌∷◌, any, All, ltb, ◌≡◌, ◌≢◌,
  arith, eq_iff, subst, ap, ◌∙◌, Option, some,
}
use k8s_netperf.Cluster.Deployments.{DeploymentParams}
use k8s_netperf.Cluster.Deployments.Affinity.{
  Requirement, PodTerm, Operator, one_of, not_one_of, same_host,
}
use k8s_netperf.Workload.{PerfScenarios}
use k8s_netperf.Sut.Params.{Placement, server, server_host}

-- A running pod of the namespace: its role and its node.
pub record Running : Type 0 where
  pub role : String
  pub node : String

-- The value of a label of a node.
abbrev pub NodeLabels : Type 0
NodeLabels = String → String → Option String

-- The label of a node by which the terms tell the nodes apart.
abbrev pub host_of : NodeLabels → String → Option String
host_of labels node = labels node "kubernetes.io/hostname"

listed : Operator → Bool → Bool
listed one_of b = b
listed not_one_of b = not b

-- Kubernetes reads a requirement on the label "role" so; a pod of ours has no other label that a
-- term asks for.
meets : Running → Requirement → Bool
unfolding listed
meets q r = listed r.operator ((r.key == "role") && any (λ v. v == q.role) r.values)

unfoldable pub meets_all : Running → List Requirement → Bool
unfolding meets
meets_all q [] = true
meets_all q (r ∷ rs) = meets q r && meets_all q rs

-- A required term of the anti-affinity keeps a pod from the nodes that have the value of the term's
-- topology key in common with the node of a pod that the term is about.
abbrev pub IsApart : NodeLabels → String → List Running → List PodTerm → Type 0
IsApart labels node running [] = Unit
IsApart labels node running (t ∷ ts) =
    All
      (λ (q : Running).
        meets_all q t.requirements ≡ true
        → (v : String) → labels node t.topology_key ≡ some v
        → labels q.node t.topology_key ≢ some v)
      running
    × IsApart labels node running ts

-- A required term of the affinity puts it on a node that has the value in common with one of them.
abbrev pub IsTogether : NodeLabels → String → List Running → List PodTerm → Type 0
IsTogether labels node running [] = Unit
IsTogether labels node running (t ∷ ts) =
    ((q : Running) × (v : String) × Memᴰ q running
      × (meets_all q t.requirements ≡ true)
      × (labels node t.topology_key ≡ some v)
      × (labels q.node t.topology_key ≡ some v))
    × IsTogether labels node running ts

-- The scheduler's promise for a pod of a deployment on a node, beside the pods that run.
pub record IsScheduled (labels : NodeLabels) (dp : DeploymentParams) (node : String)
    (running : List Running) : Type 0 where
  pub apart : IsApart labels node running dp.pod_anti_affinity
  pub together : IsTogether labels node running dp.pod_affinity

same_host-IsApart :
    (labels : NodeLabels) (role node host : String) (running : List Running)
    → host_of labels node ≡ some host
    → IsApart labels node running (same_host role)
    → All (λ (q : Running). q.role ≡ role → q.node ≢ node) running
unfolding same_host meets_all meets listed
same_host-IsApart labels role node host [] named h = tt
same_host-IsApart labels role node host (q ∷ qs) named h = (
  λ e same.
      h.0.0 (ground (arith, eq_iff role q.role, e)) host named (ap (host_of labels) same ∙ named),
  same_host-IsApart labels role node host qs named (h.0.1, tt),
)

-- With several workers and without `--local`, a server that is scheduled on a node with the label
-- "kubernetes.io/hostname" is on another node than every client of its kind: the pod's than the
-- clients across, the host network's than the host clients.
pub server-apart :
    (labels : NodeLabels) (privileged : Bool) (s : PerfScenarios) (p : Placement)
    (commands : List (List String)) (node host : String) (running : List Running)
    → host_of labels node ≡ some host
    → s.node_local ≡ false
    → ltb 1 p.workers ≡ true
    → (IsScheduled labels (server privileged s p commands) node running
        → All (λ (q : Running). q.role ≡ "client-across" → q.node ≢ node) running)
      × (IsScheduled labels (server_host privileged s p commands) node running
          → All (λ (q : Running). q.role ≡ "host-client" → q.node ≢ node) running)
unfolding server server_host
server-apart labels privileged s p commands node host running named away several =
    let test : (ltb 1 p.workers && not s.node_local) ≡ true = ground arith in
    let rule = λ (role : String) (x : Bool).
      IsApart labels node running (if x then same_host role else []) in
    (
      λ h.
          same_host-IsApart labels "client-across" node host running named
            (subst (rule "client-across") test h.apart),
      λ h.
          same_host-IsApart labels "host-client" node host running named
            (subst (rule "host-client") test h.apart),
    )
