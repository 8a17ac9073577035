-- ===== src/Deploy/Cleaned.antt =====
-- The deployments of `Run` outside of its namespace and the requests of `cleanup`
-- (cmd/k8s-netperf/k8s-netperf.go).
use k8s_netperf.Prelude.{
  ℕ, zero, suc, String, Bool, true, false, not, ◌&&◌, ◌||◌, if◌then◌else◌, Option, List, [], ◌∷◌,
  replicate, All, All-append, ok, err, ◌≡◌, refl, ◌⊎◌, inl, inr,
}
use k8s_netperf.Prelude.Text.{is_empty}
use k8s_netperf.Cluster.{namespace, cudn_name, sriov_nad_name}
use k8s_netperf.Cluster.Objects.{
  Resource, Object, Server, Request, get, create, update, delete, Requests, Error, empty_cudn, fail,
  return, ignoring, request, get_object, ◌>>=◌, ◌>>◌,
}
use k8s_netperf.Cluster.Objects.Networks.{
  cluster_user_defined_networks, deploy_l2_udn, deploy_l3_udn, deploy_cudn, destroy_cudn,
  deploy_nad_bridge, deploy_nad_macvlan, cudn_object,
}
use k8s_netperf.Cluster.Objects.Sriov.{
  sriov_resource, sriov_policy_name, sriov_operator_namespace, deploy_sriov_operator_config,
  deploy_sriov_policy, deploy_sriov_network, sriov_policy, sriov_network, destroy_sriov_resources,
}
use k8s_netperf.Flags.{Flags, is_set}
use k8s_netperf.Deploy.{
  Options, validate_bridge_network, polled_nad, deploy_udn, deploy_bridge, deploy_sriov,
  deploy_macvlan, deploy_networks, cleanup_networks,
}

abbrev Member : {A : Type 0} → A → List A → Type 0
Member a [] = ⊥
Member a (b ∷ bs) = (a ≡ b) ⊎ Member a bs

-- A new object is in the namespace, which is deleted as a whole, or its deletion is requested.
abbrev pub IsCovered : List Request → Request → Type 0
IsCovered cleaned (create res ns o) = (ns ≡ namespace) ⊎ Member (delete res ns o.name) cleaned
IsCovered cleaned (get res ns name) = Unit
IsCovered cleaned (update res ns o) = Unit
IsCovered cleaned (delete res ns name) = Unit

module _ (cleaned : List Request) where
  Covers : {A : Type 0} → Requests A → Type 0
  Covers m = All (IsCovered cleaned) m.0

  Covers-return : {A : Type 0} (a : A) → Covers (return a)
  unfolding Covers
  Covers-return a = tt

  Covers-fail : (e : Error) → Covers (fail {A = Unit {0}} e)
  unfolding Covers
  Covers-fail e = tt

  Covers-request : (server : Server) (r : Request) → IsCovered cleaned r → Covers (request server r)
  unfolding Covers request
  Covers-request server r h = (h, tt)

  Covers-get :
      (server : Server) (res : Resource) (ns name : String) → Covers (get_object server res ns name)
  unfolding Covers get_object
  Covers-get server res ns name = (tt, tt)

  Covers-ignoring : (m : Requests (Unit {0})) → Covers m → Covers (ignoring m)
  unfolding Covers ignoring
  Covers-ignoring m h = h

  Covers->>= :
      {A B : Type 0} (m : Requests A) (next : A → Requests B)
      → Covers m
      → ((a : A) → Covers (next a))
      → Covers (m >>= next)
  unfolding Covers ◌>>=◌
  Covers->>= (made, err e) next h k = h
  Covers->>= (made, ok a) next h k = All-append (IsCovered cleaned) made (next a).0 h (k a)

  Covers-if :
      {A : Type 0} (b : Bool) (x y : Requests A)
      → (b ≡ true → Covers x)
      → (b ≡ false → Covers y)
      → Covers (if b then x else y)
  Covers-if true x y hx hy = hx refl
  Covers-if false x y hx hy = hy refl

  Covers-replicate :
      (n : ℕ) (res : Resource) (ns name : String)
      → All (IsCovered cleaned) (replicate n (get res ns name))
  Covers-replicate zero res ns name = tt
  Covers-replicate (suc n) res ns name = (tt, Covers-replicate n res ns name)

  Covers-polled_nad : (nad_at : ℕ → Option Object) → Covers (polled_nad nad_at)
  unfolding Covers polled_nad
  Covers-polled_nad nad_at = Covers-replicate _ _ _ _

-- The requests of `cleanup` by whether the two flags are set.
module _ (server : Server) where
  abbrev cleanup_if : Bool → Bool → Requests (Unit {0})
  cleanup_if cudn sriov =
      (if cudn then ignoring (destroy_cudn server cudn_name) else return tt)
      >> (if sriov then ignoring (destroy_sriov_resources server) else return tt)

  cudn-Member :
      (cudn sriov : Bool)
      → cudn ≡ true
      → Member (delete cluster_user_defined_networks "" cudn_name) (cleanup_if cudn sriov).0
  unfolding destroy_cudn destroy_sriov_resources request ignoring ◌>>=◌
  cudn-Member true true h = inl refl
  cudn-Member true false h = inl refl
  cudn-Member false sriov h = cc

  sriov-Members :
      (cudn sriov : Bool)
      → sriov ≡ true
      → Member
          (delete (sriov_resource "sriovnetworks") sriov_operator_namespace sriov_nad_name)
          (cleanup_if cudn sriov).0
        × Member
            (delete
              (sriov_resource "sriovnetworknodepolicies")
              sriov_operator_namespace
              sriov_policy_name)
            (cleanup_if cudn sriov).0
  unfolding destroy_cudn destroy_sriov_resources request ignoring ◌>>=◌
  sriov-Members true true h = (inr (inl refl), inr (inr (inl refl)))
  sriov-Members false true h = (inl refl, inr (inl refl))
  sriov-Members cudn false h = cc

module _ (server later : Server) (f : Flags) (o : Options) where
  abbrev deleted : List Request
  deleted = (cleanup_if later (is_set f.cudn) (is_set f.sriov)).0

  deploy_cudn-Covers : is_set f.cudn ≡ true → Covers deleted (deploy_cudn server f.cudn)
  unfolding deploy_cudn cudn_object
  deploy_cudn-Covers h =
      Covers-if deleted (is_empty f.cudn) (fail empty_cudn)
        (request server (create cluster_user_defined_networks "" (cudn_object f.cudn)))
        (λ _. Covers-fail deleted empty_cudn)
        (λ _. Covers-request deleted server _ (inr (cudn-Member later _ _ h)))

  deploy_udn-Covers : Covers deleted (deploy_udn server f o)
  unfolding deploy_udn deploy_l2_udn deploy_l3_udn
  deploy_udn-Covers =
      Covers-if deleted (f.udnl2 || f.udnl3)
        (if f.udnl2 then deploy_l2_udn server else deploy_l3_udn server)
        (if is_set f.cudn then deploy_cudn server f.cudn else return tt)
        (λ _.
          Covers-if deleted f.udnl2 (deploy_l2_udn server) (deploy_l3_udn server)
            (λ _. Covers-request deleted server _ (inl refl))
            (λ _. Covers-request deleted server _ (inl refl)))
        (λ _.
          Covers-if deleted (is_set f.cudn) (deploy_cudn server f.cudn) (return tt)
            deploy_cudn-Covers (λ _. Covers-return deleted tt))

  validate-Covers : Covers deleted (validate_bridge_network server f.bridge o.bridge_namespace)
  unfolding validate_bridge_network
  validate-Covers =
      Covers-if deleted (is_empty f.bridge) (return tt) _ (λ _. Covers-return deleted tt)
        (λ _. Covers->>= deleted _ _ (Covers-get deleted server _ _ _) (λ _.
          Covers->>= deleted _ _ (Covers-get deleted server _ _ _) (λ _. Covers-return deleted tt)))

  deploy_bridge-Covers : Covers deleted (deploy_bridge server f o)
  unfolding deploy_bridge deploy_nad_bridge
  deploy_bridge-Covers =
      Covers-if deleted (f.vm && is_set f.bridge) (ignoring (deploy_nad_bridge server f.bridge))
        (if is_set f.bridge && not f.vm
          then validate_bridge_network server f.bridge o.bridge_namespace
          else return tt)
        (λ _. Covers-ignoring deleted _ (Covers-request deleted server _ (inl refl)))
        (λ _.
          Covers-if deleted (is_set f.bridge && not f.vm)
            (validate_bridge_network server f.bridge o.bridge_namespace) (return tt)
            (λ _. validate-Covers) (λ _. Covers-return deleted tt))

  deploy_macvlan-Covers : Covers deleted (deploy_macvlan server f o)
  unfolding deploy_macvlan deploy_nad_macvlan
  deploy_macvlan-Covers =
      Covers-if deleted (is_set f.macvlan) (deploy_nad_macvlan server f.macvlan) (return tt)
        (λ _. Covers-request deleted server _ (inl refl)) (λ _. Covers-return deleted tt)

  config-Covers : Covers deleted (deploy_sriov_operator_config server o.sriov_node_selector)
  unfolding deploy_sriov_operator_config
  config-Covers =
      Covers->>= deleted _ _ (Covers-get deleted server _ _ _)
        (λ _. Covers-request deleted server _ tt)

  policy-Covers :
      is_set f.sriov ≡ true
      → Covers deleted (deploy_sriov_policy server f.sriov o.sriov_node_selector f.vm)
  unfolding deploy_sriov_policy sriov_policy
  policy-Covers h = Covers-request deleted server _ (inr (sriov-Members later _ _ h).1)

  network-Covers : is_set f.sriov ≡ true → Covers deleted (deploy_sriov_network server f.sriov)
  unfolding deploy_sriov_network sriov_network
  network-Covers h = Covers-request deleted server _ (inr (sriov-Members later _ _ h).0)

  deploy_sriov-Covers : Covers deleted (deploy_sriov server f o)
  unfolding deploy_sriov
  deploy_sriov-Covers =
      Covers-if deleted (is_set f.sriov) _ (return tt)
        (λ h.
          Covers->>= deleted _ _
            (Covers->>= deleted _ _ (Covers->>= deleted _ _ config-Covers (λ _. policy-Covers h))
              (λ _. network-Covers h))
            (λ _. Covers-polled_nad deleted o.nad_at))
        (λ _. Covers-return deleted tt)

  -- Whatever `Run` creates for the networks that its flags ask for, as far as it comes, is in its own
  -- namespace, or `cleanup` asks for its deletion.
  pub deploy_networks-IsCovered :
      All (IsCovered (cleanup_networks later f).0) (deploy_networks server f o).0
  unfolding deploy_networks cleanup_networks Covers
  deploy_networks-IsCovered =
      Covers->>= deleted _ _
        (Covers->>= deleted _ _
          (Covers->>= deleted _ _ deploy_udn-Covers (λ _. deploy_bridge-Covers))
          (λ _. deploy_sriov-Covers))
        (λ _. deploy_macvlan-Covers)
