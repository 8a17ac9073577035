-- ===== src/Cluster/Objects.antt =====
-- The objects that pkg/k8s/kubernetes.go makes through the dynamic client, and the requests for them.
pub mod Networks
pub mod Sriov
use k8s_netperf.Prelude.{
  ℕ, String, Bool, true, false, ◌&&◌, if◌then◌else◌, ◌==◌, Option, none, some, List, [], ◌∷◌, ◌++◌,
  Result, ok, err,
}

-- An unstructured value, as far as the program writes one.
mutual
  pub data Value : Type 0 where
    text : String → Value
    num : ℕ → Value
    bool : Bool → Value
    list : Values → Value
    dict : Fields → Value

  pub data Values : Type 0 where
    end : Values
    item : Value → Values → Values

  pub data Fields : Type 0 where
    nil : Fields
    field : String → Value → Fields → Fields

-- `m[key] = value`
unfoldable pub set_field : String → Value → Fields → Fields
set_field key v nil = field key v nil
set_field key v (field k w rest) =
    let others = set_field key v rest in if k == key then field k v rest else field k w others

pub record Resource : Type 0 where
  pub group : String
  pub version : String
  pub resource : String

-- An object by what the program sets. A namespace "" is that of a resource of the whole cluster.
pub record Object : Type 0 where
  pub api_version : String
  pub kind : String
  pub name : String
  pub metadata_namespace : String
  pub annotations : List (String × String)
  pub spec : Fields

-- A request: of which resource, in which namespace, and on what.
pub data Request : Type 0 where
  get : Resource → String → String → Request
  create : Resource → String → Object → Request
  update : Resource → String → Object → Request
  delete : Resource → String → String → Request

-- What the server answers: the object that a `Get` finds, and whether a change is accepted.
pub record Server : Type 0 where
  pub find : Resource → String → String → Option Object
  pub accepts : Request → Bool

pub data Error : Type 0 where
  empty_cudn refused not_found timed_out : Error

-- The requests of a call in their order, and what it returns.
abbrev pub Requests : Type 0 → Type 0
Requests A = List Request × Result Error A

abbrev pub return : {A : Type 0} → A → Requests A
return a = ([], ok a)

abbrev pub fail : {A : Type 0} → Error → Requests A
fail e = ([], err e)

abbrev continue : {A B : Type 0} → List Request → Result Error A → (A → Requests B) → Requests B
continue made (err e) next = (made, err e)
continue made (ok a) next = let (more, r) = next a in (made ++ more, r)

infixl 5 ◌>>=◌ ◌>>◌
unfoldable pub ◌>>=◌ : {A B : Type 0} → Requests A → (A → Requests B) → Requests B
m >>= next = let (made, r) = m in continue made r next

abbrev pub ◌>>◌ : {B : Type 0} → Requests (Unit {0}) → Requests B → Requests B
m >> next = m >>= λ _. next

-- A warning in place of an error.
unfoldable pub ignoring : Requests (Unit {0}) → Requests (Unit {0})
ignoring m = let (made, r) = m in (made, ok tt)

-- One request that changes something.
unfoldable pub request : Server → Request → Requests (Unit {0})
request server r = (r ∷ [], if server.accepts r then ok tt else err refused)

unfoldable pub get_object : Server → Resource → String → String → Requests Object
get_object server res ns name =
    (get res ns name ∷ [], elim (server.find res ns name) [ none ↦ err not_found | some o ↦ ok o ])
