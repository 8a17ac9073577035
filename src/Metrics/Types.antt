-- ===== src/Metrics/Types.antt =====
-- The data of pkg/metrics/system.go, and what a Prometheus client answers.
use k8s_netperf.Prelude.{String, Bool, Option, List}

-- The embedded `corev1.NodeSystemInfo` is not read by the program.
pub record NodeInfo : Type 0 where
  pub ip : String
  pub node_name : String

pub record NodeCpu (R : Type 0) : Type 0 where
  pub idle : R
  pub user : R
  pub steal : R
  pub system : R
  pub nice : R
  pub irq : R
  pub softirq : R
  pub iowait : R
  pub vswitch_cpu : R
  pub vswitch_mem : R

pub record PodCpu (R : Type 0) : Type 0 where
  pub name : String
  pub value : R

pub record PodMem (R : Type 0) : Type 0 where
  pub name : String
  pub value : R

pub record PodValues (R : Type 0) : Type 0 where
  pub results : List (PodCpu R)
  pub mem_results : List (PodMem R)

-- A `model.SampleStream`: its labels, "" for one that is missing, and its values in time order.
pub record Stream (R : Type 0) : Type 0 where
  pub label : String → String
  pub values : List R

-- A `model.Value`. A matrix is a list of pointers, `none` for nil; a vector is a list of label
-- sets; the other kinds are not read.
pub data Value (R : Type 0) : Type 0 where
  matrix : List (Option (Stream R)) → Value R
  vector : List (String → String) → Value R
  other : Value R

-- What `prometheus.Prometheus` does for a query, at the times that the call fixes.
pub record Client (R : Type 0) : Type 0 where
  pub query : String → Option (Value R)
  pub query_range : String → Option (Value R)

-- The `Client` field is a pointer.
pub record PromConnect (R : Type 0) : Type 0 where
  pub url : String
  pub token : String
  pub client : Option (Client R)
  pub skip_tls_verify : Bool
  pub openshift : Bool
  pub microshift : Bool
