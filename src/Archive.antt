-- ===== src/Archive.antt =====
-- pkg/archive/archive.go: the documents and the CSV files that the results are stored in.
pub mod Docs
pub mod Csv
pub mod Widths
use k8s_netperf.Prelude.{ℕ, String, Bool, List, if◌then◌else◌}
use k8s_netperf.Prelude.Int.{above}
use k8s_netperf.Float.{Float64}
use k8s_netperf.Results.{Data}

-- What `Average` and `ConfidenceInterval` return, which call libraries: a mean, whether its error
-- is nil, and the two bounds.
pub record Statistics (R : Type 0) : Type 0 where
  pub average : List R → R × Bool
  pub confidence : List R → R × R

-- `ScenarioResults`; its metadata is of any type.
pub record ScenarioResults (R M : Type 0) : Type 0 where
  pub results : List (Data R)
  pub virt : Bool
  pub version : String
  pub git_commit : String
  pub metadata : M

module _ (F : Float64) (S : Statistics F.Real) where
  open F use {Real, of_ℕ}

  -- `lo` and `hi`: zero with fewer than two samples.
  unfoldable pub interval : Data Real → Real × Real
  interval row =
      if above row.config.samples 1 then S.confidence row.throughput_summary else (of_ℕ 0, of_ℕ 0)
