-- ===== src/Tests/Stores.antt =====
-- Results that are archived.
use k8s_netperf.Prelude.{ℕ, String, true, false, All, last_or}
use k8s_netperf.Archive.{Statistics, ScenarioResults}
use k8s_netperf.Archive.Csv.{prom_rows}
use k8s_netperf.Archive.Widths.{Fits, prom_rows-Fits}
use k8s_netperf.Tests.{whole}
use k8s_netperf.Tests.Workloads.{two_results}

abbrev pub statistics : Statistics ℕ
statistics = record { average = λ xs. (last_or 0 xs, true); confidence = λ xs. (1, 2) }

abbrev scenario_results : ScenarioResults ℕ String
scenario_results = record {
  results = two_results;
  virt = false;
  version = "v1";
  git_commit = "abc";
  metadata = "cluster";
}

prom_rows-Fits_example : All Fits (prom_rows whole statistics two_results)
prom_rows-Fits_example = prom_rows-Fits whole statistics two_results
