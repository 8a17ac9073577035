-- ===== src/Tests/Printed.antt =====
-- Results that are printed and that get their metrics.
use k8s_netperf.Prelude.{
  ℕ, true, false, none, some, List, [], ◌∷◌, All, Pairwise, ◌≡◌, refl, Result, ok, err,
}
use k8s_netperf.Metrics.Types.{Client, PromConnect}
use k8s_netperf.Results.{Data}
use k8s_netperf.Tables.{metrics_tables, tables}
use k8s_netperf.Tables.Cells.{specific_table_header}
use k8s_netperf.Tables.Widths.{IsAligned, tables-IsAligned}
use k8s_netperf.Tables.Shown.{IsSmall, tables-small}
use k8s_netperf.Report.{Prometheus, collect_metrics, collect_all}
use k8s_netperf.Report.Metered.{IsMetered, collect_all-IsMetered}
use k8s_netperf.Workload.Server.{plain}
use k8s_netperf.Workload.Execute.{prepared}
use k8s_netperf.Tests.{whole, stream}
use k8s_netperf.Tests.Stores.{statistics}
use k8s_netperf.Tests.Workloads.{decoders, flags, scenario, node, two_results}

tables-IsAligned_example : All IsAligned (tables whole statistics (λ s. s) true two_results)
tables-IsAligned_example = tables-IsAligned whole statistics (λ s. s) true two_results

-- One result of a stream.
abbrev one_result : Data ℕ
one_result = prepared whole decoders flags "" 0 stream scenario false "netperf" false (plain "")

abbrev named : List (Data ℕ)
named = one_result ∷ []

-- A profile in small letters.
abbrev small : List (Data ℕ)
small = record one_result { config = record stream { profile = "tcp_stream" } } ∷ []

tables-small_example :
    tables whole statistics (λ s. s) false small
    ≡ record { header = specific_table_header; rows = [] } ∷ metrics_tables whole false small
unfolding IsSmall prepared
tables-small_example =
    tables-small whole statistics (λ s. s) false small
      ((refl, (refl, (refl, (refl, (refl, (refl, (refl, (refl, (refl, (refl, tt)))))))))), tt)

-- Prometheus has nothing to say.
abbrev silent : Client ℕ
silent = record { query = λ _. none; query_range = λ _. none }

abbrev prometheus : Prometheus whole
prometheus = record { answers = λ _. silent; attempts = λ _ _ _. silent }

abbrev connection : PromConnect ℕ
connection = record {
  url = "https://prometheus";
  token = "";
  client = some silent;
  skip_tls_verify = true;
  openshift = true;
  microshift = false;
}

abbrev known : Data ℕ
known = record one_result { client_node_info = node; server_node_info = node }

-- One result with both nodes and one without.
abbrev metered : List (Data ℕ)
metered = known ∷ one_result ∷ []

abbrev or_metered : {E : Type 0} → Result E (List (Data ℕ)) → List (Data ℕ)
or_metered (ok rs) = rs
or_metered (err _) = []

collected : List (Data ℕ)
unfolding collect_all
collected = or_metered (collect_all whole prometheus connection metered)

collect_all-IsMetered_example : Pairwise (IsMetered whole prometheus connection) metered collected
unfolding collected collect_all collect_metrics prepared
collect_all-IsMetered_example =
    collect_all-IsMetered whole prometheus connection metered collected refl
