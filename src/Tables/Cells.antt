-- ===== src/Tables/Cells.antt =====
-- The headers and the cells of the tables of pkg/results/result.go.
use k8s_netperf.Prelude.{ℕ, zero, suc, String, [], ◌∷◌, ◌++◌}
use k8s_netperf.Prelude.Text.{itoa, format_bool}
use k8s_netperf.Results.{Data}
use k8s_netperf.Archive.Csv.{Row}

-- `%.20s`: at most twenty characters.
unfoldable pub first_characters : ℕ → String → String
first_characters zero s = ""
first_characters (suc n) String.[] = ""
first_characters (suc n) (String.◌∷◌ c s) = String.◌∷◌ c (first_characters n s)

unfoldable pub pod_header : Row
pod_header =
    "Result Type" ∷ "Driver" ∷ "Role" ∷ "Scenario" ∷ "Parallelism" ∷ "Host Network" ∷ "Virt mode"
    ∷ "Service" ∷ "External Server" ∷ "UDN Info" ∷ "Bridge Info" ∷ "SR-IOV Info" ∷ "Macvlan Info"
    ∷ "Message Size" ∷ "Burst" ∷ "Same node" ∷ "Pod" ∷ "Utilization" ∷ []

unfoldable pub node_header : Row
node_header =
    "Result Type" ∷ "Driver" ∷ "Role" ∷ "Scenario" ∷ "Parallelism" ∷ "Host Network" ∷ "Virt mode"
    ∷ "Service" ∷ "External Server" ∷ "UDN Info" ∷ "Bridge Info" ∷ "SR-IOV Info" ∷ "Macvlan Info"
    ∷ "Message Size" ∷ "Burst" ∷ "Same node" ∷ "Idle CPU" ∷ "User CPU" ∷ "System CPU" ∷ "Steal CPU"
    ∷ "IOWait CPU" ∷ "Nice CPU" ∷ "SoftIRQ CPU" ∷ "IRQ CPU" ∷ []

unfoldable pub specific_table_header : Row
specific_table_header =
    "Type" ∷ "Driver" ∷ "Scenario" ∷ "Parallelism" ∷ "Host Network" ∷ "Virt mode" ∷ "Service"
    ∷ "External Server" ∷ "UDN Info" ∷ "Bridge Info" ∷ "SR-IOV Info" ∷ "Macvlan Info"
    ∷ "Message Size" ∷ "Burst" ∷ "Same node" ∷ "Duration" ∷ "Samples" ∷ "Avg value" ∷ []

unfoldable pub throughput_header : Row
throughput_header =
    "Result Type" ∷ "Driver" ∷ "Scenario" ∷ "Parallelism" ∷ "Host Network" ∷ "Virt mode" ∷ "Service"
    ∷ "External Server" ∷ "UDN Info" ∷ "Bridge Info" ∷ "SR-IOV Info" ∷ "Macvlan Info"
    ∷ "Message Size" ∷ "Burst" ∷ "Same node" ∷ "Duration" ∷ "Samples" ∷ "Avg value"
    ∷ "95% Confidence Interval" ∷ []

-- The table of stream latencies has no column for the macvlan network.
unfoldable pub stream_latency_header : Row
stream_latency_header =
    "Result Type" ∷ "Driver" ∷ "Scenario" ∷ "Parallelism" ∷ "Host Network" ∷ "Virt mode" ∷ "Service"
    ∷ "External Server" ∷ "UDN Info" ∷ "Bridge Info" ∷ "SR-IOV Info" ∷ "Message Size" ∷ "Burst"
    ∷ "Same node" ∷ "Duration" ∷ "Samples" ∷ "Avg Latency" ∷ "Avg 50%tile value"
    ∷ "Avg 99%tile value" ∷ []

unfoldable pub rr_latency_header : Row
rr_latency_header =
    "Result Type" ∷ "Driver" ∷ "Scenario" ∷ "Parallelism" ∷ "Host Network" ∷ "Virt mode" ∷ "Service"
    ∷ "External Server" ∷ "UDN Info" ∷ "Bridge Info" ∷ "SR-IOV Info" ∷ "Macvlan Info"
    ∷ "Message Size" ∷ "Burst" ∷ "Same node" ∷ "Duration" ∷ "Samples" ∷ "Avg 99%tile value" ∷ []

module _ {R : Type 0} where
  -- The cells that every row has, in three runs of columns.
  unfoldable pub network_cells : Data R → Row
  network_cells r =
      itoa r.config.parallelism
      ∷ format_bool r.host_network
      ∷ format_bool r.virt
      ∷ format_bool r.service
      ∷ format_bool r.external_server
      ∷ r.udn_info
      ∷ r.bridge_info
      ∷ r.sriov_info
      ∷ []

  unfoldable pub size_cells : Data R → Row
  size_cells r = itoa r.config.message_size ∷ itoa r.config.burst ∷ format_bool r.same_node ∷ []

  unfoldable pub run_cells : Data R → Row
  run_cells r = itoa r.config.duration ∷ itoa r.config.samples ∷ []

  -- The cells of a row on a pod or a node, up to the last of these.
  unfoldable pub role_cells : String → String → Data R → Row
  unfolding network_cells size_cells
  role_cells kind role r =
      kind
      ∷ r.driver
      ∷ role
      ∷ r.config.profile
      ∷ (network_cells r ++ (r.macvlan_info ∷ size_cells r))

  -- The cells of a row on a test.
  unfoldable pub test_cells : String → Data R → Row
  unfolding network_cells size_cells run_cells
  test_cells kind r =
      kind
      ∷ r.driver
      ∷ r.config.profile
      ∷ (network_cells r ++ (r.macvlan_info ∷ (size_cells r ++ run_cells r)))

  unfoldable pub stream_latency_cells : Data R → Row
  unfolding network_cells size_cells run_cells
  stream_latency_cells r =
      "Stream Latency Results"
      ∷ r.driver
      ∷ r.config.profile
      ∷ (network_cells r ++ (size_cells r ++ run_cells r))
