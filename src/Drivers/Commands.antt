-- ===== src/Drivers/Commands.antt =====
-- The command lines that `Run` builds in pkg/drivers/*.go.
use k8s_netperf.Prelude.{
  ℕ, String, ◌<>◌, ◌&&◌, not, if◌then◌else◌, ◌==◌, List, [], ◌∷◌, ◌++◌, Result, ok, err,
}
use k8s_netperf.Prelude.Int.{above}
use k8s_netperf.Prelude.Text.{contains, itoa, show_nat}
use k8s_netperf.Config.{Config}

-- The ports of pkg/k8s/kubernetes.go.
abbrev pub netperf_server_data_port : ℕ
netperf_server_data_port = 42424

abbrev pub iperf_server_ctl_port : ℕ
iperf_server_ctl_port = 22865

abbrev pub uperf_server_ctl_port : ℕ
uperf_server_ctl_port = 30000

abbrev pub uperf_lat_server_ctl_port : ℕ
uperf_lat_server_ctl_port = 31000

abbrev pub super_netperf : String
super_netperf = "super-netperf"

abbrev pub omni_options : String
omni_options =
    "rt_latency,p99_latency,throughput,throughput_units,remote_recv_calls,local_send_calls,local_transport_retrans"

unfoldable pub netperf_options : Config → List String
netperf_options nc =
    if contains nc.profile "STREAM"
    then (if contains nc.profile "UDP"
        then "-m" ∷ itoa nc.message_size ∷ "-R" ∷ "1" ∷ []
        else "-m" ∷ itoa nc.message_size ∷ [])
    else ("-r" ∷ (itoa nc.message_size <> "," <> itoa nc.message_size) ∷ [])
      ++ (if contains nc.profile "TCP_RR" && above nc.burst 0
          then "-b" ∷ itoa nc.burst ∷ []
          else [])

unfoldable pub netperf_args : Config → String → List String
unfolding netperf_options
netperf_args nc server_ip =
    (super_netperf
      ∷ itoa nc.parallelism
      ∷ show_nat netperf_server_data_port
      ∷ "-H"
      ∷ server_ip
      ∷ "-l"
      ∷ itoa nc.duration
      ∷ "-t"
      ∷ nc.profile
      ∷ "--"
      ∷ "-k"
      ∷ omni_options
      ∷ [])
    ++ netperf_options nc

pub data IperfError : Type 0 where
  non_stream : IperfError

-- `file` is the name that `uuid.New()` went into.
unfoldable pub iperf_args : Config → String → String → Result IperfError (List String)
iperf_args nc server_ip file =
    let first : List String =
      "iperf3"
      ∷ "-J"
      ∷ "-P"
      ∷ itoa nc.parallelism
      ∷ "-c"
      ∷ server_ip
      ∷ "-t"
      ∷ itoa nc.duration
      ∷ [] in
    let size : List String =
      "-l" ∷ itoa nc.message_size ∷ "-p" ∷ show_nat iperf_server_ctl_port ∷ [] in
    let logfile : String = "--logfile=" <> file in
    if not (contains nc.profile "STREAM")
    then err non_stream
    else if contains nc.profile "UDP"
    then ok (first ++ ("-u" ∷ []) ++ size ++ ("-b" ∷ "0" ∷ logfile ∷ []))
    else ok (first ++ size ++ (logfile ∷ []))

unfoldable pub uperf_args : Config → String → List String
uperf_args nc file_path =
    if nc.profile == "TCP_STREAM_LAT"
    then "/opt/uperf-histogram/bin/uperf"
      ∷ "-v"
      ∷ "-a"
      ∷ "-R"
      ∷ "-i"
      ∷ "1"
      ∷ "-m"
      ∷ file_path
      ∷ "-P"
      ∷ show_nat uperf_lat_server_ctl_port
      ∷ "-H"
      ∷ "stdout"
      ∷ []
    else "uperf"
      ∷ "-v"
      ∷ "-a"
      ∷ "-R"
      ∷ "-i"
      ∷ "1"
      ∷ "-m"
      ∷ file_path
      ∷ "-P"
      ∷ show_nat uperf_server_ctl_port
      ∷ []

unfoldable pub ib_write_bw_args : Config → String → String → String → List String
ib_write_bw_args nc device gid server_ip =
    "stdbuf"
    ∷ "-oL"
    ∷ "-eL"
    ∷ "ib_write_bw"
    ∷ "-d"
    ∷ device
    ∷ "-x"
    ∷ gid
    ∷ "-F"
    ∷ server_ip
    ∷ "-D"
    ∷ itoa nc.duration
    ∷ []
