-- ===== src/Drivers/UperfProfile.antt =====
-- The profile file that `createUperfProfile` of pkg/drivers/uperf.go writes before a run.
use k8s_netperf.Prelude.{ℕ, String, ◌<>◌, if◌then◌else◌, ◌==◌, List, [], ◌∷◌}
use k8s_netperf.Prelude.Int.{ℤ, pos, is_num}
use k8s_netperf.Prelude.Text.{contains, itoa, show_nat}
use k8s_netperf.Config.{Config}

abbrev pub uperf_server_data_port : ℕ
uperf_server_data_port = 30001

abbrev pub uperf_lat_server_data_port : ℕ
uperf_lat_server_data_port = 31001

pub record Profile : Type 0 where
  pub content : String
  pub path : String

unfoldable pub protocol_of : Config → String
protocol_of nc = if contains nc.profile "UDP" then "udp" else "tcp"

-- The number of bytes to read, 1 if none is given.
unfoldable pub read_size : Config → ℤ
read_size nc = if is_num nc.message_read_size 0 then pos 1 else nc.message_read_size

-- Lines, each behind the indentation of the source's raw literal.
lines : String → List String → String
lines indent [] = ""
lines indent (l ∷ ls) = "\n" <> indent <> l <> lines indent ls

-- What the three profiles share, around the flow of the timed transaction.
profile_text : String → String → String → Config → String → ℕ → List String → String → String
unfolding lines protocol_of
profile_text first indent name nc server_ip port flow last =
    "<?xml version=1.0?>"
    <> first
    <> lines indent (
        ("<profile name=\""
          <> name
          <> "-"
          <> protocol_of nc
          <> "-"
          <> itoa nc.message_size
          <> "-"
          <> itoa nc.parallelism
          <> "\">")
        ∷ ("<group nprocs=\"" <> itoa nc.parallelism <> "\">")
        ∷ "<transaction iterations=\"1\">"
        ∷ ("  <flowop type=\"connect\" options=\"remotehost="
            <> server_ip
            <> " protocol="
            <> protocol_of nc
            <> " port="
            <> show_nat port
            <> "\"/>")
        ∷ "</transaction>"
        ∷ ("<transaction duration=\"" <> itoa nc.duration <> "\">")
        ∷ [])
    <> lines indent flow
    <> lines indent (
        "</transaction>"
        ∷ "<transaction iterations=\"1\">"
        ∷ "  <flowop type=disconnect />"
        ∷ "</transaction>"
        ∷ ("</group>" <> last)
        ∷ "</profile>"
        ∷ [])

path_of : String → Config → String
unfolding protocol_of
path_of start nc =
    start <> protocol_of nc <> "-" <> itoa nc.message_size <> "-" <> itoa nc.parallelism

lat_profile : Config → String → Profile
unfolding profile_text path_of read_size
lat_profile nc server_ip = record {
  content =
      profile_text "" "\t\t\t" "stream" nc server_ip uperf_lat_server_data_port
        (("  <flowop type=write options=\"count=16 size=" <> itoa nc.message_size <> "\"/>")
          ∷ ("  <flowop type=read options=\"count=16 size=" <> itoa (read_size nc) <> "\"/>")
          ∷ [])
        "";
  path = path_of "/tmp/uperf-stream-lat-" nc;
}

stream_profile : Config → String → Profile
unfolding profile_text path_of
stream_profile nc server_ip = record {
  content =
      profile_text "" "\t\t\t" "stream" nc server_ip uperf_server_data_port
        (("  <flowop type=write options=\"count=16 size=" <> itoa nc.message_size <> "\"/>") ∷ [])
        "";
  path = path_of "/tmp/uperf-stream-" nc;
}

rr_profile : Config → String → Profile
unfolding profile_text path_of
rr_profile nc server_ip = record {
  content =
      profile_text "\t\t" "\t\t" "rr" nc server_ip uperf_server_data_port
        (("  <flowop type=write options=\"size=" <> itoa nc.message_size <> "\"/>")
          ∷ ("  <flowop type=read  options=\"size=" <> itoa nc.message_size <> "\"/>\t\t  ")
          ∷ [])
        "\t\t";
  path = path_of "/tmp/uperf-rr-" nc;
}

unfoldable pub uperf_profile : Config → String → Profile
unfolding lat_profile stream_profile rr_profile
uperf_profile nc server_ip =
    if contains nc.profile "STREAM"
    then (if nc.profile == "TCP_STREAM_LAT"
        then lat_profile nc server_ip
        else stream_profile nc server_ip)
    else rr_profile nc server_ip

-- The command that writes it.
unfoldable pub write_profile_cmd : Profile → String
write_profile_cmd p = "echo '" <> p.content <> "' > " <> p.path
