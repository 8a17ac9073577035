-- ===== src/Sut/Commands.antt =====
-- The commands of the server's containers, of `BuildSUT` (pkg/k8s/kubernetes.go).
use Prim.Native.Char.{code}
use k8s_netperf.Prelude.{
  String, ◌<>◌, Bool, true, false, ◌&&◌, if◌then◌else◌, ◌==◌, Option, none, some, List, [], ◌∷◌,
  ◌++◌, any, eqb,
}
use k8s_netperf.Prelude.Int.{ℤ, pos}
use k8s_netperf.Prelude.Text.{split, trim_space, itoa}
use k8s_netperf.Config.{Config}
use k8s_netperf.Config.Profile.{fold}
use k8s_netperf.Cluster.Services.{contains_driver}

-- `strings.EqualFold(s, t)` for a text `t` in small letters.
unfoldable pub equal_fold : String → String → Bool
equal_fold String.[] String.[] = true
equal_fold (String.◌∷◌ c s) (String.◌∷◌ d t) = eqb (fold (code c)) (code d) && equal_fold s t
equal_fold _ _ = false

abbrev pub bash : String → List String
bash command = "/bin/bash" ∷ "-c" ∷ command ∷ []

command_if : Bool → String → List (List String)
command_if b command = if b then bash command ∷ [] else []

unfoldable pub needs_histogram : List Config → Bool
needs_histogram configs = any (λ c. c.profile == "TCP_STREAM_LAT") configs

-- The duration of the first test of UDP streams.
unfoldable pub ib_duration : List Config → ℤ
unfolding equal_fold
ib_duration [] = pos 10
ib_duration (c ∷ cs) =
    let rest = ib_duration cs in if equal_fold c.profile "udp_stream" then c.duration else rest

-- The server of ib_write_bw in a loop. `none` is a fatal error.
unfoldable pub ib_command : String → List Config → Option String
unfolding split trim_space ib_duration
ib_command params configs = elim (split b':' params) [
  | device ∷ gid ∷ [] ↦ some (
      "while true; do stdbuf -oL -eL ib_write_bw -d "
      <> trim_space device
      <> " -x "
      <> trim_space gid
      <> " -F -D "
      <> itoa (ib_duration configs)
      <> "; sleep 1; done")
  | _ ↦ none
]

-- The servers of pods for netperf, iperf3 and uperf.
unfoldable pub plain_commands : List String → List Config → List (List String)
unfolding command_if needs_histogram
plain_commands drivers configs =
    let uperf = contains_driver drivers "uperf" in
    command_if (contains_driver drivers "netperf") "netserver && sleep 10000000"
    ++ (command_if (contains_driver drivers "iperf3") "iperf3 -s -p 22865 && sleep 10000000"
        ++ (command_if (uperf && needs_histogram configs)
              "/opt/uperf-histogram/bin/uperf -s -v -P 31000 && sleep 10000000"
            ++ command_if uperf "uperf -s -v -P 30000 && sleep 10000000"))

unfoldable pub server_commands : List String → List Config → String → Option (List (List String))
unfolding plain_commands
server_commands drivers configs ib_params =
    let plain = plain_commands drivers configs in
    if contains_driver drivers "ib_write_bw"
    then elim (ib_command ib_params configs) [
      | none ↦ none
      | some command ↦ some (plain ++ (bash command ∷ []))
    ]
    else some plain
