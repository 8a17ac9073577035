-- ===== src/Vms/CloudInit.antt =====
-- The cloud-init scripts of pkg/k8s/kubevirt.go.
use k8s_netperf.Prelude.{String, ◌<>◌, List, [], ◌∷◌}

unfoldable pub lines : List String → String
lines [] = ""
lines (l ∷ ls) = l <> "\n" <> lines ls

-- Up to the authorised key, which the two scripts write in another order.
client_user : List String
client_user =
    "#cloud-config" ∷ "users:" ∷ "  - name: fedora" ∷ "    groups: sudo" ∷ "    shell: /bin/bash"
    ∷ "    sudo: ['ALL=(ALL) NOPASSWD:ALL']" ∷ "    ssh_deletekeys: false"
    ∷ "    ssh_authorized_keys:" ∷ []

server_user : List String
server_user =
    "#cloud-config" ∷ "users:" ∷ "  - name: fedora" ∷ "    ssh_deletekeys: false"
    ∷ "    groups: sudo" ∷ "    shell: /bin/bash" ∷ "    sudo: ['ALL=(ALL) NOPASSWD:ALL']"
    ∷ "    ssh_authorized_keys:" ∷ []

-- From the password to the checkout of netperf.
packages : List String
packages =
    "chpasswd:"
    ∷ "  list: |"
    ∷ "    fedora:fedora"
    ∷ "  expire: False"
    ∷ "runcmd:"
    ∷ "  - export HOME=/home/fedora"
    ∷ ("  - until dnf install -y --nodocs uperf iperf3 git ethtool automake gcc bc "
        <> "lksctp-tools-devel texinfo --enablerepo=*; do sleep 3; done")
    ∷ "  - git clone https://github.com/HewlettPackard/netperf.git"
    ∷ "  - cd netperf"
    ∷ "  - git reset --hard 3bc455b23f901dae377ca0a558e1e32aa56b31c4"
    ∷ ("  - curl -o netperf.diff https://raw.githubusercontent.com/cloud-bulldozer/k8s-netperf/"
        <> "main/containers/netperf.diff")
    ∷ []

client_commands : List String
client_commands =
    "  - git apply netperf.diff"
    ∷ "  - ./autogen.sh"
    ∷ "  - ./configure --enable-sctp=yes --enable-demo=yes"
    ∷ "  - make && make install"
    ∷ "  - cd"
    ∷ ("  - curl -o /usr/bin/super-netperf https://raw.githubusercontent.com/cloud-bulldozer/"
        <> "k8s-netperf/main/containers/super-netperf")
    ∷ "  - chmod 0777 /usr/bin/super-netperf"
    ∷ []

-- The ports of uperf and iperf3 are written in.
server_commands : List String
server_commands =
    "  - git apply netperf.diff " ∷ "  - ./autogen.sh "
    ∷ "  - ./configure --enable-sctp=yes --enable-demo=yes " ∷ "  - make && make install" ∷ "  - cd"
    ∷ "  - uperf -s -v -P 30000 &" ∷ "  - iperf3 -s -p 22865 &" ∷ "  - netserver &" ∷ []

abbrev key_line : String → String
key_line key = "      - " <> key <> "\n"

unfoldable pub client_script : String → String
unfolding lines client_user packages client_commands
client_script key = lines client_user <> key_line key <> lines packages <> lines client_commands

unfoldable pub server_script : String → String
unfolding lines server_user packages server_commands
server_script key = lines server_user <> key_line key <> lines packages <> lines server_commands
