-- ===== src/Tests/Cli.antt =====
-- Flags of the command.
use k8s_netperf.Prelude.{◌≤◌, true, false, none, some, refl, All, length}
use k8s_netperf.Flags.{Flags, check_flags, requested_drivers}
use k8s_netperf.Flags.Exclusive.{networks, check_flags-networks}
use k8s_netperf.Flags.Requests.{IsKnown, requested_drivers-IsKnown}

abbrev on_layer3 : Flags
on_layer3 = record {
  netperf = true;
  netperf_changed = false;
  iperf3 = true;
  uperf = true;
  ib_write_bw = none;
  udnl2 = false;
  udnl3 = true;
  cudn = "";
  host_net_only = false;
  privileged = false;
  pod = true;
  vm = true;
  bridge = "";
  sriov = "";
  macvlan = "";
}

abbrev on_device : Flags
on_device = record on_layer3 {
  ib_write_bw = some "mlx5_0:0";
  udnl3 = false;
  host_net_only = true;
  privileged = true;
  vm = false;
}

check_flags-networks_example : networks on_layer3 ≤ 1
unfolding check_flags
check_flags-networks_example = check_flags-networks on_layer3 refl

requested_drivers-IsKnown_example :
    (1 ≤ length (requested_drivers on_layer3)) × All IsKnown (requested_drivers on_layer3)
unfolding check_flags
requested_drivers-IsKnown_example = requested_drivers-IsKnown on_layer3 refl
