-- ===== src/Drivers/IbWriteBw.antt =====
-- pkg/drivers/ibwritebw.go: the nic:gid parameter and the output of ib_write_bw.
pub mod Device
use k8s_netperf.Prelude.{
  String, Bool, ◌||◌, if◌then◌else◌, List, [], ◌∷◌, Option, none, some, Result, ok, err,
}
use k8s_netperf.Prelude.Text.{contains, is_empty, split, trim_space, fields}
use k8s_netperf.Float.{Float64}
use k8s_netperf.Drivers.{Sample, zero_sample}

pub data Error : Type 0 where
  missing_parameter bad_format empty_part no_bandwidth : Error

unfoldable pub check_parts : String → String → Result Error (String × String)
check_parts device gid =
    if is_empty device || is_empty gid then err empty_part else ok (device, gid)

unfoldable pub two_parts : List String → Result Error (String × String)
unfolding check_parts
two_parts (device ∷ gid ∷ []) = check_parts (trim_space device) (trim_space gid)
two_parts _ = err bad_format

unfoldable pub parse_nic_gid : String → Result Error (String × String)
unfolding two_parts split trim_space
parse_nic_gid param =
    if is_empty (trim_space param) then err missing_parameter else two_parts (split b':' param)

module _ (F : Float64) where
  open F use {Real}

  -- `fmt.Sscanf` is a parameter: whether "%d" reads a number, and what "%f" reads.
  module _ (scans_int : String → Bool) (scan_float : String → Option Real) where
    -- The fourth field, if the first is a number.
    bandwidth : List String → Option Real
    bandwidth (size ∷ _ ∷ _ ∷ bw ∷ rest) = if scans_int size then scan_float bw else none
    bandwidth _ = none

    unfoldable pub read_line : String → Option Real
    unfolding bandwidth trim_space fields
    read_line raw =
        let line = trim_space raw in
        if contains line "#bytes" || contains line "---" || is_empty line
        then none
        else bandwidth (fields line)

    unfoldable pub first_bandwidth : List String → Option Real
    unfolding read_line
    first_bandwidth [] = none
    first_bandwidth (line ∷ lines) = elim (read_line line) [
      | none ↦ first_bandwidth lines
      | some bw ↦ some bw
    ]

    unfoldable pub parse_results : String → String → Result Error (Sample Real)
    unfolding first_bandwidth split
    parse_results driver_name stdout = elim (first_bandwidth (split b'\n' stdout)) [
      | none ↦ err no_bandwidth
      | some bw ↦
          ok (record (zero_sample F) { driver = driver_name; metric = "MiB/s"; throughput = bw })
    ]
