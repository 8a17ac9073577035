-- ===== src/Config.antt =====
-- pkg/config/config.go: what a test configuration is, when it is valid, and the two file formats.
pub mod Profile
pub mod Validity
pub mod Order
use k8s_netperf.Prelude.{
  String, Option, none, some, Bool, true, false, not, List, [], ◌∷◌, ◌++◌, if◌then◌else◌, Result,
  ok, err,
}
use k8s_netperf.Prelude.Int.{ℤ, below}
use Profile.{match_profile}

pub record Config : Type 0 where
  pub parallelism : ℤ
  pub duration : ℤ
  pub profile : String
  pub samples : ℤ
  pub message_size : ℤ
  pub message_read_size : ℤ
  pub burst : ℤ
  pub service : Bool
  pub metric : String
  pub across_az : Bool

-- The errors, by what their messages say.
pub data Error : Type 0 where
  unknown_profile bad_duration bad_samples bad_messagesize bad_parallelism : Error
  read_failed yaml_failed : Error

-- `(true, nil)` is `ok tt`, and `(false, e)` is `err e`.
unfoldable pub valid_config : Config → Result Error (Unit {0})
valid_config cfg =
    if not (match_profile cfg.profile)
    then err unknown_profile
    else if below cfg.duration 1
    then err bad_duration
    else if below cfg.samples 1
    then err bad_samples
    else if below cfg.message_size 1
    then err bad_messagesize
    else if below cfg.parallelism 1
    then err bad_parallelism
    else ok tt

-- The loop over the values of a decoded map, in the order in which it meets them.
pub collect : List Config → List Config → Result Error (List Config)
collect tests [] = ok tests
collect tests (value ∷ rest) = elim (valid_config value) [
  | ok _ ↦ collect (tests ++ (value ∷ [])) rest
  | err e ↦ err e
]

-- The two nested loops over a map of lists.
pub collect_groups : List Config → List (List Config) → Result Error (List Config)
unfolding collect
collect_groups tests [] = ok tests
collect_groups tests (cf ∷ rest) = elim (collect tests cf) [
  | ok tests' ↦ collect_groups tests' rest
  | err e ↦ err e
]

-- From the error of `yaml.Unmarshal` to the end of the function.
pub from_map : Option (List Config) → Result Error (List Config)
from_map none = err yaml_failed
from_map (some c) = collect [] c

pub from_groups : Option (List (List Config)) → Result Error (List Config)
from_groups none = err yaml_failed
from_groups (some c) = collect_groups [] c

-- `os.ReadFile` and `yaml.Unmarshal` are parameters. The first decodes a map of configurations and
-- the second a map of lists; both give the values in an order of the map's iteration.
module _ {File : Type 0} (read_file : String → Option File) where
  unfoldable pub parse_conf : (File → Option (List Config)) → String → Result Error (List Config)
  unfolding from_map collect
  parse_conf unmarshal fn = elim (read_file fn) [
    | none ↦ err read_failed
    | some buf ↦ from_map (unmarshal buf)
  ]

  unfoldable pub parse_v2_conf :
      (File → Option (List (List Config))) → String → Result Error (List Config)
  unfolding from_groups collect_groups
  parse_v2_conf unmarshal fn = elim (read_file fn) [
    | none ↦ err read_failed
    | some buf ↦ from_groups (unmarshal buf)
  ]
