-- ===== src/Tests/Configs.antt =====
-- Test configurations and their files.
use mathlib.Core.List.{Permᴰ}
use k8s_netperf.Prelude.{ℕ, String, Option, some, List, [], ◌∷◌, ◌≡◌, ◌↔◌, refl, ok}
use k8s_netperf.Prelude.Int.{pos}
use k8s_netperf.Config.{Config, valid_config, parse_conf}
use k8s_netperf.Config.Profile.{match_profile}
use k8s_netperf.Config.Validity.{IsRunnable, valid_config-IsRunnable}
use k8s_netperf.Config.Order.{parse_conf_order}
use k8s_netperf.Tests.{stream}

abbrev longer : Config
longer = record stream { duration = pos 60; profile = "udp_rr" }

valid_config-IsRunnable_example : (valid_config stream ≡ ok tt) ↔ IsRunnable stream
valid_config-IsRunnable_example = valid_config-IsRunnable stream

-- A file of two tests, met in either order.
abbrev read_file : String → Option ℕ
read_file fn = some 0

abbrev forwards : ℕ → Option (List Config)
forwards _ = some (stream ∷ longer ∷ [])

abbrev backwards : ℕ → Option (List Config)
backwards _ = some (longer ∷ stream ∷ [])

parse_conf_order_example :
    (ts : List Config) × (parse_conf read_file backwards "netperf.yml" ≡ ok ts)
    × Permᴰ (stream ∷ longer ∷ []) ts
unfolding parse_conf valid_config match_profile
parse_conf_order_example =
    parse_conf_order read_file forwards backwards "netperf.yml" (stream ∷ longer ∷ [])
      (λ buf. Permᴰ.swap refl refl) refl
