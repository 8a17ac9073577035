-- ===== src/Drivers/Parse/Named.antt =====
-- Which driver a parsed sample names (pkg/drivers).
use k8s_netperf.Prelude.{
  String, Bool, Option, some, Option-cases, List, [], ◌∷◌, Result, ok, err, ◌>>=◌, >>=-eq-ok,
  length, ltb, ◌==◌, ◌≡◌, ◌∙◌, refl, subst, arith, Bool-cases, inl, inr,
}
use k8s_netperf.Prelude.Text.{split}
use k8s_netperf.Float.{Float64}
use k8s_netperf.Config.{Config}
use k8s_netperf.Drivers.{Sample, iperf3, uperf, ib_write_bw, netperf, Driver, Kind}
use k8s_netperf.Drivers.Netperf.{Error, Scan, scan_pair, scan_parts, scan_lines, finish, start}
use k8s_netperf.Drivers.Netperf as Netperf
use k8s_netperf.Drivers.Iperf as Iperf
use k8s_netperf.Drivers.Uperf as Uperf
use k8s_netperf.Drivers.IbWriteBw as IbWriteBw
use k8s_netperf.Drivers.IbWriteBw.{first_bandwidth}
use k8s_netperf.Drivers.Iperf.{IperfResult}
use k8s_netperf.Drivers.Parse.{Libraries, parse_as, parse_with, without_error}

module _ (F : Float64) where
  open F use {Real}

  scan_pair-driver :
      (key value : String) (t t' : Scan Real)
      → scan_pair F key value t ≡ ok t'
      → t'.sample.driver ≡ t.sample.driver
  unfolding scan_pair
  scan_pair-driver key value t t' h = ground (arith, h)

  scan_parts-driver :
      (parts : List String) (t t' : Scan Real)
      → scan_parts F parts t ≡ ok t'
      → t'.sample.driver ≡ t.sample.driver
  unfolding scan_parts
  scan_parts-driver [] t t' h = cc
  scan_parts-driver (key ∷ []) t t' h = cc
  scan_parts-driver (key ∷ value ∷ rest) t t' h = scan_pair-driver key value t t' h

  scan_lines-driver :
      (lines : List String) (t t' : Scan Real)
      → scan_lines F lines t ≡ ok t'
      → t'.sample.driver ≡ t.sample.driver
  unfolding scan_lines
  scan_lines-driver [] t t' h = cc
  scan_lines-driver (line ∷ lines) t t' h =
      let (t1, first, rest) = >>=-eq-ok (scan_parts F (split b'=' line) t) _ h in
      scan_lines-driver lines t1 t' rest ∙ scan_parts-driver (split b'=' line) t t1 first

  finish-driver : (t : Scan Real) (s : Sample Real) → finish F t ≡ ok s → s.driver ≡ t.sample.driver
  unfolding finish
  finish-driver t s h = ground (arith, h)

  netperf-driver :
      (name stdout : String) (s : Sample Real)
      → Netperf.parse_results F name stdout ≡ ok s
      → s.driver ≡ name
  unfolding Netperf.parse_results start
  netperf-driver name stdout s h =
      let lines = split b'\n' stdout in
      elim (Bool-cases (ltb (length lines) 5)) [
        | inl e ↦ let never : ⊥ = ground (arith, e, h) in absurd never
        | inr e ↦
            let chain : (scan_lines F lines (start F name) >>= finish F) ≡ ok s =
              ground (arith, e, h) in
            let (t, scanned, finished) =
              >>=-eq-ok (scan_lines F lines (start F name)) (finish F) chain in
            finish-driver t s finished ∙ scan_lines-driver lines (start F name) t scanned
      ]

  ib_write_bw-driver :
      (scans_int : String → Bool) (scan_float : String → Option Real) (name stdout : String)
      (s : Sample Real)
      → IbWriteBw.parse_results F scans_int scan_float name stdout ≡ ok s
      → s.driver ≡ name
  unfolding IbWriteBw.parse_results
  ib_write_bw-driver scans_int scan_float name stdout s h =
      elim (Option-cases (first_bandwidth F scans_int scan_float (split b'\n' stdout))) [
        | inl e ↦ let never : ⊥ = ground (arith, e, h) in absurd never
        | inr (bw, e) ↦ ground (arith, e, h)
      ]

  iperf3-driver :
      (decode : String → IperfResult Real) (name stdout : String)
      → (Iperf.parse_results F decode name stdout).driver ≡ name
  unfolding Iperf.parse_results
  iperf3-driver decode name stdout = ground arith

  uperf-driver :
      (L : Libraries Real) (name profile nc_profile stdout : String)
      → (Uperf.parse_results F L.mean L.percentile name profile nc_profile stdout).driver ≡ name
  unfolding Uperf.parse_results
  uperf-driver L name profile nc_profile stdout =
      elim (Bool-cases (nc_profile == "TCP_STREAM_LAT")) [ inl e ↦ rw e refl | inr e ↦ rw e refl ]

  without_error-some :
      {E : Type 0} (r : Result E (Sample Real)) (s : Sample Real)
      → without_error r ≡ some s
      → r ≡ ok s
  unfolding without_error
  without_error-some (err e) s h = cc
  without_error-some (ok t) s h = cc

  -- Whatever the driver, a sample that its parser gives names that driver.
  parse_with-driver :
      (L : Libraries Real) (d : Driver) (nc : Config) (stdout : String) (s : Sample Real)
      → parse_with F L d nc stdout ≡ some s
      → s.driver ≡ d.driver_name
  unfolding parse_with parse_as
  parse_with-driver L d nc stdout s h = by_kind d.kind h
    where
      by_kind : (k : Kind) → parse_as F L k d nc stdout ≡ some s → s.driver ≡ d.driver_name
      by_kind netperf e = netperf-driver d.driver_name stdout s (without_error-some _ s e)
      by_kind iperf3 e =
          let same : Iperf.parse_results F L.decode_iperf d.driver_name stdout ≡ s = cc e in
          subst (λ (o : Sample Real). o.driver ≡ d.driver_name) same
            (iperf3-driver L.decode_iperf d.driver_name stdout)
      by_kind uperf e =
          let same : Uperf.parse_results F L.mean L.percentile d.driver_name d.test_config.profile
                nc.profile stdout
              ≡ s =
            cc e in
          subst (λ (o : Sample Real). o.driver ≡ d.driver_name) same
            (uperf-driver L d.driver_name d.test_config.profile nc.profile stdout)
      by_kind ib_write_bw e =
          ib_write_bw-driver L.scans_int L.scan_float d.driver_name stdout s
            (without_error-some _ s e)
