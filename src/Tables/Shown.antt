-- ===== src/Tables/Shown.antt =====
-- Which tests the printed tables of pkg/results/result.go show.
use Prim.Native.Char.{Char, code}
use k8s_netperf.Prelude.{
  ◌+◌, String, Bool, true, false, not, ◌&&◌, List, [], ◌∷◌, All, length, length-append, to_ℕ, leb,
  ◌≡◌, refl, subst, sym, ◌⊎◌, inl, inr, arith,
}
use k8s_netperf.Prelude.Text.{contains, has_prefix, is_empty}
use k8s_netperf.Float.{Float64}
use k8s_netperf.Results.{Data, check_results}
use k8s_netperf.Archive.{Statistics}
use k8s_netperf.Archive.Csv.{Row, row_if}
use k8s_netperf.Tables.{
  specific_rows, show_specific_results, throughput_rows, render_results, table_if,
  show_stream_result, show_rr_result, show_latency_result, metrics_tables, tables,
}
use k8s_netperf.Tables.Cells.{specific_table_header}

abbrev pub OneOf : List String → String → Type 0
OneOf [] s = ⊥
OneOf (t ∷ ts) s = (s ≡ t) ⊎ OneOf ts s

-- The names that `validConfig` looks for, in capitals.
abbrev pub test_names : List String
test_names =
    "TCP_STREAM_LAT" ∷ "TCP_STREAM" ∷ "UDP_STREAM" ∷ "TCP_RR" ∷ "UDP_RR" ∷ "TCP_CRR" ∷ "UDP_CRR"
    ∷ "SCTP_STREAM" ∷ "SCTP_RR" ∷ "SCTP_CRR" ∷ []

All-OneOf :
    (P : String → Type 0) (names : List String) (s : String) → All P names → OneOf names s → P s
All-OneOf P [] s h one = elim one [ ]
All-OneOf P (t ∷ ts) s h (inl e) = subst P (sym e) h.0
All-OneOf P (t ∷ ts) s h (inr one) = All-OneOf P ts s h.1 one

abbrev InOneTable : String → Type 0
InOneTable p = to_ℕ (contains p "STREAM") + to_ℕ (contains p "RR") ≡ 1

test_names-InOneTable : (p : String) → OneOf test_names p → InOneTable p
unfolding contains has_prefix
test_names-InOneTable p =
    All-OneOf InOneTable test_names p
      (refl, (refl, (refl, (refl, (refl, (refl, (refl, (refl, (refl, (refl, tt))))))))))

length-row_if : (b : Bool) (row : Row) → length (row_if b row) ≡ to_ℕ b
unfolding row_if
length-row_if true row = refl
length-row_if false row = refl

-- A result of one of the tests that names its driver.
unfoldable pub IsNamed : {R : Type 0} → Data R → Type 0
IsNamed r = OneOf test_names r.config.profile × (is_empty r.driver ≡ false)

abbrev NoCapital : String → Type 0
NoCapital String.[] = Unit
NoCapital (String.◌∷◌ c s) = ((leb b'A' (code c) && leb (code c) b'Z') ≡ false) × NoCapital s

-- A result whose profile is written without capital letters.
unfoldable pub IsSmall : {R : Type 0} → Data R → Type 0
IsSmall r = NoCapital r.config.profile

contains_capital :
    (s : String) (d : Char) (t : String)
    → NoCapital s
    → (leb b'A' (code d) && leb (code d) b'Z') ≡ true
    → contains s (String.◌∷◌ d t) ≡ false
unfolding contains has_prefix
contains_capital String.[] d t small h = refl
contains_capital (String.◌∷◌ c s) d t small h = ground (arith, contains_capital s d t small.1 h)

check_results-small :
    {R : Type 0} (rs : List (Data R)) (d : Char) (t : String)
    → All IsSmall rs
    → (leb b'A' (code d) && leb (code d) b'Z') ≡ true
    → check_results rs (String.◌∷◌ d t) ≡ false
unfolding check_results IsSmall
check_results-small [] d t small h = refl
check_results-small (r ∷ rs) d t small h =
    rw (contains_capital r.config.profile d t small.0 h) (check_results-small rs d t small.1 h)

module _ (F : Float64) (S : Statistics F.Real) (title : String → String) where
  open F use {Real}

  length-throughput_rows :
      (test_type : String) (r : Data Real) (rs : List (Data Real))
      → is_empty r.driver ≡ false
      → length (throughput_rows F S title test_type (r ∷ rs))
        ≡ to_ℕ (contains r.config.profile test_type)
          + length (throughput_rows F S title test_type rs)
  unfolding throughput_rows
  length-throughput_rows test_type r rs named =
      let drop : (contains r.config.profile test_type && not (is_empty r.driver))
          ≡ contains r.config.profile test_type =
        ground arith in
      rw drop (omega (arith, length-append {0}, length-row_if))

  -- Of results that name their driver and one of the tests, the tables of the throughput have as
  -- many rows as there are results.
  length-render_results :
      (rs : List (Data Real))
      → All IsNamed rs
      → length (render_results F S title "STREAM" rs).rows
          + length (render_results F S title "RR" rs).rows
        ≡ length rs
  unfolding render_results IsNamed
  length-render_results [] h = refl
  length-render_results (r ∷ rs) h = omega (
    arith,
    length-throughput_rows "STREAM" r rs h.0.1,
    length-throughput_rows "RR" r rs h.0.1,
    test_names-InOneTable r.config.profile h.0.0,
    length-render_results rs h.1,
  )

  specific_rows-small : (rs : List (Data Real)) → All IsSmall rs → specific_rows F S title rs ≡ []
  unfolding specific_rows row_if IsSmall
  specific_rows-small [] small = refl
  specific_rows-small (r ∷ rs) small =
      rw (contains_capital r.config.profile "T" "CP_STREAM" small.0 refl) (
        rw (contains_capital r.config.profile "U" "DP_STREAM" small.0 refl)
          (specific_rows-small rs small.1))

  -- Results whose profiles are written without capitals, which `validConfig` accepts, are in no
  -- table but those of `--metrics`.
  pub tables-small :
      (show_metrics : Bool) (rs : List (Data Real))
      → All IsSmall rs
      → tables F S title show_metrics rs
        ≡ record { header = specific_table_header; rows = [] } ∷ metrics_tables F show_metrics rs
  unfolding tables show_stream_result show_rr_result show_latency_result show_specific_results
      table_if
  tables-small show_metrics rs small =
      rw
        (
          check_results-small rs "S" "TREAM" small refl,
          check_results-small rs "R" "R" small refl,
          check_results-small rs "S" "TREAM_LAT" small refl,
          specific_rows-small rs small,
        )
        refl
