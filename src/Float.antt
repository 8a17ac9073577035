-- ===== src/Float.antt =====
-- Go's `float64`, which the language has no type for: a parameter of the modules that compute
-- with it, with the operations of the language and of `strconv`, `math` and `fmt` that they call.
use k8s_netperf.Prelude.{ℕ, String, Bool}
use k8s_netperf.Prelude.Int.{ℤ}

pub record Float64 : Type 1 where
  pub Real : Type 0
  pub of_ℕ : ℕ → Real
  pub add : Real → Real → Real
  pub sub : Real → Real → Real
  pub mul : Real → Real → Real
  pub div : Real → Real → Real
  -- `a < b` and `a == b`
  pub lt : Real → Real → Bool
  pub eq : Real → Real → Bool
  pub is_nan : Real → Bool
  -- the conversion `int(x)`
  pub to_int : Real → ℤ
  -- the first result of `strconv.ParseFloat(s, 64)`, whose error the program drops
  pub parse_float : String → Real
  -- `fmt.Sprintf("%f", x)`, `fmt.Sprint(x)` and `strconv.FormatFloat(x, 'f', -1, 64)`
  pub format_fixed : Real → String
  pub format_short : Real → String
  pub format_plain : Real → String
