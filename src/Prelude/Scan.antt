-- ===== src/Prelude/Scan.antt =====
-- The steps of Go's regular expressions that the program's patterns take.
use Prim.Native.Nat.{ℕ}
use Prim.Native.Char.{code}
use Prim.Native.String.{String}
use mathlib.Core.Bool.{Bool, ◌&&◌, ◌||◌}
use mathlib.Core.Option.{Option, none, some}
use k8s_netperf.Prelude.Tests.{eqb, leb, if◌then◌else◌}
use k8s_netperf.Prelude.Text.{trim_left}

-- What stands after a literal text.
unfoldable pub after_prefix : String → String → Option String
after_prefix String.[] s = some s
after_prefix (String.◌∷◌ d t) String.[] = none
after_prefix (String.◌∷◌ d t) (String.◌∷◌ c s) =
    let rest = after_prefix t s in if eqb (code c) (code d) then rest else none

-- What stands after the first occurrence.
unfoldable pub after_first : String → String → Option String
unfolding after_prefix
after_first t String.[] = after_prefix t ""
after_first t (String.◌∷◌ c s) =
    let later = after_first t s in
    elim (after_prefix t (String.◌∷◌ c s)) [ some rest ↦ some rest | none ↦ later ]

-- The parts before and after the last occurrence.
unfoldable pub around_last : String → String → Option (String × String)
unfolding after_prefix
around_last t String.[] = elim (after_prefix t "") [ some rest ↦ some ("", rest) | none ↦ none ]
around_last t (String.◌∷◌ c s) = elim (around_last t s) [
  | some (before, after) ↦ some (String.◌∷◌ c before, after)
  | none ↦ elim (after_prefix t (String.◌∷◌ c s)) [ some rest ↦ some ("", rest) | none ↦ none ]
]

-- `\s*` and `\d*`
unfoldable pub skip_blanks : String → String
unfolding trim_left
skip_blanks s = trim_left (λ c. eqb c 9 || (eqb c 10 || (eqb c 12 || (eqb c 13 || eqb c 32)))) s

is_digit : ℕ → Bool
is_digit c = leb 48 c && leb c 57

unfoldable pub take_digits : String → String
unfolding is_digit
take_digits String.[] = ""
take_digits (String.◌∷◌ c s) =
    let rest = take_digits s in if is_digit (code c) then String.◌∷◌ c rest else ""

unfoldable pub drop_digits : String → String
unfolding is_digit trim_left
drop_digits s = trim_left is_digit s
