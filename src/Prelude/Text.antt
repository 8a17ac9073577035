-- ===== src/Prelude/Text.antt =====
-- The functions of Go's `strings`, `strconv` and `fmt` that the program calls, on the native texts.
-- Go's texts are bytes; these are characters, which is the same on valid UTF-8.
use Prim.Native.Nat.{ℕ, zero, suc, ◌+◌, ◌-◌, ◌*◌, ◌/◌, ◌%◌, ◌<◌}
use Prim.Native.Char.{Char, char, code, IsScalar}
use Prim.Native.String.{String, ◌++◌ as ◌<>◌}
use mathlib.Core.Path.{◌≡◌, refl, ap, ◌∙◌}
use mathlib.Core.Logic.{inl, inr}
use mathlib.Core.Bool.{Bool, true, false, ◌&&◌, ◌||◌}
use mathlib.Core.List.{List, [], ◌∷◌}
use native.Mathlib.Omega.{arith}
use k8s_netperf.Prelude.Tests.{ltb, eqb, leb, if◌then◌else◌, Bool-cases, ltb→lt}
use k8s_netperf.Prelude.Int.{ℤ, pos, negsuc}

abbrev pub is_empty : String → Bool
is_empty String.[] = true
is_empty (String.◌∷◌ c s) = false

-- `strings.HasPrefix`
unfoldable pub has_prefix : String → String → Bool
has_prefix s String.[] = true
has_prefix String.[] (String.◌∷◌ d t) = false
has_prefix (String.◌∷◌ c s) (String.◌∷◌ d t) = eqb (code c) (code d) && has_prefix s t

-- `strings.Contains`
unfoldable pub contains : String → String → Bool
unfolding has_prefix
contains String.[] t = is_empty t
contains (String.◌∷◌ c s) t = has_prefix (String.◌∷◌ c s) t || contains s t

-- `strings.Split(s, sep)` at a separator of one character, given by its code.
unfoldable pub split : ℕ → String → List String
split sep String.[] = String.[] ∷ []
split sep (String.◌∷◌ c s) = elim (split sep s) [
  | [] ↦ []
  | piece ∷ pieces ↦
      if eqb (code c) sep then String.[] ∷ piece ∷ pieces else String.◌∷◌ c piece ∷ pieces
]

-- `unicode.IsSpace`
unfoldable pub is_space : ℕ → Bool
is_space c =
    leb 9 c && leb c 13
    || eqb c 32
    || eqb c 0x85
    || eqb c 0xa0
    || eqb c 0x1680
    || leb 0x2000 c && leb c 0x200a
    || eqb c 0x2028
    || eqb c 0x2029
    || eqb c 0x202f
    || eqb c 0x205f
    || eqb c 0x3000

unfoldable pub trim_left : (ℕ → Bool) → String → String
trim_left cut String.[] = String.[]
trim_left cut (String.◌∷◌ c s) =
    let rest = trim_left cut s in if cut (code c) then rest else String.◌∷◌ c s

unfoldable pub trim_right : (ℕ → Bool) → String → String
trim_right cut String.[] = String.[]
trim_right cut (String.◌∷◌ c s) =
    let rest = trim_right cut s in
    if cut (code c) && is_empty rest then String.[] else String.◌∷◌ c rest

-- `strings.TrimSpace`
unfoldable pub trim_space : String → String
unfolding trim_left trim_right is_space
trim_space s = trim_right is_space (trim_left is_space s)

-- `strings.Trim(s, "\r")`
unfoldable pub trim_cr : String → String
unfolding trim_left trim_right
trim_cr s = trim_right (λ c. eqb c 13) (trim_left (λ c. eqb c 13) s)

drop_empty : List String → List String
drop_empty [] = []
drop_empty (s ∷ rest) = if is_empty s then drop_empty rest else s ∷ drop_empty rest

-- `strings.Fields`: the words between runs of white space.
words : String → List String
words String.[] = String.[] ∷ []
words (String.◌∷◌ c s) = elim (words s) [
  | [] ↦ []
  | piece ∷ pieces ↦
      if is_space (code c) then String.[] ∷ piece ∷ pieces else String.◌∷◌ c piece ∷ pieces
]

unfoldable pub fields : String → List String
unfolding words drop_empty is_space
fields s = drop_empty (words s)

-- `unicode.ToUpper`, as far as it has a value in ASCII: of the letters outside, the dotless i
-- (U+0131) and the long s (U+017F) have one there.
upper : ℕ → ℕ
upper c =
    if leb b'a' c && leb c b'z'
    then c - 32
    else if eqb c 0x131
    then b'I'
    else if eqb c 0x17f
    then b'S'
    else c

-- `strings.ToUpper(s) == t` for a text `t` in ASCII.
unfoldable pub upper_equals : String → String → Bool
unfolding upper
upper_equals String.[] String.[] = true
upper_equals (String.◌∷◌ c s) (String.◌∷◌ d t) = eqb (upper (code c)) (code d) && upper_equals s t
upper_equals _ _ = false

pub IsScalar-ascii : (n : ℕ) → n < 128 → IsScalar n
IsScalar-ascii n h = ground arith

-- The lower case of a letter in ASCII; other characters stay as they are.
abbrev pub lower : Char → Char
lower c =
    if leb b'A' (code c) && leb (code c) b'Z'
    then char (97 + (code c - 65) % 26) (IsScalar-ascii (97 + (code c - 65) % 26) (omega arith))
    else c

abbrev pub capital : Char → Char
capital c =
    if leb b'a' (code c) && leb (code c) b'z'
    then char (65 + (code c - 97) % 26) (IsScalar-ascii (65 + (code c - 97) % 26) (omega arith))
    else c

-- `strings.ToLower(s)`, on texts in ASCII.
unfoldable pub to_lower : String → String
to_lower String.[] = String.[]
to_lower (String.◌∷◌ c s) = String.◌∷◌ (lower c) (to_lower s)

-- `strings.ToUpper(string(s[0])) + s[1:]`, on a text that begins with a character in ASCII.
unfoldable pub upper_first : String → String
upper_first String.[] = String.[]
upper_first (String.◌∷◌ c s) = String.◌∷◌ (capital c) s

-- `strings.Join(l, " ")`
unfoldable pub join_words : List String → String
join_words [] = ""
join_words (s ∷ []) = s
join_words (s ∷ t ∷ rest) = s <> " " <> join_words (t ∷ rest)

abbrev digit : ℕ → Char
digit d =
    if eqb d 0
    then "0"
    else if eqb d 1
    then "1"
    else if eqb d 2
    then "2"
    else if eqb d 3
    then "3"
    else if eqb d 4
    then "4"
    else if eqb d 5
    then "5"
    else if eqb d 6
    then "6"
    else if eqb d 7
    then "7"
    else if eqb d 8
    then "8"
    else "9"

-- Decimal digits in front of `out`. A number has fewer digits than its successor counts.
unfoldable pub show_onto : ℕ → ℕ → String → String
show_onto zero n out = out
show_onto (suc fuel) n out = elim (ltb n 10) [
  | true ↦ String.◌∷◌ (digit (n % 10)) out
  | false ↦ show_onto fuel (n / 10) (String.◌∷◌ (digit (n % 10)) out)
]

unfoldable pub show_nat : ℕ → String
unfolding show_onto
show_nat n = show_onto (suc n) n ""

-- `strconv.Itoa`, `fmt.Sprint` and `%d` on an `int`.
unfoldable pub itoa : ℤ → String
unfolding show_nat
itoa (pos n) = show_nat n
itoa (negsuc n) = "-" <> show_nat (suc n)

-- `strconv.FormatBool`, `fmt.Sprint` and `%t` on a `bool`.
unfoldable pub format_bool : Bool → String
format_bool true = "true"
format_bool false = "false"

-- The number that digits stand for, after those that stand for `n`.
abbrev pub value_from : ℕ → String → ℕ
value_from n String.[] = n
value_from n (String.◌∷◌ c s) = value_from (n * 10 + (code c - 48)) s

digit-code : (d : ℕ) → d < 10 → code (digit d) - 48 ≡ d
digit-code zero h = refl
digit-code (suc zero) h = refl
digit-code (suc (suc zero)) h = refl
digit-code (suc (suc (suc zero))) h = refl
digit-code (suc (suc (suc (suc zero)))) h = refl
digit-code (suc (suc (suc (suc (suc zero))))) h = refl
digit-code (suc (suc (suc (suc (suc (suc zero)))))) h = refl
digit-code (suc (suc (suc (suc (suc (suc (suc zero))))))) h = refl
digit-code (suc (suc (suc (suc (suc (suc (suc (suc zero)))))))) h = refl
digit-code (suc (suc (suc (suc (suc (suc (suc (suc (suc zero))))))))) h = refl
digit-code (suc (suc (suc (suc (suc (suc (suc (suc (suc (suc d)))))))))) h = absurd (omega arith)

value_from-show_onto :
    (fuel n : ℕ) (out : String) → n < fuel → value_from 0 (show_onto fuel n out) ≡ value_from n out
unfolding show_onto
value_from-show_onto zero n out h = absurd (omega arith)
value_from-show_onto (suc fuel) n out h = elim (Bool-cases (ltb n 10)) [
  | inl small ↦
      let low : 0 * 10 + (code (digit (n % 10)) - 48) ≡ n =
        omega (arith, digit-code (n % 10) (omega arith), ltb→lt n 10 small) in
      rw (small, show_onto) (ap (λ k. value_from k out) low)
  | inr big ↦
      let whole : n / 10 * 10 + (code (digit (n % 10)) - 48) ≡ n =
        omega (arith, digit-code (n % 10) (omega arith)) in
      rw (big, show_onto)
        (value_from-show_onto fuel (n / 10) _ (ground arith) ∙ ap (λ k. value_from k out) whole)
]

-- The fuel is enough: the printed digits stand for the number.
pub value_from-show_nat : (n : ℕ) → value_from 0 (show_nat n) ≡ n
unfolding show_nat
value_from-show_nat n = value_from-show_onto (suc n) n "" (omega arith)
