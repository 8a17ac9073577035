-- ===== src/Config/Profile.antt =====
-- The regular expression of `validConfig` (pkg/config/config.go): `(?i)` and a list of literals,
-- with no anchor.
use Prim.Native.Char.{code}
use text.Mathlib.TextLemmas.{nil-append, cons-append}
use k8s_netperf.Prelude.{
  ℕ, ◌+◌, String, ◌<>◌, Bool, true, false, ◌&&◌, ◌||◌, List, [], ◌∷◌, leb, eqb, any, if◌then◌else◌,
  ◌≡◌, refl, sym, ap, ◌∙◌, ◌↔◌, inl, inr, arith, Bool-cases,
}

-- The alternatives of `validTests`.
abbrev pub valid_tests : List String
valid_tests =
    "tcp_stream_lat" ∷ "tcp_stream" ∷ "udp_stream" ∷ "tcp_rr" ∷ "udp_rr" ∷ "tcp_crr" ∷ "udp_crr"
    ∷ "sctp_stream" ∷ "sctp_rr" ∷ "sctp_crr" ∷ []

-- Case folding as RE2 does it: of the letters outside ASCII only the long s (U+017F) and the
-- Kelvin sign (U+212A) fold to one inside.
unfoldable pub fold : ℕ → ℕ
fold c =
    if leb b'A' c && leb c b'Z'
    then c + 32
    else if eqb c 0x17f
    then b's'
    else if eqb c 0x212a
    then b'k'
    else c

-- `s` begins with a text that folds to the lower-case literal `t`.
unfoldable pub prefix_fold : String → String → Bool
unfolding fold
prefix_fold s String.[] = true
prefix_fold String.[] (String.◌∷◌ d t) = false
prefix_fold (String.◌∷◌ c s) (String.◌∷◌ d t) = eqb (fold (code c)) (code d) && prefix_fold s t

unfoldable pub find_fold : String → String → Bool
unfolding prefix_fold
find_fold String.[] t = prefix_fold String.[] t
find_fold (String.◌∷◌ c s) t = prefix_fold (String.◌∷◌ c s) t || find_fold s t

-- `preEval.MatchString(cfg.Profile)`
unfoldable pub match_profile : String → Bool
unfolding find_fold
match_profile profile = any (find_fold profile) valid_tests

-- The texts `m` that fold to `t`.
abbrev pub Folds : String → String → Type 0
Folds String.[] String.[] = Unit
Folds String.[] (String.◌∷◌ d t) = ⊥
Folds (String.◌∷◌ c m) String.[] = ⊥
Folds (String.◌∷◌ c m) (String.◌∷◌ d t) = (fold (code c) ≡ code d) × Folds m t

-- `s` holds somewhere a text that folds to `t`.
abbrev pub HasFold : String → String → Type 0
HasFold s t = (a m b : String) × (s ≡ a <> (m <> b)) × Folds m t

prefix_fold_sound :
    (s t : String) → prefix_fold s t ≡ true → (m b : String) × (s ≡ m <> b) × Folds m t
unfolding prefix_fold
prefix_fold_sound s String.[] h = (String.[], s, sym (nil-append s), tt)
prefix_fold_sound String.[] (String.◌∷◌ d t) h = cc
prefix_fold_sound (String.◌∷◌ c s) (String.◌∷◌ d t) h =
    let (m, b, e, f) = prefix_fold_sound s t (ground arith) in
    (String.◌∷◌ c m, b, ap (String.◌∷◌ c) e ∙ sym (cons-append c m b), (ground arith, f))

prefix_fold_complete : (m b t : String) → Folds m t → prefix_fold (m <> b) t ≡ true
unfolding prefix_fold
prefix_fold_complete m b String.[] f = refl
prefix_fold_complete String.[] b (String.◌∷◌ d t) f = elim f [ ]
prefix_fold_complete (String.◌∷◌ c m) b (String.◌∷◌ d t) f =
    rw (cons-append c m b) (ground (arith, prefix_fold_complete m b t f.1))

find_fold_sound : (s t : String) → find_fold s t ≡ true → HasFold s t
unfolding find_fold
find_fold_sound String.[] t h =
    let (m, b, e, f) = prefix_fold_sound String.[] t h in
    (String.[], m, b, e ∙ sym (nil-append (m <> b)), f)
find_fold_sound (String.◌∷◌ c s) t h = elim (Bool-cases (prefix_fold (String.◌∷◌ c s) t)) [
  | inl here ↦
      let (m, b, e, f) = prefix_fold_sound (String.◌∷◌ c s) t here in
      (String.[], m, b, e ∙ sym (nil-append (m <> b)), f)
  | inr not_here ↦
      let (a, m, b, e, f) = find_fold_sound s t (ground arith) in
      (String.◌∷◌ c a, m, b, ap (String.◌∷◌ c) e ∙ sym (cons-append c a (m <> b)), f)
]

prefix-find : (s t : String) → prefix_fold s t ≡ true → find_fold s t ≡ true
unfolding find_fold
prefix-find String.[] t h = h
prefix-find (String.◌∷◌ c s) t h = rw h

find_fold_complete : (a m b t : String) → Folds m t → find_fold (a <> (m <> b)) t ≡ true
unfolding find_fold
find_fold_complete String.[] m b t f =
    rw (nil-append (m <> b)) (prefix-find (m <> b) t (prefix_fold_complete m b t f))
find_fold_complete (String.◌∷◌ c a) m b t f =
    rw (cons-append c a (m <> b)) (ground (arith, find_fold_complete a m b t f))

-- `match_profile` finds exactly the profiles that hold one of the test names, in any case.
pub find_fold_iff : (s t : String) → (find_fold s t ≡ true) ↔ HasFold s t
find_fold_iff s t = (find_fold_sound s t, λ (a, m, b, e, f). rw e (find_fold_complete a m b t f))
