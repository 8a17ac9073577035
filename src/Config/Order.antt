-- ===== src/Config/Order.antt =====
-- The maps that the parsers of pkg/config/config.go range over.
use mathlib.Core.Option
use mathlib.Core.List.{Permᴰ, flatten}
use k8s_netperf.Prelude.{
  String, Option, none, some, List, [], ◌∷◌, ◌++◌, ◌≡◌, refl, sym, subst, inl, inr, arith, All,
  Result-cases, ok, ◌>>=◌, Option-cases,
}
use k8s_netperf.Config.{
  Config, collect, collect_groups, from_map, from_groups, parse_conf, parse_v2_conf,
}
use k8s_netperf.Config.Validity.{IsRunnable, collect-eq-ok_iff}

All-perm : (P : Config → Type 0) {xs ys : List Config} → Permᴰ xs ys → All P xs → All P ys
All-perm P Permᴰ.nil h = tt
All-perm P (Permᴰ.cons e p) h = (subst P e h.0, All-perm P p h.1)
All-perm P (Permᴰ.swap e f) h = (subst P f h.1.0, (subst P e h.0, h.1.1))
All-perm P (Permᴰ.trans p q) h = All-perm P q (All-perm P p h)

-- Two decodings of one file: both fail, or they list the same values.
abbrev pub SameValues : Option (List Config) → Option (List Config) → Type 0
SameValues none none = Unit
SameValues (some xs) (some ys) = Permᴰ xs ys
SameValues _ _ = ⊥

collect_order :
    (cs cs' ts : List Config)
    → Permᴰ cs cs'
    → collect [] cs ≡ ok ts
    → (ts' : List Config) × (collect [] cs' ≡ ok ts') × Permᴰ ts ts'
collect_order cs cs' ts p e =
    let h = (collect-eq-ok_iff cs ts).0 e in
    (
      cs',
      (collect-eq-ok_iff cs' cs').1 (All-perm IsRunnable p h.0, refl),
      subst (λ xs. Permᴰ xs cs') (sym h.1) p,
    )

from_map_order :
    (o o' : Option (List Config)) (ts : List Config)
    → SameValues o o'
    → from_map o ≡ ok ts
    → (ts' : List Config) × (from_map o' ≡ ok ts') × Permᴰ ts ts'
unfolding from_map
from_map_order none none ts p e = cc
from_map_order none (some ys) ts p e = absurd p
from_map_order (some xs) none ts p e = absurd p
from_map_order (some xs) (some ys) ts p e = collect_order xs ys ts p e

module _ {File : Type 0} (read_file : String → Option File) where
  -- Whether `ParseConf` accepts a file, and which tests it returns, does not depend on the order
  -- in which the map is met; only their order does.
  pub parse_conf_order :
      (decode decode' : File → Option (List Config)) (fn : String) (ts : List Config)
      → ((buf : File) → SameValues (decode buf) (decode' buf))
      → parse_conf read_file decode fn ≡ ok ts
      → (ts' : List Config) × (parse_conf read_file decode' fn ≡ ok ts') × Permᴰ ts ts'
  unfolding parse_conf
  parse_conf_order decode decode' fn ts same e = elim (Option-cases (read_file fn)) [
    | inl unread ↦ let never : ⊥ = ground (arith, unread) in absurd never
    | inr (buf, read) ↦
        rw (read, parse_conf)
          (from_map_order (decode buf) (decode' buf) ts (same buf) (rw (read, parse_conf) at e))
  ]

collect-append :
    (acc xs ys : List Config)
    → collect acc (xs ++ ys) ≡ (collect acc xs >>= λ acc'. collect acc' ys)
unfolding collect
collect-append acc [] ys = refl
collect-append acc (x ∷ xs) ys = ground (arith, collect-append (acc ++ (x ∷ [])) xs ys)

collect_groups-flatten :
    (acc : List Config) (gs : List (List Config)) → collect_groups acc gs ≡ collect acc (flatten gs)
unfolding collect_groups collect flatten
collect_groups-flatten acc [] = refl
collect_groups-flatten acc (g ∷ gs) = elim (Result-cases (collect acc g)) [
  | inl (ts, good) ↦
      ground (arith, good, collect-append acc g (flatten gs), collect_groups-flatten ts gs)
  | inr (e, bad) ↦ ground (arith, bad, collect-append acc g (flatten gs))
]

from_groups-flatten :
    (o : Option (List (List Config))) → from_groups o ≡ from_map (Option.map flatten o)
unfolding from_groups from_map
from_groups-flatten none = refl
from_groups-flatten (some gs) = collect_groups-flatten [] gs

module _ {File : Type 0} (read_file : String → Option File) where
  -- `ParseV2Conf` accepts and returns what `ParseConf` does on its groups run together.
  parse_v2_conf-flatten :
      (decode : File → Option (List (List Config))) (fn : String)
      → parse_v2_conf read_file decode fn
        ≡ parse_conf read_file (λ buf. Option.map flatten (decode buf)) fn
  unfolding parse_conf parse_v2_conf
  parse_v2_conf-flatten decode fn = elim (Option-cases (read_file fn)) [
    | inl unread ↦ ground (arith, unread)
    | inr (buf, read) ↦ ground (arith, read, from_groups-flatten (decode buf))
  ]
