-- ===== src/Cluster/Zones/Counts.antt =====
-- When `GetZone` makes `Run` say that client and server are in different zones.
use k8s_netperf.Prelude.{
  suc, ◌≤◌, String, Bool, true, false, not, ◌&&◌, ◌||◌, if◌then◌else◌, ◌==◌, eq_iff, some, List, [],
  ◌∷◌, ◌≡◌, refl, sym, ap, subst, ◌∙◌, arith, Bool-cases, Option-cases, inl, inr, All,
}
use k8s_netperf.Prelude.Text.{is_empty}
use k8s_netperf.Cluster.Zones.{
  Zones, count_of, has_key, increment, Scan, scan_nodes, no_zones, get_zone, is_nil, across_az,
}

abbrev pub mem : String → List String → Bool
mem key [] = false
mem key (z ∷ zs) = (z == key) || mem key zs

-- No label is among those seen before it.
abbrev pub distinct : List String → List String → Bool
distinct seen [] = true
distinct seen (l ∷ ls) = not (mem l seen) && distinct (l ∷ seen) ls

abbrev keys : Zones → List String
keys [] = []
keys ((z, n) ∷ zs) = z ∷ keys zs

has_key-keys : (key : String) (zs : Zones) → has_key key zs ≡ mem key (keys zs)
unfolding has_key
has_key-keys key [] = refl
has_key-keys key ((z, n) ∷ zs) = cc (has_key-keys key zs)

count_of-increment :
    (key : String) (zs : Zones)
    → has_key key zs ≡ true
    → count_of key (increment key zs) ≡ suc (count_of key zs)
unfolding has_key count_of increment
count_of-increment key [] h = cc
count_of-increment key ((z, n) ∷ zs) h =
    let ih = count_of-increment key zs in
    elim (Bool-cases (z == key)) [ inl e ↦ ground (arith, e) | inr e ↦ ground (arith, e, h, ih) ]

count_of_monotone : (key l : String) (zs : Zones) → count_of key zs ≤ count_of key (increment l zs)
unfolding count_of increment
count_of_monotone key l [] = omega arith
count_of_monotone key l ((z, n) ∷ zs) =
    let ih = count_of_monotone key l zs in
    elim (Bool-cases (z == key)) [
      | inl e ↦ elim (Bool-cases (z == l)) [
        | inl f ↦ ground (arith, e, f)
        | inr f ↦ ground (arith, e, f)
      ]
      | inr e ↦ elim (Bool-cases (z == l)) [
        | inl f ↦ ground (arith, e, f)
        | inr f ↦ ground (arith, e, f, ih)
      ]
    ]

has_key-increment : (key l : String) (zs : Zones) → has_key key (increment l zs) ≡ has_key key zs
unfolding has_key increment
has_key-increment key l [] = refl
has_key-increment key l ((z, n) ∷ zs) =
    let ih = has_key-increment key l zs in
    elim (Bool-cases (z == l)) [ inl f ↦ ground (arith, f) | inr f ↦ ground (arith, f, ih) ]

is_nil-increment : (l : String) (zs : Zones) → is_nil (increment l zs) ≡ is_nil zs
unfolding is_nil increment
is_nil-increment l [] = refl
is_nil-increment l ((z, n) ∷ zs) = elim (Bool-cases (z == l)) [
  | inl f ↦ ground (arith, f)
  | inr f ↦ ground (arith, f)
]

count_of_missing : (key : String) (zs : Zones) → has_key key zs ≡ false → count_of key zs ≡ 0
unfolding has_key count_of
count_of_missing key [] h = refl
count_of_missing key ((z, n) ∷ zs) h =
    let ih = count_of_missing key zs in
    elim (Bool-cases (z == key)) [ inl e ↦ ground (arith, e, h) | inr e ↦ ground (arith, e, h, ih) ]

-- What the loop keeps: `zone` is set once two nodes share one, and then it is such a zone.
record Counted (t : Scan) : Type 0 where
  positive : (key : String) → has_key key t.zones ≡ true → 1 ≤ count_of key t.zones
  shared : is_empty t.zone ≡ false → 2 ≤ count_of t.zone t.zones
  single : is_empty t.zone ≡ true → (key : String) → count_of key t.zones ≤ 1

Counted-repeated :
    (t : Scan) (l : String)
    → Counted t
    → is_empty l ≡ false
    → has_key l t.zones ≡ true
    → Counted (record t { zone = l; zones = increment l t.zones })
Counted-repeated t l inv set h = record {
  positive = λ key k. omega (
    arith,
    count_of_monotone key l t.zones,
    inv.positive key (sym (has_key-increment key l t.zones) ∙ k),
  );
  shared = λ _. omega (arith, count_of-increment l t.zones h, inv.positive l h);
  single = λ bad. cc;
}

Counted-first :
    (t : Scan) (l : String)
    → Counted t
    → has_key l t.zones ≡ false
    → Counted (record t { lz = l; zones = (l, 1) ∷ t.zones })
unfolding has_key count_of
Counted-first t l inv h = record {
  positive = λ key k. elim (Bool-cases (l == key)) [
    | inl e ↦ ground (arith, e)
    | inr e ↦ ground (arith, e, k, inv.positive key)
  ];
  shared = λ s. elim (Bool-cases (l == t.zone)) [
    | inl e ↦
        let missing = subst (λ z. has_key z t.zones ≡ false) ((eq_iff l t.zone).0 e) h in
        let never : ⊥ = omega (arith, inv.shared s, count_of_missing t.zone t.zones missing) in
        absurd never
    | inr e ↦ ground (arith, e, inv.shared s)
  ];
  single = λ e key. elim (Bool-cases (l == key)) [
    | inl f ↦ ground (arith, f)
    | inr f ↦ ground (arith, f, inv.single e key)
  ];
}

IsLabel : String → Type 0
IsLabel l = is_empty l ≡ false

-- What the loop leaves, from a state with at least one zone.
record Left (t : Scan) (labels : List String) : Type 0 where
  last : Scan
  scanned : scan_nodes t labels ≡ some last
  counted : Counted last
  some_zone : is_nil last.zones ≡ false
  unshared : is_empty last.zone ≡ (is_empty t.zone && distinct (keys t.zones) labels)

scan_nodes-Left :
    (labels : List String) (t : Scan)
    → All IsLabel labels
    → Counted t
    → is_nil t.zones ≡ false
    → Left t labels
unfolding scan_nodes IsLabel is_nil
scan_nodes-Left [] t set inv zs = record {
  last = t;
  scanned = refl;
  counted = inv;
  some_zone = zs;
  unshared = ground arith;
}
scan_nodes-Left (l ∷ ls) t (set, sets) inv zs =
    let key = has_key-keys l t.zones in
    elim (Bool-cases (has_key l t.zones)) [
      | inl h ↦
          let rest =
            scan_nodes-Left ls (record t { zone = l; zones = increment l t.zones }) sets
              (Counted-repeated t l inv set h) (is_nil-increment l t.zones ∙ zs) in
          record {
            last = rest.last;
            scanned = ground (arith, set, h, rest.scanned);
            counted = rest.counted;
            some_zone = rest.some_zone;
            unshared = ground (arith, set, h, key, rest.unshared);
          }
      | inr h ↦
          let rest =
            scan_nodes-Left ls (record t { lz = l; zones = (l, 1) ∷ t.zones }) sets
              (Counted-first t l inv h) refl in
          record {
            last = rest.last;
            scanned = ground (arith, set, h, rest.scanned);
            counted = rest.counted;
            some_zone = rest.some_zone;
            unshared = ground (arith, set, h, key, rest.unshared);
          }
    ]

Counted-single : (l : String) → Counted (record { zones = (l, 1) ∷ []; zone = ""; lz = l })
unfolding has_key count_of
Counted-single l = record {
  positive = λ key k. elim (Bool-cases (l == key)) [
    | inl e ↦ ground (arith, e)
    | inr e ↦ ground (arith, e, k)
  ];
  shared = λ bad. cc;
  single = λ _ key. elim (Bool-cases (l == key)) [
    | inl e ↦ ground (arith, e)
    | inr e ↦ ground (arith, e)
  ];
}

across_az-Counted :
    (t : Scan)
    → Counted t
    → is_nil t.zones ≡ false
    → across_az false (some (if is_empty t.zone then t.lz else t.zone, t.zones)) ≡ is_empty t.zone
unfolding across_az
across_az-Counted t inv zs = elim (Bool-cases (is_empty t.zone)) [
  | inl e ↦ ground (arith, e, zs, inv.single e t.lz)
  | inr e ↦ ground (arith, e, zs, inv.shared e)
]

get_zone-scanned :
    (labels : List String) (t : Scan)
    → scan_nodes no_zones labels ≡ some t
    → get_zone (some labels) ≡ some (if is_empty t.zone then t.lz else t.zone, t.zones)
unfolding get_zone
get_zone-scanned labels t h = ground (arith, h)

across_az-get_zone_away :
    (l : String) (ls : List String)
    → All (λ label. is_empty label ≡ false) (l ∷ ls)
    → across_az false (get_zone (some (l ∷ ls))) ≡ distinct [] (l ∷ ls)
unfolding scan_nodes IsLabel has_key is_nil
across_az-get_zone_away l ls (set, sets) =
    let start : Scan = record { zones = (l, 1) ∷ []; zone = ""; lz = l } in
    let left = scan_nodes-Left ls start sets (Counted-single l) refl in
    let first : scan_nodes no_zones (l ∷ ls) ≡ some left.last = ground (arith, set, left.scanned) in
    ap (across_az false) (get_zone-scanned (l ∷ ls) left.last first)
    ∙ across_az-Counted left.last left.counted left.some_zone
    ∙ left.unshared

-- With a zone label on every worker, and at least one worker, the pods count as being in different
-- zones exactly when `--local` is not given and no two workers share a zone.
pub across_az-get_zone :
    (node_local : Bool) (l : String) (ls : List String)
    → All (λ label. is_empty label ≡ false) (l ∷ ls)
    → across_az node_local (get_zone (some (l ∷ ls))) ≡ (not node_local && distinct [] (l ∷ ls))
unfolding across_az
across_az-get_zone true l ls set = elim (Option-cases (get_zone (some (l ∷ ls)))) [
  | inl e ↦ ground (arith, e)
  | inr (_, e) ↦ rw e refl
]
across_az-get_zone false l ls set = across_az-get_zone_away l ls set
