-- ===== src/Drivers/IbWriteBw/Device.antt =====
-- The device and the index that `parseNicGid` of pkg/drivers/ibwritebw.go reads.
use Prim.Native.Char.{code}
use k8s_netperf.Prelude.{
  ℕ, String, ◌<>◌, Bool, true, false, ◌&&◌, Bool-cases, inl, inr, [], ◌∷◌, ok, ◌≡◌, ◌∙◌, refl, ap,
  arith, eqb, nil-append, cons-append,
}
use k8s_netperf.Prelude.Text.{is_empty, split, is_space, trim_left, trim_right, trim_space}
use k8s_netperf.Drivers.IbWriteBw.{check_parts, two_parts, parse_nic_gid}

-- The text has no character of that code.
abbrev pub Lacks : ℕ → String → Type 0
Lacks sep String.[] = Unit
Lacks sep (String.◌∷◌ c s) = (eqb (code c) sep ≡ false) × Lacks sep s

split-Lacks : (sep : ℕ) (s : String) → Lacks sep s → split sep s ≡ s ∷ []
unfolding split
split-Lacks sep String.[] h = refl
split-Lacks sep (String.◌∷◌ c s) (h, hs) = ground (arith, h, split-Lacks sep s hs)

colon : (gid : String) → Lacks b':' gid → split b':' (":" <> gid) ≡ "" ∷ gid ∷ []
unfolding split
colon gid h = rw (cons-append ":" "" gid, nil-append gid) (ground (arith, split-Lacks b':' gid h))

joined :
    (device gid : String)
    → Lacks b':' device
    → Lacks b':' gid
    → split b':' (device <> (":" <> gid)) ≡ device ∷ gid ∷ []
unfolding split
joined String.[] gid hd hg = rw (nil-append (":" <> gid)) (colon gid hg)
joined (String.◌∷◌ c s) gid (h, hd) hg =
    rw (cons-append c s (":" <> gid)) (ground (arith, h, joined s gid hd hg))

-- Every character is cut.
all_cut : (ℕ → Bool) → String → Bool
all_cut cut String.[] = true
all_cut cut (String.◌∷◌ c s) = cut (code c) && all_cut cut s

all_cut-trim_left : (cut : ℕ → Bool) (s : String) → all_cut cut (trim_left cut s) ≡ all_cut cut s
unfolding trim_left all_cut
all_cut-trim_left cut String.[] = refl
all_cut-trim_left cut (String.◌∷◌ c s) =
    let ih = all_cut-trim_left cut s in
    elim (Bool-cases (cut (code c))) [ inl e ↦ ground (arith, e, ih) | inr e ↦ ground (arith, e) ]

is_empty-trim_right : (cut : ℕ → Bool) (s : String) → is_empty (trim_right cut s) ≡ all_cut cut s
unfolding trim_right all_cut
is_empty-trim_right cut String.[] = refl
is_empty-trim_right cut (String.◌∷◌ c s) =
    let ih = is_empty-trim_right cut s in
    elim (Bool-cases (cut (code c))) [
      | inl e ↦ elim (Bool-cases (all_cut cut s)) [
        | inl f ↦ ground (arith, e, f, ih)
        | inr f ↦ ground (arith, e, f, ih)
      ]
      | inr e ↦ ground (arith, e)
    ]

all_cut-joined : (device gid : String) → all_cut is_space (device <> (":" <> gid)) ≡ false
unfolding all_cut is_space
all_cut-joined String.[] gid = rw (nil-append (":" <> gid), cons-append ":" "" gid) refl
all_cut-joined (String.◌∷◌ c s) gid =
    let ih = all_cut-joined s gid in
    rw (cons-append c s (":" <> gid)) (elim (Bool-cases (is_space (code c))) [
      | inl e ↦ ground (arith, e, ih)
      | inr e ↦ ground (arith, e)
    ])

trim_space-joined : (device gid : String) → is_empty (trim_space (device <> (":" <> gid))) ≡ false
unfolding trim_space
trim_space-joined device gid =
    is_empty-trim_right is_space (trim_left is_space (device <> (":" <> gid)))
    ∙ all_cut-trim_left is_space (device <> (":" <> gid))
    ∙ all_cut-joined device gid

two_trimmed :
    (device gid : String)
    → trim_space device ≡ device
    → trim_space gid ≡ gid
    → is_empty device ≡ false
    → is_empty gid ≡ false
    → two_parts (device ∷ gid ∷ []) ≡ ok (device, gid)
unfolding two_parts check_parts
two_trimmed device gid td tg ed eg =
    let d : is_empty (trim_space device) ≡ false = ap is_empty td ∙ ed in
    let g : is_empty (trim_space gid) ≡ false = ap is_empty tg ∙ eg in ground (arith, d, g, td, tg)

-- A device and an index that are not empty, have no colon and no space around them are read back
-- from their text with a colon between them.
pub parse_nic_gid-joined :
    (device gid : String)
    → Lacks b':' device
    → Lacks b':' gid
    → trim_space device ≡ device
    → trim_space gid ≡ gid
    → is_empty device ≡ false
    → is_empty gid ≡ false
    → parse_nic_gid (device <> (":" <> gid)) ≡ ok (device, gid)
unfolding parse_nic_gid
parse_nic_gid-joined device gid hd hg td tg ed eg =
    let parts = joined device gid hd hg in
    let blank : is_empty (trim_space (device <> (":" <> gid))) ≡ false =
      trim_space-joined device gid in
    ground (arith, blank, ap two_parts parts ∙ two_trimmed device gid td tg ed eg)
