-- ===== src/Virtctl/Paths.antt =====
-- The part of Go's path/filepath that pkg/virtctl/extractor.go uses, on absolute paths.
use k8s_netperf.Prelude.{
  String, Bool, true, false, ◌&&◌, List, [], ◌∷◌, ◌++◌, map, ◌==◌, if◌then◌else◌, ◌≡◌, refl, ◌↔◌,
  arith, eq_iff, Bool-cases, inl, inr,
}

-- An absolute path after `filepath.Clean`, by its elements: none is empty, "." or "..".
abbrev pub FilePath : Type 0
FilePath = List String

unfoldable pub path_eqb : FilePath → FilePath → Bool
path_eqb [] [] = true
path_eqb (x ∷ xs) (y ∷ ys) = x == y && path_eqb xs ys
path_eqb _ _ = false

-- What is left of the two paths after their longest common prefix of elements.
unfoldable pub strip_common : FilePath → FilePath → FilePath × FilePath
strip_common (x ∷ xs) (y ∷ ys) =
    let rest = strip_common xs ys in if x == y then rest else (x ∷ xs, y ∷ ys)
strip_common xs ys = (xs, ys)

climb : FilePath × FilePath → List String
climb (base, targ) = map (λ _. "..") base ++ targ

-- `filepath.Rel`, by the elements of the relative path. On absolute paths it has no error.
unfoldable pub relative : FilePath → FilePath → List String
unfolding climb strip_common
relative base targ = climb (strip_common base targ)

pub path_eqb_iff : (xs ys : FilePath) → (path_eqb xs ys ≡ true) ↔ (xs ≡ ys)
unfolding path_eqb
path_eqb_iff [] [] = (λ _. refl, λ _. refl)
path_eqb_iff [] (y ∷ ys) = (λ h. cc, λ h. cc)
path_eqb_iff (x ∷ xs) [] = (λ h. cc, λ h. cc)
path_eqb_iff (x ∷ xs) (y ∷ ys) = ground (arith, eq_iff x y, path_eqb_iff xs ys)

-- The elements of a path are names.
abbrev pub Names : FilePath → Type 0
Names [] = Unit
Names (x ∷ xs) = ((x == "..") ≡ false) × Names xs

-- More than one element is left where the paths part at different names.
diverged-ne-parent :
    (zs : List String) (y : String) (ys : List String)
    → path_eqb (".." ∷ (zs ++ y ∷ ys)) (".." ∷ []) ≡ false
unfolding path_eqb
diverged-ne-parent [] y ys = refl
diverged-ne-parent (z ∷ zs) y ys = refl

-- The relative path is ".." only from a directory to its parent.
pub relative-eq-parent :
    (base targ : FilePath)
    → Names targ
    → path_eqb (relative base targ) (".." ∷ []) ≡ true
    → (x : String) × (base ≡ targ ++ (x ∷ []))
unfolding relative path_eqb
relative-eq-parent [] [] n h = cc
relative-eq-parent [] (y ∷ ys) n h = ground arith
relative-eq-parent (x ∷ []) [] n h = (x, refl)
relative-eq-parent (x ∷ x' ∷ xs) [] n h = ground arith
relative-eq-parent (x ∷ xs) (y ∷ ys) n h = elim (Bool-cases (x == y)) [
  | inl same ↦
      let (z, p) = relative-eq-parent xs ys n.1 (ground arith) in (z, cc ((eq_iff x y).0 same, p))
  | inr differ ↦
      let never : ⊥ = ground (arith, diverged-ne-parent (map (λ _. "..") xs) y ys) in absurd never
]

pub relative_parent :
    (targ : FilePath) (x : String) → path_eqb (relative (targ ++ (x ∷ [])) targ) (".." ∷ []) ≡ true
unfolding relative path_eqb
relative_parent [] x = refl
relative_parent (y ∷ ys) x = ground (arith, eq_iff y y, relative_parent ys x)

pub relative_child :
    (base : FilePath) (x : String)
    → path_eqb (relative base (base ++ (x ∷ []))) (".." ∷ []) ≡ (x == "..")
unfolding relative path_eqb
relative_child [] x = ground arith
relative_child (y ∷ ys) x = ground (arith, eq_iff y y, relative_child ys x)
