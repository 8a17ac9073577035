-- ===== src/Virtctl/Cleanup.antt =====
-- The files on disk while virtctl is looked for and cleaned up (pkg/virtctl/extractor.go).
use k8s_netperf.Prelude.{
  String, none, some, true, false, List, [], ◌∷◌, ◌++◌, ◌==◌, ◌≡◌, refl, ◌≢◌, ◌↔◌, inl, inr, arith,
  subst, sym, Option, Bool-cases, Option-cases, Result, ok, err, eqb, not, if◌then◌else◌, ◌⊎◌,
}
use k8s_netperf.Virtctl.{
  Error, write_failed, chmod_failed, remove_failed, Host, State, member, delete, remove,
  write_binary, create_temp, extract_embedded_virtctl, get_virtctl_path, is_temporary_path,
  cleanup_extracted_binary,
}
use k8s_netperf.Virtctl.Paths.{
  FilePath, Names, path_eqb, path_eqb_iff, relative-eq-parent, relative_parent, relative_child,
}

-- Everything counts as temporary except the parent of the temporary directory.
is_temporary_path-eq-false_iff :
    (temp_dir p : FilePath)
    → Names p
    → (is_temporary_path temp_dir p ≡ false) ↔ ((x : String) × (temp_dir ≡ p ++ (x ∷ [])))
unfolding is_temporary_path
is_temporary_path-eq-false_iff temp_dir p n =
    (λ h. relative-eq-parent temp_dir p n (ground arith), λ (x, e). rw e (rw (relative_parent p x)))

delete_absent : (p : FilePath) (fs : List FilePath) → member p fs ≡ false → delete p fs ≡ fs
unfolding member delete
delete_absent p [] h = refl
delete_absent p (q ∷ fs) h = ground (arith, delete_absent p fs)

member-delete : (p : FilePath) (fs : List FilePath) → member p (delete p fs) ≡ false
unfolding member delete
member-delete p [] = refl
member-delete p (q ∷ fs) = ground (arith, member-delete p fs)

path_eqb_refl : (p : FilePath) → path_eqb p p ≡ true
path_eqb_refl p = (path_eqb_iff p p).1 refl

-- `os.CreateTemp` takes the name of a file that is not there yet.
abbrev pub IsFresh : Host → State → Type 0
IsFresh h s =
    (x : String)
    → h.temp_name ≡ some x
    → ((x == "..") ≡ false) × (member (h.temp_dir ++ (x ∷ [])) s.files ≡ false)

-- What extraction leaves on disk: its file after a success; after an error nothing new, or the file
-- that it made and the system does not let it remove.
abbrev pub Extracted : Host → State → Result Error FilePath × State → Type 0
Extracted h s (ok p, t) = t.files ≡ p ∷ s.files
Extracted h s (err e, t) =
    (t.files ≡ s.files)
    ⊎ ((x : String) × (h.temp_name ≡ some x)
        × (h.removes (h.temp_dir ++ (x ∷ [])) ≡ false)
        × (t.files ≡ (h.temp_dir ++ (x ∷ [])) ∷ s.files))

module _ (h : Host) (s : State) (fresh : IsFresh h s) (x : String)
    (name : h.temp_name ≡ some x) where
  -- The state after `os.CreateTemp`.
  abbrev created : State
  created = record s { files = (h.temp_dir ++ (x ∷ [])) ∷ s.files }

  removed-Extracted :
      (e : Error) → Extracted h s (err e, (remove h (h.temp_dir ++ (x ∷ [])) created).1)
  unfolding remove member delete
  removed-Extracted e =
      let p = h.temp_dir ++ (x ∷ []) in
      let same = path_eqb_refl p in
      elim (Bool-cases (h.removes p)) [
        | inl k ↦ inl (ground (arith, same, k, delete_absent p s.files, (fresh x name).1))
        | inr k ↦ inr (x, name, k, ground (arith, same, k))
      ]

  write_binary-Extracted : Extracted h s (write_binary h (h.temp_dir ++ (x ∷ [])) created)
  unfolding write_binary
  write_binary-Extracted = elim (Bool-cases h.write_succeeds) [
    | inr e ↦ rw e (removed-Extracted write_failed)
    | inl e ↦ elim (Bool-cases h.chmod_succeeds) [
      | inr f ↦ rw (e, f) (removed-Extracted chmod_failed)
      | inl f ↦ rw (e, f) refl
    ]
  ]

create_temp-Extracted :
    (h : Host) (s : State) → IsFresh h s → Extracted h s (create_temp h h.temp_name s)
unfolding create_temp
create_temp-Extracted h s fresh =
    let leaves = λ (n : Option String). Extracted h s (create_temp h n s) in
    elim (Option-cases h.temp_name) [
      | inl e ↦ subst leaves (sym e) (inl refl)
      | inr (x, e) ↦ subst leaves (sym e) (write_binary-Extracted h s fresh x e)
    ]

-- An extraction that fails, at whatever call, has removed what it created if the system lets it
-- remove that file, and has left it otherwise; one that succeeds leaves one new file. The name that
-- `os.CreateTemp` takes is that of no file.
pub extract_embedded_virtctl-Extracted :
    (h : Host) (s : State) → IsFresh h s → Extracted h s (extract_embedded_virtctl h s)
unfolding extract_embedded_virtctl
extract_embedded_virtctl-Extracted h s fresh = elim (Bool-cases (h.platform == "linux/amd64")) [
  | inr e ↦ rw e (inl refl)
  | inl e ↦ elim (Bool-cases (eqb h.binary_len 0)) [
    | inl f ↦ rw (e, f) (inl refl)
    | inr f ↦ rw (e, f) (create_temp-Extracted h s fresh)
  ]
]

-- After the first call the answer is fixed, whatever the host says later, and no call touches
-- the files again.
get_virtctl_path_once :
    (h h' : Host) (s : State)
    → get_virtctl_path h' (get_virtctl_path h s).1
      ≡ ((get_virtctl_path h s).0, (get_virtctl_path h s).1)
unfolding get_virtctl_path
get_virtctl_path_once h h' s = ground arith

-- A new file of the temporary directory counts as temporary.
new_file-is_temporary :
    (d : FilePath) (x : String) → (x == "..") ≡ false → is_temporary_path d (d ++ (x ∷ [])) ≡ true
unfolding is_temporary_path
new_file-is_temporary d x h = rw (relative_child d x, h)

extracted_to_temp_dir :
    (h : Host) (s t : State) (p : FilePath)
    → extract_embedded_virtctl h s ≡ (ok p, t)
    → (x : String) × (h.temp_name ≡ some x) × (p ≡ h.temp_dir ++ (x ∷ []))
unfolding extract_embedded_virtctl
extracted_to_temp_dir h s t p e = elim (Option-cases h.temp_name) [
  | inl no_name ↦ let never : ⊥ = ground (arith, no_name) in absurd never
  | inr (x, name) ↦ (x, name, ground (arith, name))
]

-- A run that extracts the embedded binary and cleans up leaves the files as it found them, with no
-- error, if the system lets it remove its file; otherwise it returns that error and leaves the file.
-- The name that `os.CreateTemp` takes is that of no file.
pub cleanup_after_extraction :
    (h : Host) (s t : State) (p : FilePath)
    → IsFresh h s
    → s.once_done ≡ false
    → extract_embedded_virtctl h s ≡ (ok p, t)
    → let (e, u) = cleanup_extracted_binary h (get_virtctl_path h s).1 in
      (e ≡ (if h.removes p then none else some remove_failed))
      × (u.files ≡ (if h.removes p then s.files else p ∷ s.files))
unfolding get_virtctl_path cleanup_extracted_binary remove member delete
cleanup_after_extraction h s t p fresh start done =
    let (x, name, e) = extracted_to_temp_dir h s t p done in
    let left : t.files ≡ p ∷ s.files =
      subst (Extracted h s) done (extract_embedded_virtctl-Extracted h s fresh) in
    let temp : is_temporary_path h.temp_dir p ≡ true =
      rw e (new_file-is_temporary h.temp_dir x (fresh x name).0) in
    let gone : member p s.files ≡ false = rw e (fresh x name).1 in
    elim (Bool-cases (h.removes p)) [
      | inl k ↦
          simp (start, done)
            (ground (arith, k, temp, left, gone, path_eqb_refl p, delete_absent p s.files))
      | inr k ↦ simp (start, done) (ground (arith, k, temp, left, path_eqb_refl p))
    ]

not_parent-is_temporary :
    (d p : FilePath) → Names p → ((x : String) → d ≢ p ++ (x ∷ [])) → is_temporary_path d p ≡ true
not_parent-is_temporary d p n far = elim (Bool-cases (is_temporary_path d p)) [
  | inl counts ↦ counts
  | inr not_temp ↦
      let (x, e) = (is_temporary_path-eq-false_iff d p n).0 not_temp in absurd (far x e)
]

-- A file that was there is there after an extraction that failed.
failed-member :
    (h : Host) (s t : State) (e : Error) (p : FilePath)
    → Extracted h s (err e, t)
    → member p s.files ≡ true
    → member p t.files ≡ true
unfolding member
failed-member h s t e p (inl same) there = rw same there
failed-member h s t e p (inr (x, _, _, left)) there =
    rw left (elim (Bool-cases (path_eqb (h.temp_dir ++ (x ∷ [])) p)) [
      | inl k ↦ rw k refl
      | inr k ↦ rw k there
    ])

-- The cleanup hands a virtctl that was found on the system's PATH to `os.Remove`, wherever it lies,
-- unless its path is that of the directory that holds the temporary directory: it is deleted, with
-- no error, if the system lets the program remove it, and otherwise the cleanup returns that error.
-- It is not deleted before.
pub cleanup_deletes_system_virtctl :
    (h : Host) (s t : State) (e : Error) (p : FilePath)
    → IsFresh h s
    → s.once_done ≡ false
    → extract_embedded_virtctl h s ≡ (err e, t)
    → h.look_path ≡ some p
    → member p s.files ≡ true
    → Names p
    → ((x : String) → h.temp_dir ≢ p ++ (x ∷ []))
    → let (answer, u) = get_virtctl_path h s in
      let (e', v) = cleanup_extracted_binary h u in
      (answer ≡ (some p, none))
      × (member p u.files ≡ true)
      × (e' ≡ (if h.removes p then none else some remove_failed))
      × (member p v.files ≡ not (h.removes p))
unfolding get_virtctl_path cleanup_extracted_binary remove
cleanup_deletes_system_virtctl h s t e p fresh start failed found there n far =
    let stays : member p t.files ≡ true =
      failed-member h s t e p
        (subst (Extracted h s) failed (extract_embedded_virtctl-Extracted h s fresh)) there in
    let temp = not_parent-is_temporary h.temp_dir p n far in
    elim (Bool-cases (h.removes p)) [
      | inl k ↦
          simp (start, failed) (ground (arith, k, stays, temp, found, member-delete p t.files))
      | inr k ↦ simp (start, failed) (ground (arith, k, stays, temp, found))
    ]
