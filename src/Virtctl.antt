-- ===== src/Virtctl.antt =====
-- pkg/virtctl/extractor.go: where the virtctl binary comes from, and its removal at exit.
pub mod Paths
pub mod Cleanup
use k8s_netperf.Prelude.{
  ℕ, String, Option, none, some, Bool, true, false, not, List, [], ◌∷◌, ◌++◌, ◌==◌, if◌then◌else◌,
  eqb, Result, ok, err,
}
use Paths.{FilePath, relative, path_eqb}

-- What the errors of this package say.
pub data Error : Type 0 where
  unsupported_platform empty_binary create_failed write_failed chmod_failed not_available : Error
  missing_file remove_failed : Error

-- What the operating system answers: the platform, the embedded bytes, the temporary directory and
-- the new name that `os.CreateTemp` takes there, the outcome of each call on the temporary file,
-- which files it lets `os.Remove` delete, and what `exec.LookPath` finds.
pub record Host : Type 0 where
  pub platform : String
  pub binary_len : ℕ
  pub temp_dir : FilePath
  pub temp_name : Option String
  pub write_succeeds : Bool
  pub chmod_succeeds : Bool
  pub removes : FilePath → Bool
  pub look_path : Option FilePath

-- The files on disk, and the package's variables; `extractOnce` is its `done` bit.
pub record State : Type 0 where
  pub files : List FilePath
  pub once_done : Bool
  pub extracted_path : Option FilePath
  pub extract_err : Option Error

unfoldable pub member : FilePath → List FilePath → Bool
unfolding path_eqb
member p [] = false
member p (q ∷ fs) = if path_eqb q p then true else member p fs

unfoldable pub delete : FilePath → List FilePath → List FilePath
unfolding path_eqb
delete p [] = []
delete p (q ∷ fs) = let rest = delete p fs in if path_eqb q p then rest else q ∷ rest

-- `os.Remove`
unfoldable pub remove : Host → FilePath → State → Option Error × State
unfolding member delete
remove h p s =
    if member p s.files
    then (if h.removes p
        then (none, record s { files = delete p s.files })
        else (some remove_failed, s))
    else (some missing_file, s)

-- The part of `extractEmbeddedVirtctl` after `os.CreateTemp`; an error of `os.Remove` is only logged.
unfoldable pub write_binary : Host → FilePath → State → Result Error FilePath × State
unfolding remove
write_binary h p s =
    if not h.write_succeeds
    then (err write_failed, (remove h p s).1)
    else if not h.chmod_succeeds
    then (err chmod_failed, (remove h p s).1)
    else (ok p, s)

-- `os.CreateTemp("", …)` makes a new file in the temporary directory.
unfoldable pub create_temp : Host → Option String → State → Result Error FilePath × State
unfolding write_binary
create_temp h none s = (err create_failed, s)
create_temp h (some x) s =
    let p = h.temp_dir ++ (x ∷ []) in write_binary h p (record s { files = p ∷ s.files })

unfoldable pub extract_embedded_virtctl : Host → State → Result Error FilePath × State
unfolding create_temp
extract_embedded_virtctl h s =
    if not (h.platform == "linux/amd64")
    then (err unsupported_platform, s)
    else if eqb h.binary_len 0
    then (err empty_binary, s)
    else create_temp h h.temp_name s

-- The fallback to the system's PATH.
unfoldable pub system_path : Option FilePath → Result Error FilePath
system_path none = err not_available
system_path (some p) = ok p

unfoldable pub or_system : Host → Result Error FilePath × State → Result Error FilePath × State
unfolding system_path
or_system h (ok p, s) = (ok p, s)
or_system h (err e, s) = (system_path h.look_path, s)

unfoldable pub get_virtctl_path_internal : Host → State → Result Error FilePath × State
unfolding or_system
get_virtctl_path_internal h s = or_system h (extract_embedded_virtctl h s)

unfoldable pub store : Result Error FilePath × State → State
store (ok p, s) = record s { once_done = true; extracted_path = some p; extract_err = none }
store (err e, s) = record s { once_done = true; extracted_path = none; extract_err = some e }

unfoldable pub answer : Option FilePath → Option Error → Option FilePath × Option Error
answer p e = (p, e)

-- `extractOnce.Do`, and the two variables that it leaves. No path is `none`, for Go's "".
unfoldable pub get_virtctl_path : Host → State → (Option FilePath × Option Error) × State
unfolding store answer get_virtctl_path_internal
get_virtctl_path h s =
    let s' = if s.once_done then s else store (get_virtctl_path_internal h s) in
    (answer s'.extracted_path s'.extract_err, s')

unfoldable pub is_temporary_path : FilePath → FilePath → Bool
unfolding relative path_eqb
is_temporary_path temp_dir p = not (path_eqb (relative temp_dir p) (".." ∷ []))

unfoldable pub cleanup_path : Host → Option FilePath → State → Option Error × State
cleanup_path h none s = (none, s)
cleanup_path h (some p) s = if is_temporary_path h.temp_dir p then remove h p s else (none, s)

unfoldable pub cleanup_extracted_binary : Host → State → Option Error × State
unfolding cleanup_path
cleanup_extracted_binary h s = cleanup_path h s.extracted_path s
