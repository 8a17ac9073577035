-- ===== src/Tests/Binaries.antt =====
-- Hosts on which virtctl is looked for.
use k8s_netperf.Prelude.{
  String, true, false, Option, none, some, [], ◌∷◌, ◌++◌, ◌≡◌, ◌≢◌, refl, subst, ◌==◌,
}
use k8s_netperf.Virtctl.{
  Host, State, create_failed, extract_embedded_virtctl, get_virtctl_path, cleanup_extracted_binary,
  member,
}
use k8s_netperf.Virtctl.Paths.{FilePath}
use k8s_netperf.Virtctl.Cleanup.{
  IsFresh, Extracted, extract_embedded_virtctl-Extracted, cleanup_after_extraction,
  cleanup_deletes_system_virtctl,
}

abbrev tmp : FilePath
tmp = "var" ∷ "tmp" ∷ []

abbrev installed : FilePath
installed = "usr" ∷ "bin" ∷ "virtctl" ∷ []

abbrev host : Host
host = record {
  platform = "linux/amd64";
  binary_len = 1000;
  temp_dir = tmp;
  temp_name = some "virtctl-17";
  write_succeeds = true;
  chmod_succeeds = true;
  removes = λ _. true;
  look_path = some installed;
}

-- The temporary directory cannot be written.
abbrev full : Host
full = record host { temp_name = none }

abbrev start : State
start = record {
  files = installed ∷ [];
  once_done = false;
  extracted_path = none;
  extract_err = none;
}

abbrev extracted : State
extracted = record start { files = ("var" ∷ "tmp" ∷ "virtctl-17" ∷ []) ∷ installed ∷ [] }

IsFresh-host : IsFresh host start
unfolding member
IsFresh-host x e =
    subst
      (λ (n : Option String). elim n [
        | none ↦ Unit {0}
        | some y ↦ ((y == "..") ≡ false) × (member (tmp ++ (y ∷ [])) (installed ∷ []) ≡ false)
      ])
      e (refl, refl)

IsFresh-full : IsFresh full start
IsFresh-full x e = cc

extract_embedded_virtctl-Extracted_example :
    Extracted host start (extract_embedded_virtctl host start)
extract_embedded_virtctl-Extracted_example =
    extract_embedded_virtctl-Extracted host start IsFresh-host

cleanup_after_extraction_example :
    let (e, u) = cleanup_extracted_binary host (get_virtctl_path host start).1 in
    (e ≡ none) × (u.files ≡ installed ∷ [])
unfolding extract_embedded_virtctl
cleanup_after_extraction_example =
    cleanup_after_extraction host start extracted ("var" ∷ "tmp" ∷ "virtctl-17" ∷ []) IsFresh-host
      refl refl

longer_path : (x : String) → tmp ≢ installed ++ (x ∷ [])
longer_path x e = cc

cleanup_deletes_system_virtctl_example :
    let (answer, u) = get_virtctl_path full start in
    let (e, v) = cleanup_extracted_binary full u in
    (answer ≡ (some installed, none))
    × (member installed u.files ≡ true)
    × (e ≡ none)
    × (member installed v.files ≡ false)
unfolding extract_embedded_virtctl member
cleanup_deletes_system_virtctl_example =
    cleanup_deletes_system_virtctl full start start create_failed installed IsFresh-full refl refl
      refl refl (refl, (refl, (refl, tt))) longer_path
