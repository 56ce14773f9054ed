-- ===== src/Decryption/Walking/Keeping.antt =====
-- What the walk over the Kustomization files leaves as it was: all that each visit leaves so.
use kustomize_controller.Base.{
  String, Bool, true, false, if◌then◌else◌, Option, none, some, List, [], ◌∷◌, ◌++◌, ℕ, zero, suc,
  contains,
}
use kustomize_controller.Errors.{Result, ok, err}
use kustomize_controller.Decryption.Files.{Files, FileInfo, KustomizationFile, secure_paths}
use kustomize_controller.Decryption.Walking.{
  Outcome, finished, ignorable, failed, Walk, Step, Visit, walk_resources,
  recurse_kustomization_files, secure_load_kustomization_file, and_then, visit_error, load_error,
  if_directory, lstat_error, unless_visited, paths_error,
}

module _ {W S : Type 0} (F : Files W) (world : S → W) (root : String) (visit : Visit S)
    (I : S → Type 0)
    (visits : (path : String) (kus : KustomizationFile) (s : S)
      → I s
      → I (visit path kus s).1) where
  -- The outcome, if the fuel suffices, has a state with the property.
  abbrev pub Kept : Option (Outcome × Walk S) → Type 0
  Kept none = Unit
  Kept (some (o, st)) = I st.1

  and_then-Kept :
      (o : Option (Outcome × Walk S)) (next : Step S)
      → Kept o
      → ((st : Walk S) → I st.1 → Kept (next st))
      → Kept (and_then o next)
  and_then-Kept none next h k = tt
  and_then-Kept (some (finished, st)) next h k = k st h
  and_then-Kept (some (ignorable e, st)) next h k = k st h
  and_then-Kept (some (failed e, st)) next h k = h

  module _ (walk : String → Step S)
      (walks : (path : String) (st : Walk S) → I st.1 → Kept (walk path st)) where
    walk_resources-Kept :
        (path : String) (rs : List String) (st : Walk S)
        → I st.1
        → Kept (walk_resources F world root visit walk path rs st)
    unfolding walk_resources
    walk_resources-Kept path [] st i = i
    walk_resources-Kept path (res ∷ rest) st i =
        and_then-Kept (walk (if F.is_abs res then res else F.join path res) st)
          (walk_resources F world root visit walk path rest)
          (walks (if F.is_abs res then res else F.join path res) st i)
          (λ t. walk_resources-Kept path rest t)

    visit_error-Kept :
        (path : String) (kus : KustomizationFile) (visited : List String)
        (o : Result (Unit {0}) × S)
        → I o.1
        → Kept (visit_error F world root visit walk path kus visited o)
    visit_error-Kept path kus visited (err e, s) i = i
    visit_error-Kept path kus visited (ok u, s) i =
        walk_resources-Kept path (kus.resources ++ kus.components) (visited, s) i

    load_error-Kept :
        (path : String) (visited : List String) (s : S) (r : Result KustomizationFile)
        → I s
        → Kept (load_error F world root visit walk path visited s r)
    load_error-Kept path visited s (err e) i = i
    load_error-Kept path visited s (ok kus) i =
        visit_error-Kept path kus visited (visit path kus s) (visits path kus s i)

    lstat_error-Kept :
        (path rel : String) (visited : List String) (s : S) (r : Result FileInfo)
        → I s
        → Kept (lstat_error F world root visit walk path rel visited s r)
    lstat_error-Kept path rel visited s (err e) i = i
    lstat_error-Kept path rel visited s (ok info) i = at info.is_dir
      where
        at : (is_dir : Bool) → Kept (if_directory F world root visit walk path rel visited s is_dir)
        at false = i
        at true =
            load_error-Kept path visited s (secure_load_kustomization_file F root rel (world s)) i

    paths_error-Kept :
        (path : String) (visited : List String) (s : S) (r : Result (String × String))
        → I s
        → Kept (paths_error F world root visit walk path visited s r)
    paths_error-Kept path visited s (err e) i = i
    paths_error-Kept path visited s (ok (abs, rel)) i = at (contains visited abs)
      where
        at :
            (seen : Bool)
            → Kept (unless_visited F world root visit walk path abs rel visited s seen)
        at true = i
        at false = lstat_error-Kept path rel (abs ∷ visited) s (F.lstat abs (world s)) i

  pub recurse_kustomization_files-Kept :
      (fuel : ℕ) (path : String) (st : Walk S)
      → I st.1
      → Kept (recurse_kustomization_files F world root visit fuel path st)
  unfolding recurse_kustomization_files
  recurse_kustomization_files-Kept zero path st i = tt
  recurse_kustomization_files-Kept (suc n) path (visited, s) i =
      paths_error-Kept (recurse_kustomization_files F world root visit n)
        (recurse_kustomization_files-Kept n) path visited s (secure_paths F root path (world s)) i
