-- ===== src/Decryption/Walking/Ending.antt =====
-- The walk over the Kustomization files ends: no directory is entered twice.
use kustomize_controller.Base.{
  String, Bool, true, false, if◌then◌else◌, Option, none, some, List, [], ◌∷◌, ◌++◌, ℕ, zero, suc,
  contains, In, inl, inr, ◌≡◌, refl, ◌≤◌, ◌<◌, ◌+◌, arith, eq_iff,
}
use kustomize_controller.Errors.{Result, ok, err}
use kustomize_controller.Decryption.Files.{Files, FileInfo, KustomizationFile, secure_paths}
use kustomize_controller.Decryption.Walking.{
  Outcome, finished, ignorable, failed, Walk, Step, Visit, walk_resources,
  recurse_kustomization_files, secure_load_kustomization_file, and_then, visit_error, load_error,
  if_directory, lstat_error, unless_visited, paths_error,
}

-- How many of the directories have not been visited.
unfoldable pub unvisited : List String → List String → ℕ
unvisited [] visited = 0
unvisited (d ∷ dirs) visited = (if contains visited d then 0 else 1) + unvisited dirs visited

unvisited-cons_le :
    (dirs visited : List String) (a : String)
    → unvisited dirs (a ∷ visited) ≤ unvisited dirs visited
unfolding unvisited
unvisited-cons_le [] visited a = omega arith
unvisited-cons_le (d ∷ dirs) visited a = ground (arith, unvisited-cons_le dirs visited a)

unvisited-cons_lt :
    (dirs visited : List String) (a : String)
    → In a dirs
    → contains visited a ≡ false
    → unvisited dirs (a ∷ visited) < unvisited dirs visited
unfolding unvisited
unvisited-cons_lt [] visited a m fresh = absurd m
unvisited-cons_lt (d ∷ dirs) visited a (inl e) fresh =
    ground (arith, eq_iff a d, unvisited-cons_le dirs visited a)
unvisited-cons_lt (d ∷ dirs) visited a (inr m) fresh =
    ground (arith, unvisited-cons_lt dirs visited a m fresh)

module _ {W S : Type 0} (F : Files W) (world : S → W) (root : String) (visit : Visit S) where
  -- The walk has an outcome, and has visited no less of the directories than it was given.
  abbrev Ends : List String → List String → Option (Outcome × Walk S) → Type 0
  Ends dirs visited none = ⊥
  Ends dirs visited (some (o, st)) = unvisited dirs st.0 ≤ unvisited dirs visited

  Ends-weaken :
      (dirs v u : List String) (o : Option (Outcome × Walk S))
      → unvisited dirs v ≤ unvisited dirs u
      → Ends dirs v o
      → Ends dirs u o
  Ends-weaken dirs v u none le h = absurd h
  Ends-weaken dirs v u (some (o, st)) le h = omega arith

  module _ (dirs : List String) (walk : String → Step S) (m : ℕ)
      (walks : (path : String) (st : Walk S)
        → unvisited dirs st.0 < m
        → Ends dirs st.0 (walk path st)) where
    and_then-Ends :
        (o : Option (Outcome × Walk S)) (visited : List String) (next : Step S)
        → unvisited dirs visited < m
        → Ends dirs visited o
        → ((st : Walk S) → unvisited dirs st.0 < m → Ends dirs st.0 (next st))
        → Ends dirs visited (and_then o next)
    and_then-Ends none visited next lt h k = absurd h
    and_then-Ends (some (finished, st)) visited next lt h k =
        Ends-weaken dirs st.0 visited (next st) h (k st (omega arith))
    and_then-Ends (some (ignorable e, st)) visited next lt h k =
        Ends-weaken dirs st.0 visited (next st) h (k st (omega arith))
    and_then-Ends (some (failed e, st)) visited next lt h k = h

    walk_resources-Ends :
        (path : String) (rs : List String) (st : Walk S)
        → unvisited dirs st.0 < m
        → Ends dirs st.0 (walk_resources F world root visit walk path rs st)
    unfolding walk_resources
    walk_resources-Ends path [] st lt = omega arith
    walk_resources-Ends path (res ∷ rest) st lt =
        and_then-Ends (walk (if F.is_abs res then res else F.join path res) st) st.0
          (walk_resources F world root visit walk path rest) lt
          (walks (if F.is_abs res then res else F.join path res) st lt)
          (λ t. walk_resources-Ends path rest t)

    visit_error-Ends :
        (path : String) (kus : KustomizationFile) (visited : List String)
        (o : Result (Unit {0}) × S)
        → unvisited dirs visited < m
        → Ends dirs visited (visit_error F world root visit walk path kus visited o)
    visit_error-Ends path kus visited (err e, s) lt = omega arith
    visit_error-Ends path kus visited (ok u, s) lt =
        walk_resources-Ends path (kus.resources ++ kus.components) (visited, s) lt

    load_error-Ends :
        (path : String) (visited : List String) (s : S) (r : Result KustomizationFile)
        → unvisited dirs visited < m
        → Ends dirs visited (load_error F world root visit walk path visited s r)
    load_error-Ends path visited s (err e) lt = omega arith
    load_error-Ends path visited s (ok kus) lt =
        visit_error-Ends path kus visited (visit path kus s) lt

    if_directory-Ends :
        (path rel : String) (visited : List String) (s : S) (is_dir : Bool)
        → (is_dir ≡ true → unvisited dirs visited < m)
        → Ends dirs visited (if_directory F world root visit walk path rel visited s is_dir)
    if_directory-Ends path rel visited s false lt = omega arith
    if_directory-Ends path rel visited s true lt =
        load_error-Ends path visited s (secure_load_kustomization_file F root rel (world s))
          (lt refl)

    lstat_error-Ends :
        (path rel : String) (visited : List String) (s : S) (r : Result FileInfo)
        → ((info : FileInfo) → r ≡ ok info → info.is_dir ≡ true → unvisited dirs visited < m)
        → Ends dirs visited (lstat_error F world root visit walk path rel visited s r)
    lstat_error-Ends path rel visited s (err e) lt = omega arith
    lstat_error-Ends path rel visited s (ok info) lt =
        if_directory-Ends path rel visited s info.is_dir (lt info refl)

  module _ (dirs : List String)
      (finite : (path : String) (w : W) (info : FileInfo)
        → F.lstat path w ≡ ok info
        → info.is_dir ≡ true
        → In path dirs) where
    unless_visited-Ends :
        (walk : String → Step S) (m : ℕ)
        → ((path : String) (st : Walk S) → unvisited dirs st.0 < m → Ends dirs st.0 (walk path st))
        → (path abs rel : String) (visited : List String) (s : S) (seen : Bool)
        → contains visited abs ≡ seen
        → unvisited dirs visited < suc m
        → Ends dirs visited (unless_visited F world root visit walk path abs rel visited s seen)
    unless_visited-Ends walk m walks path abs rel visited s true e lt = omega arith
    unless_visited-Ends walk m walks path abs rel visited s false e lt =
        Ends-weaken dirs (abs ∷ visited) visited
          (lstat_error F world root visit walk path rel (abs ∷ visited) s (F.lstat abs (world s)))
          (unvisited-cons_le dirs visited abs)
          (lstat_error-Ends dirs walk m walks path rel (abs ∷ visited) s (F.lstat abs (world s))
            (λ info found dir.
              ground (
                arith,
                unvisited-cons_lt dirs visited abs (finite abs (world s) info found dir) e,
              )))

    paths_error-Ends :
        (walk : String → Step S) (m : ℕ)
        → ((path : String) (st : Walk S) → unvisited dirs st.0 < m → Ends dirs st.0 (walk path st))
        → (path : String) (visited : List String) (s : S) (r : Result (String × String))
        → unvisited dirs visited < suc m
        → Ends dirs visited (paths_error F world root visit walk path visited s r)
    paths_error-Ends walk m walks path visited s (err e) lt = omega arith
    paths_error-Ends walk m walks path visited s (ok (abs, rel)) lt =
        unless_visited-Ends walk m walks path abs rel visited s (contains visited abs) refl lt

    recurse_kustomization_files-Ends :
        (fuel : ℕ) (path : String) (st : Walk S)
        → unvisited dirs st.0 < fuel
        → Ends dirs st.0 (recurse_kustomization_files F world root visit fuel path st)
    unfolding recurse_kustomization_files
    recurse_kustomization_files-Ends zero path st lt = ground arith
    recurse_kustomization_files-Ends (suc n) path (visited, s) lt =
        paths_error-Ends (recurse_kustomization_files F world root visit n) n
          (recurse_kustomization_files-Ends n) path visited s (secure_paths F root path (world s))
          lt

    Ends-outcome :
        (visited : List String) (r : Option (Outcome × Walk S))
        → Ends dirs visited r
        → (o : Outcome) × (st : Walk S) × (r ≡ some (o, st))
    Ends-outcome visited none h = absurd h
    Ends-outcome visited (some (o, st)) h = (o, st, refl)

    -- If all directories of the file system, whatever is written to it, are among finitely many ones,
    -- the walk from any path ends with an outcome, for every visitor, once the fuel exceeds the number
    -- of those that have not been visited.
    pub recurse_kustomization_files_ends :
        (fuel : ℕ) (path : String) (visited : List String) (s : S)
        → unvisited dirs visited < fuel
        → (o : Outcome) × (st : Walk S) × (recurse_kustomization_files F world root visit fuel path
              (visited, s)
            ≡ some (o, st))
    recurse_kustomization_files_ends fuel path visited s lt =
        Ends-outcome visited (recurse_kustomization_files F world root visit fuel path (visited, s))
          (recurse_kustomization_files-Ends fuel path (visited, s) lt)
