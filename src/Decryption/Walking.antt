-- ===== src/Decryption/Walking.antt =====
-- `recurseKustomizationFiles` of internal/decryptor/decryptor.go: the walk over the Kustomization
-- files that a directory refers to.
pub mod Ending
pub mod Keeping
use kustomize_controller.Base.{
  String, ◌<>◌, Bool, true, false, if◌then◌else◌, Option, none, some, List, [], ◌∷◌, ◌++◌, ℕ, zero,
  suc, contains, not,
}
use kustomize_controller.Errors.{
  Error, wrapped, text_error, Result, ok, err, ◌>>=◌, is_file_not_found,
}
use kustomize_controller.Io.{Io}
use kustomize_controller.Decryption.Files.{
  Files, FileInfo, KustomizationFile, secure_paths, secure_path_err,
}

module _ {W : Type 0} (F : Files W) where
  -- What is found at one of the recognized names, and the path to load that was found before.
  abbrev candidate :
      String → String → String → Option String → Result FileInfo → Result (Option String)
  candidate root name path found (err e) =
      if is_file_not_found e
      then ok found
      else err (wrapped ("failed to lstat " <> name <> ": ") (secure_path_err F root e))
  candidate root name path found (ok info) =
      if not info.is_regular
      then err (text_error ("expected " <> name <> " to be a regular file"))
      else elim found [
        | some other ↦ err (text_error "found multiple kustomization files")
        | none ↦ ok (some path)
      ]

  abbrev join_error : String → Result String → Result String
  join_error name (ok path) = ok path
  join_error name (err e) = err (wrapped ("failed to secure join " <> name <> ": ") e)

  -- The loop over `konfig.RecognizedKustomizationFileNames()`, with the path found so far.
  unfoldable pub find_load_path :
      String → String → W → List String → Option String → Result (Option String)
  unfolding secure_path_err
  find_load_path root path w [] found = ok found
  find_load_path root path w (name ∷ names) found =
      join_error name (F.secure_join root (F.join path name) w) >>= λ full.
      candidate root name full found (F.lstat full w) >>= λ more.
      find_load_path root path w names more

  abbrev read_error : String → Result String → Result String
  read_error root (ok text) = ok text
  read_error root (err e) =
      err (wrapped "failed to read kustomization file: " (secure_path_err F root e))

  abbrev unmarshal_error : String → Result KustomizationFile → Result KustomizationFile
  unmarshal_error path (ok kus) = ok kus
  unmarshal_error path (err e) =
      err (wrapped ("failed to unmarshal kustomization file from '" <> path <> "': ") e)

  abbrev load_found : String → W → Option String → Result KustomizationFile
  load_found root w none = err (text_error "no kustomization file found")
  load_found root w (some path) =
      read_error root (F.read_file path w) >>= λ text. unmarshal_error path (F.unmarshal text)

  -- `secureLoadKustomizationFile(root, path)`
  unfoldable pub secure_load_kustomization_file : String → String → W → Result KustomizationFile
  unfolding find_load_path secure_path_err
  secure_load_kustomization_file root path w =
      if not (F.is_abs root)
      then err (text_error ("root '" <> root <> "' must be absolute"))
      else if F.is_abs path
      then err (text_error ("path '" <> path <> "' must be relative"))
      else find_load_path root path w F.recognized_names none >>= load_found root w

-- How the walk from a path ends: an ignorable error is an `errRecurseIgnore`.
pub data Outcome : Type 0 where
  finished : Outcome
  ignorable failed : Error → Outcome

-- The error that `DecryptSources` returns.
abbrev pub result_of : Outcome → Result (Unit {0})
result_of finished = ok tt
result_of (ignorable e) = err e
result_of (failed e) = err e

-- The paths visited, the latest first, and the state of the visitor.
abbrev pub Walk : Type 0 → Type 0
Walk S = List String × S

-- A walk that ran out of fuel has no outcome.
abbrev pub Step : Type 0 → Type 0
Step S = Walk S → Option (Outcome × Walk S)

-- `visitKustomization`, for the root of the walk
abbrev pub Visit : Type 0 → Type 0
Visit S = String → KustomizationFile → Io S (Unit {0})

module _ {S : Type 0} where
  -- The error of one resource ends the walk over the others, if it is not ignorable.
  abbrev pub and_then : Option (Outcome × Walk S) → Step S → Option (Outcome × Walk S)
  and_then none next = none
  and_then (some (finished, st)) next = next st
  and_then (some (ignorable e, st)) next = next st
  and_then (some (failed e, st)) next = some (failed e, st)

module _ {W S : Type 0} (F : Files W) (world : S → W) (root : String) (visit : Visit S) where
  -- The loop over the resources, where `walk` is the recursive call.
  unfoldable pub walk_resources : (String → Step S) → String → List String → Step S
  walk_resources walk path [] st = some (finished, st)
  walk_resources walk path (res ∷ rest) st =
      and_then (walk (if F.is_abs res then res else F.join path res) st)
        (walk_resources walk path rest)

  abbrev pub visit_error :
      (String → Step S)
      → String
      → KustomizationFile
      → List String
      → Result (Unit {0}) × S
      → Option (Outcome × Walk S)
  visit_error walk path kus visited (err e, s) = some (failed e, (visited, s))
  visit_error walk path kus visited (ok u, s) =
      walk_resources walk path (kus.resources ++ kus.components) (visited, s)

  abbrev pub load_error :
      (String → Step S)
      → String
      → List String
      → S
      → Result KustomizationFile
      → Option (Outcome × Walk S)
  load_error walk path visited s (err e) = some (failed e, (visited, s))
  load_error walk path visited s (ok kus) = visit_error walk path kus visited (visit path kus s)

  abbrev pub if_directory :
      (String → Step S) → String → String → List String → S → Bool → Option (Outcome × Walk S)
  if_directory walk path rel visited s false =
      some (ignorable (text_error "not a directory"), (visited, s))
  if_directory walk path rel visited s true =
      load_error walk path visited s (secure_load_kustomization_file F root rel (world s))

  abbrev pub not_found_ignored : Error → Outcome
  not_found_ignored e = if is_file_not_found e then ignorable e else failed e

  abbrev pub lstat_error :
      (String → Step S)
      → String
      → String
      → List String
      → S
      → Result FileInfo
      → Option (Outcome × Walk S)
  lstat_error walk path rel visited s (err e) =
      some (not_found_ignored (secure_path_err F root e), (visited, s))
  lstat_error walk path rel visited s (ok info) = if_directory walk path rel visited s info.is_dir

  -- `if _, ok := visited[absPath]; ok`, the rest, where `visited[absPath]` is set first
  abbrev pub unless_visited :
      (String → Step S)
      → String
      → String
      → String
      → List String
      → S
      → Bool
      → Option (Outcome × Walk S)
  unless_visited walk path abs rel visited s true = some (finished, (visited, s))
  unless_visited walk path abs rel visited s false =
      lstat_error walk path rel (abs ∷ visited) s (F.lstat abs (world s))

  abbrev pub paths_error :
      (String → Step S)
      → String
      → List String
      → S
      → Result (String × String)
      → Option (Outcome × Walk S)
  paths_error walk path visited s (err e) = some (failed e, (visited, s))
  paths_error walk path visited s (ok (abs, rel)) =
      unless_visited walk path abs rel visited s (contains visited abs)

  -- `recurseKustomizationFiles(root, path, visit, visited)`
  unfoldable pub recurse_kustomization_files : ℕ → String → Step S
  unfolding walk_resources secure_paths secure_path_err secure_load_kustomization_file
  recurse_kustomization_files zero path st = none
  recurse_kustomization_files (suc fuel) path (visited, s) =
      paths_error (recurse_kustomization_files fuel) path visited s
        (secure_paths F root path (world s))
