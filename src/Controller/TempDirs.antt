-- ===== src/Controller/TempDirs.antt =====
-- internal/controller/tmpdir.go: the removal of directories that an earlier process left.
use kustomize_controller.Base.{
  String, ◌<>◌, ◌&&◌, Bool, if◌then◌else◌, Option, none, some, List, [], ◌∷◌, ℕ, suc,
}
use kustomize_controller.Base.Cutting.{has_prefix}
use kustomize_controller.Errors.{Error, Result, ok, err, wrapped}

-- `TempDirPrefix`
abbrev pub temp_dir_prefix : String
temp_dir_prefix = "kustomization-"

-- `os.DirEntry`
pub record DirEntry : Type 0 where
  pub name : String
  pub is_dir : Bool

-- `os.ReadDir`, `filepath.Join`, whether the context is done, and `os.RemoveAll`
pub record Directories (W : Type 0) : Type 0 where
  pub read_dir : String → W → Result (List DirEntry)
  pub join : String → String → String
  pub is_done : W → Bool
  pub remove_all : String → W → Option Error × W

module _ {W : Type 0} (P : Directories W) where
  unfoldable pub stale_dirs : String → List DirEntry → List String
  unfolding has_prefix
  stale_dirs root [] = []
  stale_dirs root (entry ∷ entries) =
      let rest = stale_dirs root entries in
      if entry.is_dir && has_prefix entry.name temp_dir_prefix
      then P.join root entry.name ∷ rest
      else rest

  abbrev listed : String → Result (List DirEntry) → Result (List String)
  listed root (err e) = err (wrapped ("failed to list " <> (root <> ": ")) e)
  listed root (ok entries) = ok (stale_dirs root entries)

  -- `ListStaleTempDirs(root)`
  unfoldable pub list_stale_temp_dirs : String → W → Result (List String)
  unfolding stale_dirs
  list_stale_temp_dirs root w = listed root (P.read_dir root w)

  abbrev count_removed : Option Error → ℕ × W → ℕ × W
  count_removed (some e) later = later
  count_removed none (n, w) = (suc n, w)

  -- `PurgeTempDirs(ctx, log, dirs)`: how many directories were removed
  unfoldable pub purge_temp_dirs : List String → W → ℕ × W
  purge_temp_dirs [] w = (0, w)
  purge_temp_dirs (dir ∷ dirs) w =
      let (e, w') = P.remove_all dir w in
      let later = purge_temp_dirs dirs w' in if P.is_done w then (0, w) else count_removed e later
