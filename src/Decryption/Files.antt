-- ===== src/Decryption/Files.antt =====
-- The file system and the Kustomization files as internal/decryptor/decryptor.go sees them, and its
-- functions on paths.
use kustomize_controller.Base.{
  String, ◌<>◌, ◌==◌, Bool, if◌then◌else◌, Option, none, some, List, ℕ, ◌≡◌, arith,
}
use kustomize_controller.Base.Cutting.{cut_prefix}
use kustomize_controller.Errors.{
  Error, wrapped, followed, path_error, terminal, plain, Result, ok, err,
}
use kustomize_controller.Io.{Io}

-- `fs.FileInfo`
pub record FileInfo : Type 0 where
  pub is_dir : Bool
  pub is_regular : Bool
  pub size : ℕ

-- `kustypes.SecretArgs`
pub record SecretArgs : Type 0 where
  pub file_sources : List String
  pub env_sources : List String

-- `kustypes.Kustomization`: the paths that it refers to.
pub record KustomizationFile : Type 0 where
  pub secret_generator : List SecretArgs
  -- the path of each patch
  pub patches : List String
  pub resources : List String
  pub components : List String

-- The packages os, path/filepath, filepath-securejoin and yaml, and what SOPS and url.Parse do, on a
-- world that holds the file system.
pub record Files (W : Type 0) : Type 0 where
  -- `filepath.Clean`, `filepath.Join` and `filepath.IsAbs`
  pub clean : String → String
  pub join : String → String → String
  pub is_abs : String → Bool
  -- `securejoin.SecureJoin`, which follows symbolic links
  pub secure_join : String → String → W → Result String
  -- `os.Lstat` and `os.ReadFile`, whose errors are path errors
  pub lstat : String → W → Result FileInfo
  pub read_file : String → W → Result String
  -- `os.WriteFile(path, b, 0o600)`
  pub write_file : String → String → Io W (Unit {0})
  -- `konfig.RecognizedKustomizationFileNames()`
  pub recognized_names : List String
  -- `yaml.Unmarshal` into a Kustomization
  pub unmarshal : String → Result KustomizationFile
  -- the scheme and the host that `url.Parse` finds
  pub parse_url : String → Option (String × String)

-- `errors.As(err, &pathErr)`, and the new error of `securePathErr`
abbrev path_err : (String → String) → Error → Option Error
path_err strip (plain c text) = none
path_err strip (wrapped text e) = path_err strip e
path_err strip (followed e text) = path_err strip e
path_err strip (path_error op path e) = some (path_error op (strip path) e)
path_err strip (terminal e) = path_err strip e

abbrev or_same {ℓ} : {A : Type ℓ} → Option A → A → A
or_same none a = a
or_same (some b) a = b

module _ {W : Type 0} (F : Files W) where
  -- The path without the root in front of it.
  abbrev without_root : String → String → String
  without_root root path =
      if path == root
      then "/"
      else if root == "/"
      then path
      else or_same (cut_prefix path (root <> "/")) path

  -- `stripRoot(root, path)`
  unfoldable pub strip_root : String → String → String
  unfolding cut_prefix
  strip_root root path =
      F.clean (F.join "./" (without_root (F.clean ("/" <> root)) (F.clean ("/" <> path))))

  -- `securePathErr(root, err)`
  unfoldable pub secure_path_err : String → Error → Error
  unfolding strip_root
  secure_path_err root e = or_same (path_err (strip_root root) e) e

  abbrev pub with_relative : String → Result String → Result (String × String)
  with_relative root (err e) = err e
  with_relative root (ok path) = ok (path, strip_root root path)

  pub with_relative_inv :
      (root : String) (r : Result String) (abs rel : String)
      → with_relative root r ≡ ok (abs, rel)
      → r ≡ ok abs
  with_relative_inv root (ok path) abs rel h = ground arith
  with_relative_inv root (err e) abs rel h = ground arith

  -- `securePaths(root, path)`
  unfoldable pub secure_paths : String → String → W → Result (String × String)
  unfolding strip_root
  secure_paths root path w =
      with_relative root
        (F.secure_join root (if F.is_abs path then strip_root root path else path) w)
