-- ===== src/Decryption/Sources.antt =====
-- `DecryptSources` of internal/decryptor/decryptor.go and what it visits each Kustomization file
-- with: the files of Secret generators and patches are decrypted in place.
pub mod Visiting
pub mod Recording
pub mod Confinement
use kustomize_controller.Base.{
  String, ◌<>◌, ◌==◌, Bool, true, false, if◌then◌else◌, not, ◌&&◌, Option, none, some, List, [],
  ◌∷◌, ℕ, ltb, contains,
}
use kustomize_controller.Base.Text.{has_substring}
use kustomize_controller.Base.Cutting.{cut, has_suffix}
use kustomize_controller.Errors.{Error, wrapped, text_error, Result, ok, err}
use kustomize_controller.Io.{
  Io, pure, raise, lift, on_error, wrap_error, ◌>>=◌, ◌>>◌, done, after_error,
}
use kustomize_controller.Api.Spec.{Decryption}
use kustomize_controller.Decryption.Formats.{
  Format, binary, dotenv, ini, json, yaml, format_to_string, format_to_marker,
}
use kustomize_controller.Decryption.Files.{
  Files, FileInfo, SecretArgs, KustomizationFile, secure_paths, secure_path_err,
}
use kustomize_controller.Decryption.Walking.{
  Outcome, Walk, Visit, recurse_kustomization_files, result_of,
}

-- The world, and the absolute paths of the files that have been decrypted, the latest first.
pub record Visitor (W : Type 0) : Type 0 where
  pub world : W
  pub decrypted : List String

-- What a Decryptor needs to decrypt files: `maxFileSize`, `formats.FormatForPath`, texts for numbers
-- and `SopsDecryptWithFormat`.
pub record FileDecryptor (W : Type 0) : Type 0 where
  pub files : Files W
  pub max_file_size : ℕ
  pub format_for_extension : String → Format
  pub decimal : ℕ → String
  pub sops_decrypt : String → Format → Format → Io W String

-- `maxEncryptedFileSize`
abbrev pub max_encrypted_file_size : ℕ
max_encrypted_file_size = 5242880

module _ {W : Type 0} (D : FileDecryptor W) where
  -- `formatForPath(path)`
  unfoldable pub format_for_path : String → Format
  unfolding has_suffix
  format_for_path path =
      if has_suffix path ".dockerconfigjson" then json else D.format_for_extension path

  -- `isRemoteURL(path)`
  unfoldable pub is_remote_url : String → Bool
  is_remote_url path = elim (D.files.parse_url path) [
    | none ↦ false
    | some (scheme, host) ↦ not (scheme == "") && not (host == "")
  ]

  abbrev size_error : ℕ → Error
  size_error n = text_error (
      "cannot decrypt file with size ("
      <> D.decimal n
      <> " bytes) exceeding limit ("
      <> D.decimal D.max_file_size
      <> ")")

  abbrev read : {A : Type 0} → (W → Result A) → Io W A
  read f w = (f w, w)

  -- `os.WriteFile(path, out, 0o600)`
  abbrev pub write_back : String → Format → Format → String → Io W (Unit {0})
  write_back path input output out =
      wrap_error
        ("error writing sops decrypted "
          <> format_to_string input
          <> " data to "
          <> format_to_string output
          <> " file: ")
        (D.files.write_file path out)

  abbrev pub decrypt_text : String → Format → Format → String → Io W (Unit {0})
  decrypt_text path input output text =
      if not (has_substring text (format_to_marker input))
      then done
      else (D.sops_decrypt text input output >>= write_back path input output)

  abbrev pub decrypt_regular : String → Format → Format → FileInfo → Io W (Unit {0})
  decrypt_regular path input output info =
      if not info.is_regular
      then raise (text_error "cannot decrypt irregular file as it has file mode type bits set")
      else if ltb 0 D.max_file_size && ltb D.max_file_size info.size
      then raise (size_error info.size)
      else (read (D.files.read_file path) >>= decrypt_text path input output)

  -- `sopsDecryptFile(path, inputFormat, outputFormat)`
  unfoldable pub sops_decrypt_file : String → Format → Format → Io W (Unit {0})
  sops_decrypt_file path input output =
      read (D.files.lstat path) >>= decrypt_regular path input output

  -- The decryption of a file by the visitor; on success its path is recorded.
  abbrev pub recorded : String → Result (Unit {0}) × W → List String → Result (Unit {0}) × Visitor W
  recorded path (ok u, w) decrypted = (ok tt, record { world = w; decrypted = path ∷ decrypted })
  recorded path (err e, w) decrypted = (err e, record { world = w; decrypted = decrypted })

  abbrev pub decrypt_once : String → String → Format → Io (Visitor W) (Unit {0})
  decrypt_once root abs format v =
      if contains v.decrypted abs
      then (ok tt, v)
      else recorded abs
          (on_error (sops_decrypt_file abs format format)
            (λ e. raise (secure_path_err D.files root e)) v.world)
          v.decrypted

  abbrev pub after_paths : String → Format → Result (String × String) → Io (Visitor W) (Unit {0})
  after_paths root format (err e) v = (err e, v)
  after_paths root format (ok (abs, rel)) v = decrypt_once root abs format v

  -- `visitRef(sourcePath, format)` for the Kustomization file in the directory `path`
  unfoldable pub visit_ref : String → String → String → Format → Io (Visitor W) (Unit {0})
  unfolding sops_decrypt_file secure_paths secure_path_err
  visit_ref root path source_path format v =
      after_paths root format
        (secure_paths D.files root
          (if D.files.is_abs source_path then source_path else D.files.join path source_path)
          v.world)
        v

  -- The key and the path of a file source, `[key=]path`
  abbrev pub key_and_path : String → Option (String × String) → String × String
  key_and_path source none = (source, source)
  key_and_path source (some (key, file)) = (key, file)

  -- The loop over `gen.FileSources`
  unfoldable pub visit_file_sources : String → String → List String → Io (Visitor W) (Unit {0})
  unfolding visit_ref cut format_for_path
  visit_file_sources root path [] = done
  visit_file_sources root path (source ∷ rest) =
      let (key, file) = key_and_path source (cut source "=") in
      visit_ref root path file (format_for_path key) >> visit_file_sources root path rest

  abbrev pub dotenv_by_default : Format → Format
  dotenv_by_default binary = dotenv
  dotenv_by_default f = f

  -- The loop over `gen.EnvSources`
  unfoldable pub visit_env_sources : String → String → List String → Io (Visitor W) (Unit {0})
  unfolding visit_ref format_for_path
  visit_env_sources root path [] = done
  visit_env_sources root path (env ∷ rest) =
      visit_ref root path env (dotenv_by_default (format_for_path env))
      >> visit_env_sources root path rest

  -- The loop over `kus.SecretGenerator`
  unfoldable pub visit_generators : String → String → List SecretArgs → Io (Visitor W) (Unit {0})
  unfolding visit_file_sources visit_env_sources
  visit_generators root path [] = done
  visit_generators root path (gen ∷ rest) =
      visit_file_sources root path gen.file_sources
      >> visit_env_sources root path gen.env_sources
      >> visit_generators root path rest

  -- The loop over `kus.Patches`
  unfoldable pub visit_patches : String → String → List String → Io (Visitor W) (Unit {0})
  unfolding visit_ref format_for_path is_remote_url
  visit_patches root path [] = done
  visit_patches root path (patch ∷ rest) =
      let later = visit_patches root path rest in
      if patch == ""
      then later
      else if is_remote_url patch
      then later
      else (visit_ref root path patch (format_for_path patch) >> later)

  -- The function that `decryptKustomizationSources` returns
  unfoldable pub decrypt_kustomization_sources : String → Visit (Visitor W)
  unfolding visit_generators visit_patches
  decrypt_kustomization_sources root path kus =
      visit_generators root path kus.secret_generator >> visit_patches root path kus.patches

  abbrev pub uses_sops : Option Decryption → Bool
  uses_sops none = false
  uses_sops (some d) = d.provider == "sops"

  abbrev pub walked : Option (Outcome × Walk (Visitor W)) → Option (Result (Unit {0}) × Visitor W)
  walked none = none
  walked (some (o, (visited, v))) = some (result_of o, v)

  -- `DecryptSources(path)`, for the root of the Decryptor and fuel for the walk; the paths decrypted
  -- are returned with the world.
  unfoldable pub decrypt_sources :
      ℕ → Option Decryption → String → String → W → Option (Result (Unit {0}) × Visitor W)
  unfolding recurse_kustomization_files decrypt_kustomization_sources
  decrypt_sources fuel decryption root path w =
      if not (uses_sops decryption)
      then some (ok tt, record { world = w; decrypted = [] })
      else walked (
          recurse_kustomization_files D.files (λ v. v.world) root
            (decrypt_kustomization_sources root) fuel path
            ([], record { world = w; decrypted = [] }))
