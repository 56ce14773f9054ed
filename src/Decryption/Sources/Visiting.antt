-- ===== src/Decryption/Sources/Visiting.antt =====
-- What the visit of a Kustomization file, and the walk over them all, leave as it was: all that the
-- visit of one file reference leaves so.
use kustomize_controller.Base.{
  String, ◌==◌, false, Option, none, some, List, [], ◌∷◌, ℕ, ◌≡◌, arith, Bool-cases, inl, inr,
}
use kustomize_controller.Base.Cutting.{cut}
use kustomize_controller.Errors.{Result, ok}
use kustomize_controller.Io.Frames.{Keeps, bind-Keeps, if-Keeps, reader-Keeps}
use kustomize_controller.Api.Spec.{Decryption}
use kustomize_controller.Decryption.Formats.{Format}
use kustomize_controller.Decryption.Files.{KustomizationFile, SecretArgs}
use kustomize_controller.Decryption.Walking.{Outcome, Walk, recurse_kustomization_files}
use kustomize_controller.Decryption.Walking.Keeping.{Kept, recurse_kustomization_files-Kept}
use kustomize_controller.Decryption.Sources.{
  Visitor, FileDecryptor, visit_ref, visit_file_sources, visit_env_sources, visit_generators,
  visit_patches, decrypt_kustomization_sources, decrypt_sources, walked, format_for_path,
  is_remote_url, key_and_path, dotenv_by_default, uses_sops,
}

module _ {W : Type 0} (D : FileDecryptor W) (root : String) (I : Visitor W → Type 0)
    (refs : (path source : String) (f : Format) → Keeps I (visit_ref D root path source f)) where
  visit_file_sources-Keeps :
      (path : String) (sources : List String) → Keeps I (visit_file_sources D root path sources)
  unfolding visit_file_sources
  visit_file_sources-Keeps path [] = reader-Keeps I (λ s. ok tt)
  visit_file_sources-Keeps path (source ∷ rest) =
      let (key, file) = key_and_path D source (cut source "=") in
      bind-Keeps I (visit_ref D root path file (format_for_path D key)) _
        (refs path file (format_for_path D key)) (λ u. visit_file_sources-Keeps path rest)

  visit_env_sources-Keeps :
      (path : String) (envs : List String) → Keeps I (visit_env_sources D root path envs)
  unfolding visit_env_sources
  visit_env_sources-Keeps path [] = reader-Keeps I (λ s. ok tt)
  visit_env_sources-Keeps path (env ∷ rest) =
      bind-Keeps I (visit_ref D root path env (dotenv_by_default D (format_for_path D env))) _
        (refs path env (dotenv_by_default D (format_for_path D env)))
        (λ u. visit_env_sources-Keeps path rest)

  visit_generators-Keeps :
      (path : String) (gens : List SecretArgs) → Keeps I (visit_generators D root path gens)
  unfolding visit_generators
  visit_generators-Keeps path [] = reader-Keeps I (λ s. ok tt)
  visit_generators-Keeps path (gen ∷ rest) =
      bind-Keeps I _ _
        (bind-Keeps I (visit_file_sources D root path gen.file_sources) _
          (visit_file_sources-Keeps path gen.file_sources)
          (λ u. visit_env_sources-Keeps path gen.env_sources))
        (λ u. visit_generators-Keeps path rest)

  visit_patches-Keeps :
      (path : String) (patches : List String) → Keeps I (visit_patches D root path patches)
  unfolding visit_patches
  visit_patches-Keeps path [] = reader-Keeps I (λ s. ok tt)
  visit_patches-Keeps path (patch ∷ rest) =
      if-Keeps I (patch == "") _ _ (visit_patches-Keeps path rest) (
        if-Keeps I (is_remote_url D patch) _ _ (visit_patches-Keeps path rest) (
          bind-Keeps I (visit_ref D root path patch (format_for_path D patch)) _
            (refs path patch (format_for_path D patch)) (λ u. visit_patches-Keeps path rest)))

  decrypt_kustomization_sources-Keeps :
      (path : String) (kus : KustomizationFile)
      → Keeps I (decrypt_kustomization_sources D root path kus)
  unfolding decrypt_kustomization_sources
  decrypt_kustomization_sources-Keeps path kus =
      bind-Keeps I (visit_generators D root path kus.secret_generator) _
        (visit_generators-Keeps path kus.secret_generator)
        (λ u. visit_patches-Keeps path kus.patches)

  walked-Kept :
      (o : Option (Outcome × Walk (Visitor W))) (r : Result (Unit {0})) (v : Visitor W)
      → Kept D.files
          (λ v. v.world)
          root
          (decrypt_kustomization_sources D root)
          I
          (λ path kus. (decrypt_kustomization_sources-Keeps path kus).keeps)
          o
      → walked D o ≡ some (r, v)
      → I v
  walked-Kept none r v k h = ground arith
  walked-Kept (some (o, (visited, u))) r v k h = rw (same h) k
    where
      same : walked D (some (o, (visited, u))) ≡ some (r, v) → v ≡ u
      same e = ground arith

  -- What every visit of a reference keeps, from the start, holds in the end.
  pub decrypt_sources-Keeps :
      (fuel : ℕ) (decryption : Option Decryption) (path : String) (w : W) (r : Result (Unit {0}))
      (v : Visitor W)
      → I (record { world = w; decrypted = [] })
      → decrypt_sources D fuel decryption root path w ≡ some (r, v)
      → I v
  unfolding decrypt_sources
  decrypt_sources-Keeps fuel decryption path w r v i h =
      elim (Bool-cases (uses_sops D decryption)) [
        | inr off ↦ rw (unchanged off) i
        | inl uses ↦
            walked-Kept
              (recurse_kustomization_files D.files (λ v. v.world) root
                (decrypt_kustomization_sources D root) fuel path
                ([], record { world = w; decrypted = [] }))
              r v
              (recurse_kustomization_files-Kept D.files (λ v. v.world) root
                (decrypt_kustomization_sources D root) I
                (λ at kus. (decrypt_kustomization_sources-Keeps at kus).keeps) fuel path
                ([], record { world = w; decrypted = [] }) i)
              (ground (arith, uses))
      ]
    where
      unchanged : uses_sops D decryption ≡ false → v ≡ record { world = w; decrypted = [] }
      unchanged off = ground (arith, off, h)
