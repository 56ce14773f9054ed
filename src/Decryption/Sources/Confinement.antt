-- ===== src/Decryption/Sources/Confinement.antt =====
-- `DecryptSources` and the files that no path joined securely to the root reaches.
use kustomize_controller.Base.{
  String, true, false, Bool, if◌then◌else◌, Option, some, List, ℕ, ◌≡◌, refl, ap, sym, contains,
  ◌≢◌, not, ltb, ◌&&◌, ◌∙◌,
}
use kustomize_controller.Base.Text.{has_substring}
use kustomize_controller.Errors.{Result, ok, err}
use kustomize_controller.Io.{Io, raise, on_error}
use kustomize_controller.Io.Frames.{Keeps, bind-Keeps, if-Keeps, on_error-Keeps, reader-Keeps}
use kustomize_controller.Api.Spec.{Decryption}
use kustomize_controller.Decryption.Formats.{Format, format_to_marker}
use kustomize_controller.Decryption.Files.{
  FileInfo, secure_paths, secure_path_err, with_relative, with_relative_inv,
}
use kustomize_controller.Decryption.Sources.{
  Visitor, FileDecryptor, sops_decrypt_file, write_back, decrypt_text, decrypt_regular, recorded,
  decrypt_once, after_paths, visit_ref, decrypt_sources,
}
use kustomize_controller.Decryption.Sources.Visiting.{decrypt_sources-Keeps}

module _ {W : Type 0} (D : FileDecryptor W) (root q : String)
    (writes : (path text : String) (w : W)
      → q ≢ path
      → D.files.read_file q (D.files.write_file path text w).1 ≡ D.files.read_file q w)
    (decrypts : (text : String) (f g : Format) (w : W)
      → D.files.read_file q (D.sops_decrypt text f g w).1 ≡ D.files.read_file q w)
    (w0 : W) where
  -- The file at `q` reads as in `w0`.
  abbrev Same : W → Type 0
  Same w = D.files.read_file q w ≡ D.files.read_file q w0

  module _ (path : String) (f g : Format) (other : q ≢ path) where
    write_back-Same : (out : String) → Keeps Same (write_back D path f g out)
    write_back-Same out =
        on_error-Keeps Same (D.files.write_file path out) _
          (record { keeps = λ w i. writes path out w other ∙ i }) (λ e. reader-Keeps Same _)

    decrypt_text-Same : (text : String) → Keeps Same (decrypt_text D path f g text)
    decrypt_text-Same text =
        if-Keeps Same (not (has_substring text (format_to_marker f))) _ _ (reader-Keeps Same _) (
          bind-Keeps Same (D.sops_decrypt text f g) _
            (record { keeps = λ w i. decrypts text f g w ∙ i }) write_back-Same)

    decrypt_regular-Same : (info : FileInfo) → Keeps Same (decrypt_regular D path f g info)
    decrypt_regular-Same info = if-Keeps Same (not info.is_regular) _ _ (reader-Keeps Same _) (
        if-Keeps Same (ltb 0 D.max_file_size && ltb D.max_file_size info.size) _ _
          (reader-Keeps Same _)
          (bind-Keeps Same _ _ (reader-Keeps Same (D.files.read_file path)) decrypt_text-Same))

    sops_decrypt_file-Same : Keeps Same (sops_decrypt_file D path f g)
    unfolding sops_decrypt_file
    sops_decrypt_file-Same =
        bind-Keeps Same _ _ (reader-Keeps Same (D.files.lstat path)) decrypt_regular-Same

  recorded-Same :
      (path : String) (o : Result (Unit {0}) × W) (decrypted : List String)
      → Same o.1
      → Same (recorded D path o decrypted).1.world
  recorded-Same path (ok u, w) decrypted i = i
  recorded-Same path (err e, w) decrypted i = i

  decrypt_once-Same :
      (abs : String) (f : Format) (v : Visitor W)
      → q ≢ abs
      → Same v.world
      → Same (decrypt_once D root abs f v).1.world
  decrypt_once-Same abs f v other i = at (contains v.decrypted abs)
    where
      m : Io W (Unit {0})
      m = on_error (sops_decrypt_file D abs f f) (λ e. raise (secure_path_err D.files root e))

      at :
          (seen : Bool)
          → Same (if seen then (ok tt, v) else recorded D abs (m v.world) v.decrypted).1.world
      at true = i
      at false = recorded-Same abs (m v.world) v.decrypted (
          (on_error-Keeps Same (sops_decrypt_file D abs f f) _
              (sops_decrypt_file-Same abs f f other) (λ e. reader-Keeps Same _)).keeps
            v.world i)

  module _ (outside : (path : String) (w : W) → D.files.secure_join root path w ≢ ok q) where
    after_paths-Same :
        (path : String) (f : Format) (v : Visitor W) (r : Result (String × String))
        → with_relative D.files root (D.files.secure_join root path v.world) ≡ r
        → Same v.world
        → Same (after_paths D root f r v).1.world
    after_paths-Same path f v (err e) h i = i
    after_paths-Same path f v (ok (abs, rel)) h i =
        decrypt_once-Same abs f v
          (λ e. outside path v.world (
            with_relative_inv D.files root (D.files.secure_join root path v.world) abs rel h
            ∙ ap ok (sym e)))
          i

    visit_ref-Same :
        (path source : String) (f : Format)
        → Keeps (λ v. Same v.world) (visit_ref D root path source f)
    unfolding visit_ref secure_paths
    visit_ref-Same path source f = record { keeps = λ v i. after_paths-Same _ f v _ refl i }

-- If writing a file changes no other one, and decrypting texts changes none, then a file that no path
-- joined securely to the root names reads after `DecryptSources` as before, whatever the
-- Kustomization files refer to and however the walk ends.
pub decrypt_sources_confined :
    {W : Type 0} (D : FileDecryptor W) (root q : String)
    → ((path text : String) (w : W)
        → q ≢ path
        → D.files.read_file q (D.files.write_file path text w).1 ≡ D.files.read_file q w)
    → ((text : String) (f g : Format) (w : W)
        → D.files.read_file q (D.sops_decrypt text f g w).1 ≡ D.files.read_file q w)
    → ((path : String) (w : W) → D.files.secure_join root path w ≢ ok q)
    → (fuel : ℕ) (decryption : Option Decryption) (path : String) (w : W) (r : Result (Unit {0}))
      (v : Visitor W)
    → decrypt_sources D fuel decryption root path w ≡ some (r, v)
    → D.files.read_file q v.world ≡ D.files.read_file q w
decrypt_sources_confined D root q writes decrypts outside fuel decryption path w r v h =
    decrypt_sources-Keeps D root (λ v. D.files.read_file q v.world ≡ D.files.read_file q w)
      (visit_ref-Same D root q writes decrypts w outside) fuel decryption path w r v refl h
