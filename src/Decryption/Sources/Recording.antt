-- ===== src/Decryption/Sources/Recording.antt =====
-- The paths that `DecryptSources` records as decrypted.
use kustomize_controller.Base.{String, ◌≡◌, NoDuplicates, All}
use kustomize_controller.Errors.{ok}
use kustomize_controller.Api.Spec.{Decryption}
use kustomize_controller.Decryption.Sources.{Visitor, FileDecryptor}

module _ {W : Type 0} (D : FileDecryptor W) (root : String) where
  -- The path is what the secure join of the root and some path led to.
  abbrev pub Reached : String → Type 0
  Reached p = (path : String) × (w : W) × (D.files.secure_join root path w ≡ ok p)

  abbrev Recorded : Visitor W → Type 0
  Recorded v = NoDuplicates v.decrypted × All Reached v.decrypted
