-- ===== src/Decryption/Secrets.antt =====
-- The tests of internal/decryptor/decryptor.go for encrypted Secrets and for those that opt out.
use kustomize_controller.Base.{String, ◌<>◌, ◌==◌, ◌&&◌, Bool, List, lookup, text_or_empty}
use kustomize_controller.Base.Text.{equal_fold}
use kustomize_controller.Api.Object.{group, disabled_value}
use kustomize_controller.Inventory.Packages.{Unstructured}

-- `IsDecryptionDisabled`
unfoldable pub is_decryption_disabled : List (String × String) → Bool
is_decryption_disabled annotations =
    equal_fold (text_or_empty (lookup annotations (group <> "/decrypt"))) disabled_value

-- `IsEncryptedSecret`: the API version `v1` has the empty group.
unfoldable pub is_encrypted_secret : Unstructured → Bool
is_encrypted_secret u = u.kind == "Secret" && ((u.group == "" && u.version == "v1") && u.has_sops)
