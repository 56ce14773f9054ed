-- ===== src/Decryption/Resources.antt =====
-- `DecryptResource` of internal/decryptor/decryptor.go: Secrets and other resources encrypted with
-- SOPS.
pub mod Fields
use kustomize_controller.Base.{
  String, ◌<>◌, ◌==◌, Bool, if◌then◌else◌, not, ◌&&◌, ◌||◌, Option, none, some, List, [], ◌∷◌,
}
use kustomize_controller.Errors.{Result}
use kustomize_controller.Io.{Io, pure, lift, wrap_error, ◌>>=◌}
use kustomize_controller.Api.Spec.{Decryption}
use kustomize_controller.Decryption.Secrets.{is_decryption_disabled}
use kustomize_controller.Decryption.Formats.{Format, json, detect_format}

-- The package resource of Kustomize and base64.
pub record Resources (R : Type 0) : Type 0 where
  pub get_annotations : R → List (String × String)
  pub get_namespace : R → String
  pub get_name : R → String
  pub get_kind : R → String
  -- whether `Field("sops")`, and whether its `Field("mac")`, is nil or empty
  pub lacks_sops : R → Bool
  pub lacks_mac : R → Bool
  pub marshal_json : R → Result String
  pub unmarshal_json : R → String → Result R
  -- the entries of the data in the order in which Go iterates over them
  pub get_data_map : R → List (String × String)
  pub set_data_map : R → List (String × String) → R
  pub decode : String → Option String
  pub encode : String → String

-- `orders` is the order in which Go iterates over the markers for each entry of the data.
module _ {W R : Type 0} (P : Resources R) (format_for_path : String → Format)
    (orders : String → List Format) (sops_decrypt : String → Format → Format → Io W String) where
  -- `isSOPSEncryptedResource(res)`, for a resource that is not nil
  unfoldable pub is_sops_encrypted : R → Bool
  is_sops_encrypted res = not (P.lacks_sops res) && not (P.lacks_mac res)

  abbrev pub title : R → String
  title res = P.get_namespace res <> "/" <> P.get_name res

  -- A resource encrypted as a whole
  unfoldable pub decrypt_object : R → Io W R
  decrypt_object res = lift (P.marshal_json res) >>= λ out.
      wrap_error
        ("failed to decrypt and format '" <> title res <> "' " <> P.get_kind res <> " data: ")
        (sops_decrypt out json json)
      >>= λ bytes.
          wrap_error
            ("failed to unmarshal decrypted '"
              <> title res
              <> "' "
              <> P.get_kind res
              <> " to JSON: ")
            (lift (P.unmarshal_json res bytes))

  abbrev decrypt_detected : R → String → String → String → Option Format → Io W String
  decrypt_detected res key value bytes none = pure value
  decrypt_detected res key value bytes (some input) =
      wrap_error
        ("failed to decrypt and format '" <> title res <> "' Secret field '" <> key <> "': ")
        (sops_decrypt bytes input (format_for_path key))
      >>= λ out. pure (P.encode out)

  abbrev decrypt_decoded : R → String → String → Option String → Io W String
  decrypt_decoded res key value none = pure value
  decrypt_decoded res key value (some bytes) =
      decrypt_detected res key value bytes (detect_format (orders key) bytes)

  -- The new value of one entry of the data
  unfoldable pub decrypt_field : R → String → String → Io W String
  unfolding detect_format
  decrypt_field res key value = decrypt_decoded res key value (P.decode value)

  -- The loop over the data of a Secret
  unfoldable pub decrypt_data : R → List (String × String) → Io W (List (String × String))
  unfolding decrypt_field
  decrypt_data res [] = pure []
  decrypt_data res ((key, value) ∷ rest) = decrypt_field res key value >>= λ value'.
      decrypt_data res rest >>= λ rest'. pure ((key, value') ∷ rest')

  abbrev by_kind : R → Io W (Option R)
  by_kind res =
      if is_sops_encrypted res
      then (decrypt_object res >>= λ res'. pure (some res'))
      else if P.get_kind res == "Secret"
      then (decrypt_data res (P.get_data_map res) >>= λ entries.
          pure (some (P.set_data_map res entries)))
      else pure none

  abbrev by_provider : Option Decryption → R → Io W (Option R)
  by_provider none res = pure none
  by_provider (some d) res =
      if d.provider == "" || is_decryption_disabled (P.get_annotations res)
      then pure none
      else if d.provider == "sops"
      then by_kind res
      else pure none

  -- `DecryptResource(res)`, for a resource that is not nil; none is nil
  unfoldable pub decrypt_resource : Option Decryption → R → Io W (Option R)
  unfolding is_decryption_disabled is_sops_encrypted decrypt_object decrypt_data
  decrypt_resource d res = by_provider d res
