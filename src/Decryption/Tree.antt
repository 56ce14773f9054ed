-- ===== src/Decryption/Tree.antt =====
-- The values of a SOPS tree, and `decryptEnvelopedValues` of internal/decryptor/decryptor.go.
pub mod Opening
use kustomize_controller.Base.{
  String, ◌<>◌, ◌≡◌, refl, Bool, true, false, if◌then◌else◌, Option, none, some, List, [], ◌∷◌,
  ◌++◌, arith,
}
use kustomize_controller.Base.Cutting.{has_prefix}
use kustomize_controller.Errors.{Error, Result, ok, err, wrapped, ◌>>=◌}
use kustomize_controller.Decryption.Redaction.{safe_decrypt}

-- `sops.TreeItem.Key`: a comment is no text.
pub data Key : Type 0 where
  key : String → Key
  other_key : Key

mutual
  -- the values of type any in a tree; a value that is no text, branch or slice is known by its text
  pub data Value : Type 0 where
    text : String → Value
    branch : Branch → Value
    slice : Values → Value
    scalar : String → Value

  -- `sops.TreeBranch`
  pub data Branch : Type 0 where
    empty : Branch
    item : Key → Value → Branch → Branch

  -- `[]any`
  pub data Values : Type 0 where
    no_values : Values
    element : Value → Values → Values

-- `strings.Join(path, separator)`
unfoldable pub join_with : String → List String → String
join_with separator [] = ""
join_with separator (a ∷ []) = a
join_with separator (a ∷ (b ∷ path)) = a <> (separator <> join_with separator (b ∷ path))

-- `sopsEnvelopePrefix`
abbrev pub envelope_prefix : String
envelope_prefix = "ENC[AES256_GCM,"

module _ (decrypt : String → String → Result Value) where
  abbrev pub at_path : List String → Result Value → Result Value
  at_path path (ok out) = ok out
  at_path path (err e) =
      err (wrapped ("could not decrypt value at '" <> join_with "." path <> "': ") e)

  abbrev pub decrypt_text : String → List String → Result Value
  decrypt_text v path =
      if has_prefix v envelope_prefix
      then at_path path (safe_decrypt (decrypt v (join_with ":" path <> ":")))
      else ok (text v)

  unfoldable mutual
    -- `decryptEnvelopedValue(in, path, key, cipher)`, where `decrypt` is `cipher.Decrypt` with the key
    pub decrypt_enveloped_value : Value → List String → Result Value
    decrypt_enveloped_value (text v) path = decrypt_text v path
    decrypt_enveloped_value (branch b) path =
        decrypt_enveloped_values b path >>= λ out. ok (branch out)
    decrypt_enveloped_value (slice vs) path = decrypt_elements vs path >>= λ out. ok (slice out)
    decrypt_enveloped_value (scalar v) path = ok (scalar v)

    -- `decryptEnvelopedValues(branch, path, key, cipher)`, with the branch after it
    pub decrypt_enveloped_values : Branch → List String → Result Branch
    decrypt_enveloped_values empty path = ok empty
    decrypt_enveloped_values (item other_key v rest) path =
        decrypt_enveloped_values rest path >>= λ out. ok (item other_key v out)
    decrypt_enveloped_values (item (key k) v rest) path =
        decrypt_enveloped_value v (path ++ k ∷ []) >>= λ new.
        decrypt_enveloped_values rest path >>= λ out. ok (item (key k) new out)

    -- The loop over the elements of a slice
    pub decrypt_elements : Values → List String → Result Values
    decrypt_elements no_values path = ok no_values
    decrypt_elements (element v vs) path = decrypt_enveloped_value v path >>= λ new.
        decrypt_elements vs path >>= λ out. ok (element new out)
