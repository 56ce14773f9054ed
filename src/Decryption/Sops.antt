-- ===== src/Decryption/Sops.antt =====
-- `SopsDecryptWithFormat` of internal/decryptor/decryptor.go.
pub mod Integrity
pub mod Encrypting
pub mod RoundTrip
use kustomize_controller.Base.{
  String, ◌<>◌, ◌==◌, Bool, true, false, if◌then◌else◌, ◌&&◌, ◌||◌, not, Option, none, some, List,
  [], ◌∷◌,
}
use kustomize_controller.Errors.{Error, Result, ok, err, wrapped, text_error, ◌>>=◌ as ◌then◌}
use kustomize_controller.Io.{Io}
use kustomize_controller.Decryption.Formats.{
  Format, binary, dotenv, ini, json, yaml, format_to_string,
}
use kustomize_controller.Decryption.Redaction.{safe_decrypt}
use kustomize_controller.Decryption.Tree.{
  Value, text, branch, slice, scalar, Branch, decrypt_enveloped_values,
}

-- `sops.Metadata`, with `LastModified` in the format RFC3339
pub record Metadata : Type 0 where
  pub encrypted_comment_regex : String
  pub unencrypted_comment_regex : String
  pub message_authentication_code : String
  pub last_modified : String

-- `sops.Tree`
pub record SopsTree : Type 0 where
  pub branches : List Branch
  pub metadata : Metadata

-- A call of SOPS that returns, or panics with a value that has the text.
pub data Called (A : Type 0) : Type 0 where
  returned : Result A → Called A
  panicked : String → Called A

-- The package sops. `W` holds what the key services change.
pub record Sops (W : Type 0) : Type 0 where
  -- the `LoadEncryptedFile`, `LoadPlainFile`, `EmitPlainFile` and `EmitEncryptedFile` of the store for
  -- a format
  pub load_encrypted_file : Format → String → Called SopsTree
  pub load_plain_file : Format → String → Called (List Branch)
  pub emit_plain_file : Format → List Branch → Called String
  pub emit_encrypted_file : Format → SopsTree → Called String
  -- `GetDataKeyWithKeyServices` and `GenerateDataKeyWithKeyServices`, whose errors are one text
  pub get_data_key : Metadata → W → Called String × W
  pub generate_data_key : SopsTree → W → Called (String × SopsTree) × W
  -- `tree.Decrypt` and `tree.Encrypt`: the MAC and the branches
  pub decrypt_tree : SopsTree → String → Called (String × List Branch)
  pub encrypt_tree : SopsTree → String → Called (String × List Branch)
  -- the cipher on a text, a key and additional data
  pub cipher_decrypt : String → String → String → Result Value
  pub cipher_encrypt : String → String → String → Result String
  -- the text of `err.(sops.UserError)`
  pub user_error : Error → Option String
  -- the time now, in the format RFC3339
  pub now : W → String × W
  -- a value that is no text, as `%s` shows it
  pub show : Value → String

abbrev pub Calling : Type 0 → Type 0 → Type 0
Calling W A = W → Called A × W

module _ {W : Type 0} where
  module _ {A : Type 0} where
    abbrev pub give : Result A → Calling W A
    give r w = (returned r, w)

    abbrev pub call : Called A → Calling W A
    call c w = (c, w)

  module _ {A B : Type 0} where
    abbrev pub continue : Called A → (A → Calling W B) → Calling W B
    continue (returned (ok a)) f w = f a w
    continue (returned (err e)) f w = (returned (err e), w)
    continue (panicked p) f w = (panicked p, w)

    infixl 5 ◌>>=◌
    abbrev pub ◌>>=◌ : Calling W A → (A → Calling W B) → Calling W B
    ◌>>=◌ m f w = let (c, w') = m w in continue c f w'

module _ {W : Type 0} (P : Sops W) where
  -- `sopsUserErr(msg, err)`
  unfoldable pub sops_user_err : String → Error → Error
  sops_user_err msg e =
      wrapped (msg <> ": ") (elim (P.user_error e) [ none ↦ e | some t ↦ text_error t ])

  abbrev pub as_user_err : {A : Type 0} → String → Called A → Called A
  as_user_err msg (returned (ok a)) = returned (ok a)
  as_user_err msg (returned (err e)) = returned (err (sops_user_err msg e))
  as_user_err msg (panicked p) = panicked p

  abbrev pub emit_text : Format → Format → String
  emit_text input output =
      "failed to emit encrypted "
      <> format_to_string input
      <> " file as decrypted "
      <> format_to_string output

  -- `emitPlainFile(branches, inputFormat, outputFormat)`
  unfoldable pub emit_plain_file : List Branch → Format → Format → Called String
  unfolding sops_user_err
  emit_plain_file branches input output =
      as_user_err (emit_text input output) (P.emit_plain_file output branches)

  -- The loop over the branches of the tree, each decrypted in place
  unfoldable pub decrypt_branches :
      (String → String → Result Value) → List Branch → Result (List Branch)
  unfolding decrypt_enveloped_values
  decrypt_branches decrypt [] = ok []
  decrypt_branches decrypt (b ∷ bs) = decrypt_enveloped_values decrypt b [] then λ b'.
      decrypt_branches decrypt bs then λ bs'. ok (b' ∷ bs')

  abbrev pub is_text : Value → String → Bool
  is_text (text v) t = v == t
  is_text (branch b) t = false
  is_text (slice vs) t = false
  is_text (scalar v) t = false

  abbrev shown : Value → String
  shown (text v) = if v == "" then "no MAC" else v
  shown (branch b) = P.show (branch b)
  shown (slice vs) = P.show (slice vs)
  shown (scalar v) = P.show (scalar v)

  abbrev pub on_redacted : {A : Type 0} → String → Called A → Called A
  on_redacted msg (returned r) = as_user_err msg (returned (safe_decrypt r))
  on_redacted msg (panicked p) = panicked p

  -- The comparison of the MACs, if `checkSopsMac` is set
  unfoldable pub check_mac : Bool → SopsTree → String → String → Result (Unit {0})
  unfolding sops_user_err safe_decrypt
  check_mac false tree key mac = ok tt
  check_mac true tree key mac =
      elim (safe_decrypt (
        P.cipher_decrypt tree.metadata.message_authentication_code key
          tree.metadata.last_modified)) [
            | err e ↦ err (sops_user_err "failed to verify sops data integrity" e)
            | ok original ↦
                if is_text original mac
                then ok tt
                else err (
                    text_error (
                      "failed to verify sops data integrity: expected mac '"
                      <> shown original
                      <> "', got '"
                      <> mac
                      <> "'"))
          ]

  abbrev pub is_json : Format → Bool
  is_json json = true
  is_json _ = false

  abbrev pub has_comment_regex : Metadata → Bool
  has_comment_regex m =
      not (m.encrypted_comment_regex == "") || not (m.unencrypted_comment_regex == "")

  abbrev pub in_tree : {A : Type 0} → Result A → Result A
  in_tree (ok a) = ok a
  in_tree (err e) = err (sops_user_err "error decrypting sops tree" e)

  -- The values in envelopes, for JSON with comment regexes
  abbrev pub decrypt_values : Bool → SopsTree → String → Format → Format → Called String
  decrypt_values true tree key input output = returned (
      err (
        text_error (
          "failed to verify sops data integrity: not supported for data "
          <> "encrypted with comment regexes")))
  decrypt_values false tree key input output =
      elim (in_tree (decrypt_branches (λ v aad. P.cipher_decrypt v key aad) tree.branches)) [
        | err e ↦ returned (err e)
        | ok branches ↦ emit_plain_file branches input output
      ]

  abbrev pub check_and_emit :
      Bool → SopsTree → String → Format → Format → String × List Branch → Calling W String
  check_and_emit check tree key input output (mac, branches) =
      give (check_mac check tree key mac) >>= λ u. call (emit_plain_file branches input output)

  -- The whole tree
  abbrev pub decrypt_whole : Bool → SopsTree → String → Format → Format → Calling W String
  decrypt_whole check tree key input output =
      call (on_redacted "error decrypting sops tree" (P.decrypt_tree tree key))
      >>= check_and_emit check tree key input output

  abbrev pub decrypt_loaded : Bool → SopsTree → Format → Format → String → Calling W String
  decrypt_loaded check tree input output key =
      if is_json input && has_comment_regex tree.metadata
      then call (decrypt_values check tree key input output)
      else decrypt_whole check tree key input output

  abbrev pub user_err : {A : Type 0} → String → Calling W A → Calling W A
  user_err msg m w = let (c, w') = m w in (as_user_err msg c, w')

  abbrev pub decrypt_tree_of : Bool → Format → Format → SopsTree → Calling W String
  decrypt_tree_of check input output tree =
      user_err "cannot get sops data key" (P.get_data_key tree.metadata)
      >>= decrypt_loaded check tree input output

  -- The body of `SopsDecryptWithFormat`
  abbrev pub decrypting : Bool → String → Format → Format → Calling W String
  decrypting check bytes input output =
      call (
        as_user_err ("failed to load encrypted " <> format_to_string input <> " data")
          (P.load_encrypted_file input bytes))
      >>= decrypt_tree_of check input output

  -- `defer func() { if r := recover(); r != nil { … } }()`
  abbrev pub recovered : String → Called String × W → Result String × W
  recovered msg (returned r, w) = (r, w)
  recovered msg (panicked p, w) = (err (text_error (msg <> ": " <> p)), w)

  -- `SopsDecryptWithFormat(data, inputFormat, outputFormat)`, with `checkSopsMac`
  unfoldable pub sops_decrypt_with_format : Bool → String → Format → Format → Io W String
  unfolding emit_plain_file decrypt_branches check_mac safe_decrypt sops_user_err
  sops_decrypt_with_format check bytes input output w =
      recovered (emit_text input output) (decrypting check bytes input output w)
