-- ===== src/Decryption/Sops/RoundTrip.antt =====
-- `SopsDecryptWithFormat` after `sopsEncryptWithFormat` in internal/decryptor/decryptor.go.
use kustomize_controller.Base.{String, ◌≡◌, ap, ◌∙◌, true, false, ◌&&◌, List, arith, eq_refl}
use kustomize_controller.Errors.{Result, ok, err}
use kustomize_controller.Decryption.Formats.{Format}
use kustomize_controller.Decryption.Redaction.{safe_decrypt}
use kustomize_controller.Decryption.Tree.{text, Branch}
use kustomize_controller.Decryption.Sops.{
  Sops, SopsTree, Metadata, Called, returned, as_user_err, sops_decrypt_with_format, check_mac,
  emit_plain_file, is_json, has_comment_regex, sops_user_err,
}
use kustomize_controller.Decryption.Sops.Encrypting.{
  set_branches, set_mac, encryption_error, sops_encrypt_with_format,
}
use kustomize_controller.Decryption.Sops.Integrity.{continue_inv, as_user_err_inv}

-- The documented behaviour of the package sops: what it writes and encrypts it reads and decrypts.
-- `Represents` holds for the branches that a format has all of: JSON has no comments, and dotenv and
-- INI have no nested values, so that their stores drop or refuse a part of others.
pub record IsLawful {W : Type 0} (P : Sops W) (Represents : Format → List Branch → Type 0)
    : Type 0 where
  -- the stores read back the trees that they have written, if the format has all of them
  pub load_encrypted_file-emit_encrypted_file :
      (f : Format) (tree : SopsTree) (bytes : String)
      → Represents f tree.branches
      → P.emit_encrypted_file f tree ≡ returned (ok bytes)
      → P.load_encrypted_file f bytes ≡ returned (ok tree)
  -- a data key is generated for the branches and the comment regexes given, and the key services give
  -- it back for the metadata that it is in, whatever their MAC
  pub branches-generate_data_key :
      (start tree : SopsTree) (key : String) (w : W)
      → (P.generate_data_key start w).0 ≡ returned (ok (key, tree))
      → tree.branches ≡ start.branches
  pub has_comment_regex-generate_data_key :
      (start tree : SopsTree) (key : String) (w : W)
      → (P.generate_data_key start w).0 ≡ returned (ok (key, tree))
      → has_comment_regex P tree.metadata ≡ has_comment_regex P start.metadata
  pub get_data_key-generate_data_key :
      (start tree : SopsTree) (key time mac : String) (w v : W)
      → (P.generate_data_key start w).0 ≡ returned (ok (key, tree))
      → (P.get_data_key (set_mac P tree time mac).metadata v).0 ≡ returned (ok key)
  -- the encryption puts texts in place of values, and a comment in place of a comment
  pub encrypt_tree-Represents :
      (f : Format) (tree : SopsTree) (key mac : String) (branches : List Branch)
      → Represents f tree.branches
      → P.encrypt_tree tree key ≡ returned (ok (mac, branches))
      → Represents f branches
  -- a tree is decrypted to the branches that were encrypted, with the same MAC
  pub decrypt_tree-encrypt_tree :
      (tree : SopsTree) (key time mac sealed : String) (branches : List Branch)
      → P.encrypt_tree tree key ≡ returned (ok (mac, branches))
      → P.decrypt_tree (set_mac P (set_branches P tree branches) time sealed) key
        ≡ returned (ok (mac, tree.branches))
  -- the cipher
  pub cipher_decrypt-cipher_encrypt :
      (value key aad sealed : String)
      → P.cipher_encrypt value key aad ≡ ok sealed
      → P.cipher_decrypt sealed key aad ≡ ok (text value)

module _ {W : Type 0} (P : Sops W) where
  encryption_error_inv :
      (msg : String) (r : Result String) (a : String)
      → encryption_error P msg r ≡ returned (ok a)
      → r ≡ ok a
  unfolding sops_user_err
  encryption_error_inv msg (ok b) a h = ground arith
  encryption_error_inv msg (err e) a h = ground arith

  check_mac_passes :
      (tree : SopsTree) (key mac : String)
      → P.cipher_decrypt tree.metadata.message_authentication_code key tree.metadata.last_modified
        ≡ ok (text mac)
      → check_mac P true tree key mac ≡ ok tt
  unfolding check_mac safe_decrypt
  check_mac_passes tree key mac h = ground (arith, h, eq_refl mac)

  -- What a run of `SopsDecryptWithFormat` does with the parts that it finds.
  decrypts :
      (bytes key mac plain : String) (output format : Format) (v : W) (tree : SopsTree)
      (branches : List Branch)
      → P.load_encrypted_file output bytes ≡ returned (ok tree)
      → (P.get_data_key tree.metadata v).0 ≡ returned (ok key)
      → (is_json P output && has_comment_regex P tree.metadata) ≡ false
      → P.decrypt_tree tree key ≡ returned (ok (mac, branches))
      → P.cipher_decrypt tree.metadata.message_authentication_code key tree.metadata.last_modified
        ≡ ok (text mac)
      → P.emit_plain_file format branches ≡ returned (ok plain)
      → (sops_decrypt_with_format P true bytes output format v).0 ≡ ok plain
  unfolding sops_decrypt_with_format emit_plain_file safe_decrypt
  decrypts bytes key mac plain output format v tree branches loaded got off opened mac_opened
        emitted =
      rw (loaded, got, off, opened, check_mac_passes tree key mac mac_opened, emitted)

  -- What `sopsEncryptWithFormat` encrypts, `SopsDecryptWithFormat` decrypts at any later time, with the
  -- check of the data integrity on: the text that it returns is the plain one, written anew in the
  -- format asked for. The format of the encrypted text has all of the data, comments included, and
  -- the data have no comment regexes, or are no JSON.
  pub sops_decrypt-sops_encrypt :
      (Represents : Format → List Branch → Type 0)
      → IsLawful P Represents
      → (metadata : Metadata) (bytes sealed plain : String) (input output format : Format)
        (w w' v : W) (branches : List Branch)
      → Represents output branches
      → (is_json P output && has_comment_regex P metadata) ≡ false
      → P.load_plain_file input bytes ≡ returned (ok branches)
      → P.emit_plain_file format branches ≡ returned (ok plain)
      → sops_encrypt_with_format P metadata bytes input output w ≡ (returned (ok sealed), w')
      → (sops_decrypt_with_format P true sealed output format v).0 ≡ ok plain
  unfolding sops_encrypt_with_format
  sops_decrypt-sops_encrypt Represents L metadata bytes sealed plain input output format w w' v
        branches fits off read written h =
      let (bs, l, h1) = continue_inv (P.load_plain_file input bytes) _ w w' sealed h in
      let start : SopsTree = record { branches = bs; metadata = metadata } in
      let ((key, tree), g, h2) =
        continue_inv (as_user_err P "could not generate data key" (P.generate_data_key start w).0) _
          (P.generate_data_key start w).1 w' sealed h1 in
      let generated : (P.generate_data_key start w).0 ≡ returned (ok (key, tree)) =
        as_user_err_inv P "could not generate data key" (P.generate_data_key start w).0 (key, tree)
          g in
      let ((mac, encrypted), e, h3) =
        continue_inv (as_user_err P "error encrypting sops tree" (P.encrypt_tree tree key)) _
          (P.generate_data_key start w).1 w' sealed h2 in
      let time = (P.now (P.generate_data_key start w).1).0 in
      let later = (P.now (P.generate_data_key start w).1).1 in
      let (c, q, h4) =
        continue_inv
          (encryption_error P "cannot encrypt sops data tree" (P.cipher_encrypt mac key time)) _
          later w' sealed h3 in
      let final : SopsTree = set_mac P (set_branches P tree encrypted) time c in
      let same : tree.branches ≡ branches =
        L.branches-generate_data_key start tree key w generated ∙ cc (l, read) in
      let encrypts =
        as_user_err_inv P "error encrypting sops tree" (P.encrypt_tree tree key) (mac, encrypted)
          e in
      decrypts sealed key mac plain output format v final branches
        (L.load_encrypted_file-emit_encrypted_file output final sealed
          (L.encrypt_tree-Represents output tree key mac encrypted (rw same fits) encrypts)
          (as_user_err_inv P "failed to emit sops encrypted file"
            (P.emit_encrypted_file output final) sealed (ap (λ (r : Called String × W). r.0) h4)))
        (L.get_data_key-generate_data_key start tree key time c w v generated)
        (rw (L.has_comment_regex-generate_data_key start tree key w generated) off)
        (L.decrypt_tree-encrypt_tree tree key time mac c encrypted encrypts
          ∙ ap (λ (b : List Branch). returned (ok (mac, b))) same)
        (L.cipher_decrypt-cipher_encrypt mac key time c (
          encryption_error_inv "cannot encrypt sops data tree" (P.cipher_encrypt mac key time) c q))
        written
