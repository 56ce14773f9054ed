-- ===== src/Decryption/Sops/Encrypting.antt =====
-- `sopsEncryptWithFormat` of internal/decryptor/decryptor.go.
use kustomize_controller.Base.{String, List}
use kustomize_controller.Errors.{Result, ok, err}
use kustomize_controller.Decryption.Formats.{Format}
use kustomize_controller.Decryption.Tree.{Branch}
use kustomize_controller.Decryption.Sops.{
  Sops, SopsTree, Metadata, Called, returned, Calling, call, as_user_err, user_err, sops_user_err,
  ◌>>=◌,
}

module _ {W : Type 0} (P : Sops W) where
  abbrev pub set_branches : SopsTree → List Branch → SopsTree
  set_branches tree branches = record tree { branches = branches }

  abbrev pub set_mac : SopsTree → String → String → SopsTree
  set_mac tree time mac = record tree {
    metadata = record tree.metadata { message_authentication_code = mac; last_modified = time };
  }

  abbrev pub encryption_error : String → Result String → Called String
  encryption_error msg (ok a) = returned (ok a)
  encryption_error msg (err e) = as_user_err P msg (returned (err e))

  -- `sopsEncryptWithFormat(metadata, data, inputFormat, outputFormat)`, which does not recover
  unfoldable pub sops_encrypt_with_format : Metadata → String → Format → Format → Calling W String
  unfolding sops_user_err
  sops_encrypt_with_format metadata bytes input output =
      call (P.load_plain_file input bytes) >>= λ branches.
      user_err P "could not generate data key"
        (P.generate_data_key (record { branches = branches; metadata = metadata }))
      >>= λ (key, tree).
          call (as_user_err P "error encrypting sops tree" (P.encrypt_tree tree key))
          >>= λ (unencrypted_mac, encrypted).
              (λ w. let (t, w') = P.now w in (returned (ok t), w')) >>= λ time.
              call (
                encryption_error "cannot encrypt sops data tree"
                  (P.cipher_encrypt unencrypted_mac key time))
              >>= λ mac. call (
                  as_user_err P "failed to emit sops encrypted file"
                    (P.emit_encrypted_file output (set_mac (set_branches tree encrypted) time mac)))
