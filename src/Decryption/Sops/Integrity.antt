-- ===== src/Decryption/Sops/Integrity.antt =====
-- The data integrity check of `SopsDecryptWithFormat` in internal/decryptor/decryptor.go.
use kustomize_controller.Base.{
  String, ◌≡◌, refl, ap, ◌∙◌, true, List, arith, Bool-cases, inl, inr, eq_iff, ◌&&◌,
}
use kustomize_controller.Errors.{ok, err, Result-cases}
use kustomize_controller.Decryption.Formats.{Format}
use kustomize_controller.Decryption.Redaction.{safe_decrypt}
use kustomize_controller.Decryption.Tree.{Value, text, branch, slice, scalar, Branch}
use kustomize_controller.Decryption.Sops.{
  Sops, SopsTree, Called, returned, panicked, Calling, continue, as_user_err, on_redacted,
  check_mac, is_text, recovered, sops_decrypt_with_format, emit_plain_file, decrypting,
  decrypt_whole, call, check_and_emit, decrypt_tree_of, has_comment_regex, is_json, decrypt_loaded,
}

module _ {W A B : Type 0} where
  pub continue_inv :
      (c : Called A) (f : A → Calling W B) (w v : W) (b : B)
      → continue c f w ≡ (returned (ok b), v)
      → (a : A) × (c ≡ returned (ok a)) × (f a w ≡ (returned (ok b), v))
  continue_inv (returned (ok a)) f w v b h = (a, refl, h)
  continue_inv (returned (err e)) f w v b h = ground arith
  continue_inv (panicked p) f w v b h = ground arith

module _ {W : Type 0} (P : Sops W) where
  pub as_user_err_inv :
      {A : Type 0} (msg : String) (c : Called A) (a : A)
      → as_user_err P msg c ≡ returned (ok a)
      → c ≡ returned (ok a)
  as_user_err_inv msg (returned (ok b)) a h = h
  as_user_err_inv msg (returned (err e)) a h = ground arith
  as_user_err_inv msg (panicked p) a h = ground arith

  on_redacted_inv :
      {A : Type 0} (msg : String) (c : Called A) (a : A)
      → on_redacted P msg c ≡ returned (ok a)
      → c ≡ returned (ok a)
  unfolding safe_decrypt
  on_redacted_inv msg (returned (ok b)) a h = h
  on_redacted_inv msg (returned (err e)) a h = ground arith
  on_redacted_inv msg (panicked p) a h = ground arith

  recovered_inv :
      (msg : String) (c : Called String × W) (out : String) (w : W)
      → recovered P msg c ≡ (ok out, w)
      → c ≡ (returned (ok out), w)
  recovered_inv msg (returned r, v) out w h = ground arith
  recovered_inv msg (panicked p, v) out w h = ground arith

  is_text_sound : (v : Value) (t : String) → is_text P v t ≡ true → v ≡ text t
  is_text_sound (text v) t h = ap text (ground (arith, eq_iff v t))
  is_text_sound (branch b) t h = ground arith
  is_text_sound (slice vs) t h = ground arith
  is_text_sound (scalar v) t h = ground arith

  check_mac_sound :
      (tree : SopsTree) (key mac : String)
      → check_mac P true tree key mac ≡ ok tt
      → P.cipher_decrypt tree.metadata.message_authentication_code key tree.metadata.last_modified
        ≡ ok (text mac)
  unfolding check_mac safe_decrypt
  check_mac_sound tree key mac h =
      elim (Result-cases (
        P.cipher_decrypt tree.metadata.message_authentication_code key
          tree.metadata.last_modified)) [
            | inr (e, bad) ↦ ground (arith, bad, h)
            | inl (original, good) ↦ elim (Bool-cases (is_text P original mac)) [
              | inl same ↦ good ∙ ap ok (is_text_sound original mac same)
              | inr differs ↦ ground (arith, good, differs, h)
            ]
          ]

  abbrev Opened : SopsTree → String → Format → String → Type 0
  Opened tree key output out =
      (mac : String) × (branches : List Branch) × (P.decrypt_tree tree key
        ≡ returned (ok (mac, branches)))
      × (P.cipher_decrypt tree.metadata.message_authentication_code key tree.metadata.last_modified
          ≡ ok (text mac))
      × (P.emit_plain_file output branches ≡ returned (ok out))

  emitted_inv :
      (branches : List Branch) (input output : Format) (out : String) (w v : W)
      → call (emit_plain_file P branches input output) w ≡ (returned (ok out), v)
      → P.emit_plain_file output branches ≡ returned (ok out)
  unfolding emit_plain_file
  emitted_inv branches input output out w v h =
      as_user_err_inv _ (P.emit_plain_file output branches) out (ap (λ p. p.0) h)

  whole_inv :
      (tree : SopsTree) (key out : String) (input output : Format) (w v : W)
      → decrypt_whole P true tree key input output w ≡ (returned (ok out), v)
      → Opened tree key output out
  whole_inv tree key out input output w v h =
      let ((mac, branches), opened, h1) =
        continue_inv (on_redacted P _ (P.decrypt_tree tree key))
          (check_and_emit P true tree key input output) w v out h in
      let (u, checked, h2) =
        continue_inv (returned (check_mac P true tree key mac))
          (λ u. call (emit_plain_file P branches input output)) w v out h1 in
      (
        mac,
        branches,
        on_redacted_inv _ (P.decrypt_tree tree key) (mac, branches) opened,
        check_mac_sound tree key mac (ground (arith, checked)),
        emitted_inv branches input output out w v h2,
      )

  loaded_inv :
      (tree : SopsTree) (key out : String) (input output : Format) (w v : W)
      → decrypt_loaded P true tree input output key w ≡ (returned (ok out), v)
      → Opened tree key output out
  loaded_inv tree key out input output w v h =
      elim (Bool-cases (is_json P input && has_comment_regex P tree.metadata)) [
        | inl comments ↦ ground (arith, comments, h)
        | inr off ↦ whole_inv tree key out input output w v (ground (arith, off, h))
      ]

  -- A tree whose decrypted branches are in the output, and whose MAC, which the data key opens, is
  -- the one that its decryption computes.
  abbrev pub Verified : String → Format → Format → W → String → Type 0
  Verified bytes input output w out =
      (tree : SopsTree) × (key mac : String) × (branches : List Branch) × (P.load_encrypted_file
          input bytes
        ≡ returned (ok tree))
      × ((P.get_data_key tree.metadata w).0 ≡ returned (ok key))
      × (P.decrypt_tree tree key ≡ returned (ok (mac, branches)))
      × (P.cipher_decrypt tree.metadata.message_authentication_code key tree.metadata.last_modified
          ≡ ok (text mac))
      × (P.emit_plain_file output branches ≡ returned (ok out))

  -- With the integrity check on, no text is returned unless the MAC of the data is the one computed
  -- from the values decrypted, and the text shows just these.
  pub sops_decrypt_verifies :
      (bytes out : String) (input output : Format) (w w' : W)
      → sops_decrypt_with_format P true bytes input output w ≡ (ok out, w')
      → Verified bytes input output w out
  unfolding sops_decrypt_with_format
  sops_decrypt_verifies bytes out input output w w' h =
      let (tree, loaded, h1) =
        continue_inv (as_user_err P _ (P.load_encrypted_file input bytes))
          (decrypt_tree_of P true input output) w w' out
          (recovered_inv _ (decrypting P true bytes input output w) out w' h) in
      let (key, got, h2) =
        continue_inv (as_user_err P "cannot get sops data key" (P.get_data_key tree.metadata w).0)
          (decrypt_loaded P true tree input output) (P.get_data_key tree.metadata w).1 w' out h1 in
      let (mac, branches, ds, cs, es) =
        loaded_inv tree key out input output (P.get_data_key tree.metadata w).1 w' h2 in
      (
        tree,
        key,
        mac,
        branches,
        as_user_err_inv _ (P.load_encrypted_file input bytes) tree loaded,
        as_user_err_inv "cannot get sops data key" (P.get_data_key tree.metadata w).0 key got,
        ds,
        cs,
        es,
      )
