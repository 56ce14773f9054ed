-- ===== src/Decryption/Resources/Fields.antt =====
-- What `DecryptResource` of internal/decryptor/decryptor.go makes of the data of a Secret, described
-- without it.
use kustomize_controller.Base.{
  String, ◌<>◌, ◌≡◌, refl, sym, ◌↔◌, ◌⊎◌, inl, inr, false, ◌∙◌, ap, Option, none, some,
  Option-cases, List, [], ◌∷◌,
}
use kustomize_controller.Errors.{ok, ok_inv}
use kustomize_controller.Io.{Io, pure, wrap_error, ◌>>=◌}
use kustomize_controller.Io.Frames.{bind_inv, wrap_error_inv}
use kustomize_controller.Api.Spec.{Decryption}
use kustomize_controller.Decryption.Secrets.{is_decryption_disabled}
use kustomize_controller.Decryption.Formats.{Format, detect_format}
use kustomize_controller.Decryption.Resources.{
  Resources, is_sops_encrypted, decrypt_field, decrypt_data, decrypt_resource, title,
}

module _ {W R : Type 0} (P : Resources R) (format_for_path : String → Format)
    (orders : String → List Format) (sops_decrypt : String → Format → Format → Io W String) where
  -- A value that is no base64, or in which there is no marker.
  abbrev pub IsPlain : String → String → Type 0
  IsPlain key value =
      (P.decode value ≡ none)
      ⊎ ((bytes : String) × (P.decode value ≡ some bytes)
          × (detect_format (orders key) bytes ≡ none))

  -- A value with a marker is decrypted from the format of the marker to that of the key's name.
  abbrev pub OpensField : W → String → String → String → W → Type 0
  OpensField s key value value' t =
      (IsPlain key value × (value' ≡ value) × (t ≡ s))
      ⊎ ((bytes : String) × (f : Format) × (out : String) × (P.decode value ≡ some bytes)
          × (detect_format (orders key) bytes ≡ some f)
          × (sops_decrypt bytes f (format_for_path key) s ≡ (ok out, t))
          × (value' ≡ P.encode out))

  -- The same keys in the same order, from one state to another
  unfoldable pub OpensFields : W → List (String × String) → List (String × String) → W → Type 0
  OpensFields s [] [] t = t ≡ s
  OpensFields s ((key, value) ∷ m) ((key', value') ∷ m') t =
      (u : W) × (key' ≡ key) × OpensField s key value value' u × OpensFields u m m' t
  OpensFields _ _ _ _ = ⊥

  module _ (res : R) where
    field_complete :
        (s t : W) (key value value' : String)
        → OpensField s key value value' t
        → decrypt_field P format_for_path orders sops_decrypt res key value s ≡ (ok value', t)
    unfolding decrypt_field
    field_complete s t key value value' (inl (inl n, e, g)) = rw (n, e, g) refl
    field_complete s t key value value' (inl (inr (bytes, d, n), e, g)) = rw (d, n, e, g) refl
    field_complete s t key value value' (inr (bytes, f, out, d, n, o, e)) = rw (d, n, o, e) refl

    abbrev text_of : String → String
    text_of key =
        "failed to decrypt and format '"
        <> title P format_for_path orders sops_decrypt res
        <> "' Secret field '"
        <> key
        <> "': "

    opened_sound :
        (s t : W) (key value bytes value' : String) (f : Format)
        → P.decode value ≡ some bytes
        → detect_format (orders key) bytes ≡ some f
        → (wrap_error (text_of key) (sops_decrypt bytes f (format_for_path key)) >>= λ out.
              pure (P.encode out))
            s
          ≡ (ok value', t)
        → OpensField s key value value' t
    opened_sound s t key value bytes value' f d n h =
        let opened = sops_decrypt bytes f (format_for_path key) in
        let (out, good, e) =
          bind_inv (wrap_error (text_of key) opened) (λ out. pure (P.encode out)) s value' t h in
        inr (
          bytes,
          f,
          out,
          d,
          n,
          wrap_error_inv (text_of key) opened s out good ∙ ap (λ u. (ok out, u)) (ap (λ p. p.1) e),
          ok_inv (ap (λ p. p.0) e),
        )

    plain_sound :
        (s t : W) (key value value' : String)
        → IsPlain key value
        → decrypt_field P format_for_path orders sops_decrypt res key value s ≡ (ok value', t)
        → OpensField s key value value' t
    plain_sound s t key value value' n h =
        let e = sym (field_complete s s key value value (inl (n, refl, refl))) ∙ h in
        inl (n, ok_inv (ap (λ p. p.0) e), sym (ap (λ p. p.1) e))

    field_opened :
        (s : W) (key value bytes : String) (f : Format)
        → P.decode value ≡ some bytes
        → detect_format (orders key) bytes ≡ some f
        → decrypt_field P format_for_path orders sops_decrypt res key value s
          ≡ (wrap_error (text_of key) (sops_decrypt bytes f (format_for_path key)) >>= λ out.
                pure (P.encode out))
              s
    unfolding decrypt_field
    field_opened s key value bytes f d n = rw (d, n) refl

    field_sound :
        (s t : W) (key value value' : String)
        → decrypt_field P format_for_path orders sops_decrypt res key value s ≡ (ok value', t)
        → OpensField s key value value' t
    field_sound s t key value value' h = elim (Option-cases (P.decode value)) [
      | inl n ↦ plain_sound s t key value value' (inl n) h
      | inr (bytes, d) ↦ elim (Option-cases (detect_format (orders key) bytes)) [
        | inl n ↦ plain_sound s t key value value' (inr (bytes, d, n)) h
        | inr (f, n) ↦
            opened_sound s t key value bytes value' f d n
              (sym (field_opened s key value bytes f d n) ∙ h)
      ]
    ]

    data_sound :
        (s t : W) (m m' : List (String × String))
        → decrypt_data P format_for_path orders sops_decrypt res m s ≡ (ok m', t)
        → OpensFields s m m' t
    unfolding decrypt_data OpensFields
    data_sound s t [] m' h = rw (ok_inv (ap (λ p. p.0) h)) (sym (ap (λ p. p.1) h))
    data_sound s t ((key, value) ∷ m) m' h =
        let field = decrypt_field P format_for_path orders sops_decrypt res key value in
        let fields = decrypt_data P format_for_path orders sops_decrypt res m in
        let (value', e, h') =
          bind_inv field (λ v. fields >>= λ rest. pure ((key, v) ∷ rest)) s m' t h in
        let (rest, e', h'') =
          bind_inv fields (λ rest. pure ((key, value') ∷ rest)) (field s).1 m' t h' in
        rw (ok_inv (ap (λ p. p.0) h'')) (
          (field s).1,
          refl,
          field_sound s (field s).1 key value value' (ap (λ r. (r, (field s).1)) e),
          data_sound (field s).1 t m rest
              (ap (λ r. (r, (fields (field s).1).1)) e' ∙ ap (λ p. (ok rest, p.1)) h''),
        )

    data_complete :
        (s t : W) (m m' : List (String × String))
        → OpensFields s m m' t
        → decrypt_data P format_for_path orders sops_decrypt res m s ≡ (ok m', t)
    unfolding decrypt_data OpensFields
    data_complete s t [] [] o = rw o refl
    data_complete s t ((key, value) ∷ m) ((key', value') ∷ m') (u, e, o, os) =
        rw (field_complete s u key value value' o, data_complete u t m m' os, e) refl
    data_complete s t [] (b ∷ m') o = absurd o
    data_complete s t (b ∷ m) [] o = absurd o

  abbrev some_or : R → Option R → R
  some_or r none = r
  some_or r (some r') = r'

  set_sound :
      (res r : R) (s t : W)
      → (decrypt_data P format_for_path orders sops_decrypt res (P.get_data_map res) >>= λ m.
            pure (some (P.set_data_map res m)))
          s
        ≡ (ok (some r), t)
      → (m : List (String × String)) × OpensFields s (P.get_data_map res) m t
        × (r ≡ P.set_data_map res m)
  set_sound res r s t h =
      let entries = decrypt_data P format_for_path orders sops_decrypt res (P.get_data_map res) in
      let (m, e, h') = bind_inv entries (λ m. pure (some (P.set_data_map res m))) s (some r) t h in
      (
        m,
        data_sound res s t (P.get_data_map res) m
            (ap (λ u. (u, (entries s).1)) e ∙ ap (λ p. (ok m, p.1)) h'),
        ap (some_or r) (ok_inv (ap (λ p. p.0) h')),
      )

  -- With the provider SOPS, and unless decryption is disabled for it, `DecryptResource` of a Secret
  -- that is not encrypted as a whole returns exactly the Secret with the data in which every value
  -- whose base64 has a marker is decrypted, and all else is as it was; the states between the
  -- decryptions are those of one pass through the data.
  pub decrypt_resource_iff :
      (d : Decryption) (res r : R) (s t : W)
      → d.provider ≡ "sops"
      → is_decryption_disabled (P.get_annotations res) ≡ false
      → is_sops_encrypted P format_for_path orders sops_decrypt res ≡ false
      → P.get_kind res ≡ "Secret"
      → (decrypt_resource P format_for_path orders sops_decrypt (some d) res s ≡ (ok (some r), t))
        ↔ ((m : List (String × String)) × OpensFields s (P.get_data_map res) m t
            × (r ≡ P.set_data_map res m))
  unfolding decrypt_resource
  decrypt_resource_iff d res r s t sops enabled plain secret =
      rw (sops, enabled, plain, secret)
        (
          (λ h. set_sound res r s t h),
          (λ (m, o, e). rw (data_complete res s t (P.get_data_map res) m o, e) refl),
        )
