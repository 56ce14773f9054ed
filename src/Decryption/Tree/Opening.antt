-- ===== src/Decryption/Tree/Opening.antt =====
-- What `decryptEnvelopedValues` of internal/decryptor/decryptor.go returns, described without it.
use kustomize_controller.Base.{
  String, ◌<>◌, ◌≡◌, refl, ◌↔◌, ◌⊎◌, inl, inr, true, false, List, [], ◌∷◌, ◌++◌, arith, Bool-cases,
  ap,
}
use kustomize_controller.Base.Cutting.{has_prefix}
use kustomize_controller.Errors.{Result, ok, Result-cases, bind_inv, ok_inv}
use kustomize_controller.Decryption.Redaction.{safe_decrypt}
use kustomize_controller.Decryption.Tree.{
  key, other_key, Value, text, branch, slice, scalar, Branch, empty, item, Values, no_values,
  element, join_with, envelope_prefix, decrypt_text, decrypt_enveloped_value,
  decrypt_enveloped_values, decrypt_elements,
}

module _ (decrypt : String → String → Result Value) where
  -- A text in an envelope opens to what the cipher makes of it, with its path as additional data; any
  -- other text stays as it is.
  abbrev pub OpensText : List String → String → Value → Type 0
  OpensText path v w =
      ((has_prefix v envelope_prefix ≡ true) × (decrypt v (join_with ":" path <> ":") ≡ ok w))
      ⊎ ((has_prefix v envelope_prefix ≡ false) × (w ≡ text v))

  -- The trees have the same keys in the same order, and opened texts where the first has envelopes,
  -- but for the items whose key is no text.
  unfoldable mutual
    pub Opens : List String → Value → Value → Type 0
    Opens path (text v) w = OpensText path v w
    Opens path (branch b) (branch c) = OpensBranch path b c
    Opens path (slice vs) (slice ws) = OpensAll path vs ws
    Opens path (scalar v) w = w ≡ scalar v
    Opens _ _ _ = ⊥

    pub OpensBranch : List String → Branch → Branch → Type 0
    OpensBranch path empty empty = Unit
    OpensBranch path (item other_key v b) (item k w c) =
        (k ≡ other_key) × (w ≡ v) × OpensBranch path b c
    OpensBranch path (item (key k) v b) (item j w c) =
        (j ≡ key k) × Opens (path ++ k ∷ []) v w × OpensBranch path b c
    OpensBranch _ _ _ = ⊥

    pub OpensAll : List String → Values → Values → Type 0
    OpensAll path no_values no_values = Unit
    OpensAll path (element v vs) (element w ws) = Opens path v w × OpensAll path vs ws
    OpensAll _ _ _ = ⊥

  decrypt_text_complete :
      (path : List String) (v : String) (w : Value)
      → OpensText path v w
      → decrypt_text decrypt v path ≡ ok w
  unfolding safe_decrypt
  decrypt_text_complete path v w (inl (p, d)) = rw (p, d) refl
  decrypt_text_complete path v w (inr (p, e)) = rw (p, e) refl

  decrypt_text_sound :
      (path : List String) (v : String) (w : Value)
      → decrypt_text decrypt v path ≡ ok w
      → OpensText path v w
  unfolding safe_decrypt
  decrypt_text_sound path v w h = elim (Bool-cases (has_prefix v envelope_prefix)) [
    | inr plain ↦ inr (plain, ground (arith, plain, h))
    | inl sealed ↦ inl (
      sealed,
      elim (Result-cases (decrypt v (join_with ":" path <> ":"))) [
        | inl (w', good) ↦ ground (arith, good, sealed, h)
        | inr (e, bad) ↦ ground (arith, bad, sealed, h)
      ],
    )
  ]

  mutual
    unfolding Opens decrypt_enveloped_value

    complete :
        (v w : Value) (path : List String)
        → Opens path v w
        → decrypt_enveloped_value decrypt v path ≡ ok w
    complete (text v) w path o = decrypt_text_complete path v w o
    complete (branch b) (branch c) path o = rw (complete_branch b c path o) refl
    complete (slice vs) (slice ws) path o = rw (complete_all vs ws path o) refl
    complete (scalar v) w path o = ap ok (ground (arith, o))
    complete (branch b) (text c) path o = absurd o
    complete (branch b) (slice c) path o = absurd o
    complete (branch b) (scalar c) path o = absurd o
    complete (slice b) (text c) path o = absurd o
    complete (slice b) (branch c) path o = absurd o
    complete (slice b) (scalar c) path o = absurd o

    complete_branch :
        (b c : Branch) (path : List String)
        → OpensBranch path b c
        → decrypt_enveloped_values decrypt b path ≡ ok c
    complete_branch empty empty path o = refl
    complete_branch (item other_key v b) (item k w c) path (ek, ew, o) =
        rw (complete_branch b c path o, ek, ew) refl
    complete_branch (item (key k) v b) (item j w c) path (ek, ow, o) =
        rw (complete v w (path ++ k ∷ []) ow, complete_branch b c path o, ek) refl
    complete_branch empty (item j w c) path o = absurd o
    complete_branch (item other_key v b) empty path o = absurd o
    complete_branch (item (key k) v b) empty path o = absurd o

    complete_all :
        (vs ws : Values) (path : List String)
        → OpensAll path vs ws
        → decrypt_elements decrypt vs path ≡ ok ws
    complete_all no_values no_values path o = refl
    complete_all (element v vs) (element w ws) path (o, os) =
        rw (complete v w path o, complete_all vs ws path os) refl
    complete_all no_values (element w ws) path o = absurd o
    complete_all (element v vs) no_values path o = absurd o

  mutual
    unfolding Opens decrypt_enveloped_value

    sound :
        (v w : Value) (path : List String)
        → decrypt_enveloped_value decrypt v path ≡ ok w
        → Opens path v w
    sound (text v) w path h = decrypt_text_sound path v w h
    sound (branch b) w path h =
        let (c, good, e) = bind_inv (decrypt_enveloped_values decrypt b path) _ w h in
        rw (ok_inv e) (sound_branch b c path good)
    sound (slice vs) w path h =
        let (ws, good, e) = bind_inv (decrypt_elements decrypt vs path) _ w h in
        rw (ok_inv e) (sound_all vs ws path good)
    sound (scalar v) w path h = ok_inv h

    sound_branch :
        (b c : Branch) (path : List String)
        → decrypt_enveloped_values decrypt b path ≡ ok c
        → OpensBranch path b c
    sound_branch empty c path h = rw (ok_inv h) tt
    sound_branch (item other_key v b) c path h =
        let (b', good, e) = bind_inv (decrypt_enveloped_values decrypt b path) _ c h in
        rw (ok_inv e) (refl, refl, sound_branch b b' path good)
    sound_branch (item (key k) v b) c path h =
        let (v', opened, h') =
          bind_inv (decrypt_enveloped_value decrypt v (path ++ k ∷ [])) _ c h in
        let (b', good, e) = bind_inv (decrypt_enveloped_values decrypt b path) _ c h' in
        rw (ok_inv e) (refl, sound v v' (path ++ k ∷ []) opened, sound_branch b b' path good)

    sound_all :
        (vs ws : Values) (path : List String)
        → decrypt_elements decrypt vs path ≡ ok ws
        → OpensAll path vs ws
    sound_all no_values ws path h = rw (ok_inv h) tt
    sound_all (element v vs) ws path h =
        let (v', opened, h') = bind_inv (decrypt_enveloped_value decrypt v path) _ ws h in
        let (vs', good, e) = bind_inv (decrypt_elements decrypt vs path) _ ws h' in
        rw (ok_inv e) (sound v v' path opened, sound_all vs vs' path good)

  -- The walk over a branch succeeds with exactly those branches that have the same keys, and, under
  -- each key that is a text, the opened values.
  pub decrypt_enveloped_values_iff :
      (b c : Branch) (path : List String)
      → (decrypt_enveloped_values decrypt b path ≡ ok c) ↔ OpensBranch path b c
  decrypt_enveloped_values_iff b c path = (sound_branch b c path, complete_branch b c path)
