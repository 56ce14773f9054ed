-- ===== src/Decryption/Importing/Isolation.antt =====
-- What the global Secret with age keys can change in a Decryptor, by `ImportKeys` of
-- internal/decryptor/decryptor.go.
use kustomize_controller.Base.{
  String, ◌≡◌, refl, ap, Option, none, some, List, [], ◌∷◌, ◌==◌, arith, ◌⊎◌, inl, inr, Bool-cases,
}
use kustomize_controller.Errors.{Result, ok, err, Result-cases, is_not_found}
use kustomize_controller.Io.{continue, ◌>>=◌}
use kustomize_controller.Io.Frames.{Keeps, bind-Keeps, on_error-Keeps, if-Keeps, reader-Keeps}
use kustomize_controller.Api.Spec.{Decryption}
use kustomize_controller.Api.References.{NamespacedName}
use kustomize_controller.Decryption.Credentials.{Decryptor}
use kustomize_controller.Decryption.Importing.{
  KeyPackages, Importer, import_age_identities, set_identities, import_global, fetch, import_from,
  import_keys,
}

module _ {W : Type 0} (P : KeyPackages W) (d0 : Decryptor) (w0 : W) where
  -- The Decryptor differs from the first one in its age identities at most, and the world, which has
  -- the keyrings, is the first one.
  abbrev AgeOnly : Importer P → Type 0
  AgeOnly s = (s.0 ≡ record d0 { age_identities = s.0.age_identities }) × (s.1 ≡ w0)

  set_identities-AgeOnly :
      (d : Decryptor) (w : W) (r : Result (List String))
      → AgeOnly (d, w)
      → AgeOnly (set_identities P d w r).1
  set_identities-AgeOnly d w (ok ids) (h, same) = (ap with_ids h, same)
    where
      with_ids : Decryptor → Decryptor
      with_ids x = record x { age_identities = ids }
  set_identities-AgeOnly d w (err e) h = h

  import_age_identities-AgeOnly : (value : String) → Keeps AgeOnly (import_age_identities P value)
  import_age_identities-AgeOnly value = record {
    keeps = λ s h. set_identities-AgeOnly s.0 s.1 (P.import_age s.0.age_identities value) h;
  }

  import_global-AgeOnly :
      (secret : String) (entries : List (String × String))
      → Keeps AgeOnly (import_global P secret entries)
  unfolding import_global
  import_global-AgeOnly secret [] = reader-Keeps AgeOnly (λ s. ok tt)
  import_global-AgeOnly secret ((name, value) ∷ rest) =
      bind-Keeps AgeOnly _ _
        (if-Keeps AgeOnly (P.ext name == ".agekey") _ _
          (on_error-Keeps AgeOnly (import_age_identities P value) _
            (import_age_identities-AgeOnly value) (λ e. reader-Keeps AgeOnly _))
          (reader-Keeps AgeOnly (λ s. ok tt)))
        (λ u. import_global-AgeOnly secret rest)

module _ {W : Type 0} (P : KeyPackages W) where
  -- From one Importer to another nothing changes but the age identities, and the world at most as the
  -- global Secret is read.
  abbrev pub Isolated : Importer P → Importer P → Type 0
  Isolated (d, w) (d', w') =
      (d' ≡ record d { age_identities = d'.age_identities })
      × ((w' ≡ w)
          ⊎ ((global : NamespacedName) × (d.sops_age_secret ≡ some global)
              × (w' ≡ (P.get_secret global w).1)))

  fetch_frame :
      (kind : String) (name : NamespacedName) (d : Decryptor) (w : W)
      → (fetch P kind name (d, w)).1 ≡ (d, (P.get_secret name w).1)
  fetch_frame kind name d w = elim (Result-cases (P.get_secret name w).0) [
    | inl (entries, good) ↦ rw good refl
    | inr (e, bad) ↦ elim (Bool-cases (is_not_found e)) [
      | inl gone ↦ rw (bad, gone) refl
      | inr other ↦ rw (bad, other) refl
    ]
  ]

  continued-AgeOnly :
      (secret : String) (d : Decryptor) (v : W) (r : Result (List (String × String)))
      (s : Importer P)
      → AgeOnly P d v s
      → AgeOnly P d v (continue r (import_global P secret) s).1
  continued-AgeOnly secret d v (ok entries) s h =
      (import_global-AgeOnly P d v secret entries).keeps s h
  continued-AgeOnly secret d v (err e) s h = h

  -- Without a Secret of its own, a Kustomization imports from the global one at most.
  imported_global :
      (global : NamespacedName) (d : Decryptor) (w : W)
      → AgeOnly P d
          (P.get_secret global w).1
          ((fetch P "SOPS age " global >>= import_global P (P.show global)) (d, w)).1
  imported_global global d w =
      let read = fetch P "SOPS age " global (d, w) in
      continued-AgeOnly (P.show global) d (P.get_secret global w).1 read.0 read.1
        (rw (fetch_frame "SOPS age " global d w) (refl, refl))

  import_from-Isolated :
      (namespace : String) (own : Option String) (global : Option NamespacedName) (d : Decryptor)
      (w : W)
      → d.sops_age_secret ≡ global
      → own ≡ none
      → Isolated (d, w) (import_from P namespace own global (d, w)).1
  import_from-Isolated namespace (some name) global d w g h = ground (arith, h)
  import_from-Isolated namespace none none d w g h = (refl, inl refl)
  import_from-Isolated namespace none (some global) d w g h =
      let (kept, world) = imported_global global d w in (kept, inr (global, g, world))

-- For a Kustomization that refers to no Secret of its own, `ImportKeys` changes nothing but the age
-- identities of the Decryptor, whatever the global Secret holds and whether it succeeds or not: all
-- other credentials stay, and so does the world with its keyrings, but for the read of that Secret.
pub import_keys_isolates :
    {W : Type 0} (P : KeyPackages W) (namespace : String) (spec : Decryption) (d : Decryptor)
    (w : W)
    → spec.secret_ref ≡ none
    → Isolated P (d, w) (import_keys P namespace (some spec) (d, w)).1
unfolding import_keys
import_keys_isolates P namespace spec d w h = elim (Bool-cases (spec.provider == "sops")) [
  | inl sops ↦
      rw sops (import_from-Isolated P namespace spec.secret_ref d.sops_age_secret d w refl h)
  | inr other ↦ rw other (refl, inl refl)
]
