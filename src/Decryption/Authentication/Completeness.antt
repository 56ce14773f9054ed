-- ===== src/Decryption/Authentication/Completeness.antt =====
-- After `SetAuthOptions` of internal/decryptor/decryptor.go every cloud backend has credentials, and
-- the key service made of the Decryptor finds them.
use kustomize_controller.Base.{
  String, ◌==◌, ◌≡◌, refl, Option, none, some, eq_iff, is_some, true, false, arith, inl, inr,
}
use kustomize_controller.Errors.{ok, Result-cases}
use kustomize_controller.Io.Frames.{bind_inv}
use kustomize_controller.Api.References.{NamespacedName}
use kustomize_controller.Api.Spec.{Decryption}
use kustomize_controller.KeyServices.{Credentials, KeyServiceServer, new_server, MasterKeys}
use kustomize_controller.KeyServices.Serving.{aws_credentials}
use kustomize_controller.KeyServices.Region.{get_region_from_kms_arn}
use kustomize_controller.Decryption.Vault.{Vaults, AuthSpec, Tokens, Paths}
use kustomize_controller.Decryption.Credentials.{Decryptor, load_key_service_server}
use kustomize_controller.Decryption.Authentication.{
  AuthPackages, ServiceAccount, DecryptionSpec, or_else, complete_credentials, set_auth_options,
  with_account, resolve_service_account, build_decryption_spec,
}

-- The second option holds what the first one holds, and something in any case.
abbrev pub Completes : {A : Type 0} → Option A → Option A → Type 0
Completes none after = is_some after ≡ true
Completes (some a) after = after ≡ some a

or_else-Completes : {A : Type 0} (o : Option A) (b : A) → Completes o (or_else o b)
or_else-Completes none b = refl
or_else-Completes (some a) b = refl

-- The cloud credentials of the second Decryptor complete those of the first; a static Vault token
-- keeps the login by ServiceAccount as it was; and all that was imported is the same.
abbrev pub CompletesAll : Decryptor → Decryptor → Type 0
CompletesAll d d' =
    Completes d.aws_credentials_provider d'.aws_credentials_provider
    × Completes d.azure_token_credential d'.azure_token_credential
    × Completes d.gcp_token_source d'.gcp_token_source
    × (d'.vault_token ≡ d.vault_token)
    × (d'.age_identities ≡ d.age_identities)
    × ((d.vault_token == "") ≡ false → d'.vault_k8s_auth ≡ d.vault_k8s_auth)

module _ {W : Type 0} (P : AuthPackages W) where
  complete_credentials-CompletesAll :
      (sa : Option ServiceAccount) (spec : DecryptionSpec) (d : Decryptor)
      → CompletesAll d (complete_credentials P sa spec d)
  unfolding complete_credentials
  complete_credentials-CompletesAll sa spec d = (
    or_else-Completes d.aws_credentials_provider _,
    or_else-Completes d.azure_token_credential _,
    or_else-Completes d.gcp_token_source _,
    refl,
    refl,
    λ static. rw static refl,
  )

  -- If `SetAuthOptions` succeeds for the provider SOPS, then the Decryptor has credentials for AWS,
  -- Azure and GCP; those imported before it are kept, and so is all of Vault with a static token.
  pub set_auth_options_completes :
      (namespace : String) (spec : Decryption) (d d' : Decryptor) (w w' : W)
      → spec.provider ≡ "sops"
      → set_auth_options P namespace (some spec) d w ≡ (ok d', w')
      → CompletesAll d d'
  unfolding set_auth_options
  set_auth_options_completes namespace spec d d' w w' sops h =
      let (sa, found, h1) =
        bind_inv (resolve_service_account P namespace spec d) (with_account P d) w d' w'
          (ground (arith, eq_iff spec.provider "sops", sops, h)) in
      elim (Result-cases (build_decryption_spec P d sa "")) [
        | inr (e, bad) ↦ ground (arith, bad, h1)
        | inl (base, good) ↦
            rw (result sa base (resolve_service_account P namespace spec d w).1 good h1)
              (complete_credentials-CompletesAll sa base d)
      ]
    where
      result :
          (sa : Option ServiceAccount) (base : DecryptionSpec) (v : W)
          → build_decryption_spec P d sa "" ≡ ok base
          → with_account P d sa v ≡ (ok d', w')
          → d' ≡ complete_credentials P sa base d
      result sa base v good h1 = ground (arith, good, h1)

  completed_some :
      {A : Type 0} (o after : Option A) → Completes o after → (a : A) × (after ≡ some a)
  completed_some (some a) after c = (a, c)
  completed_some none (some a) c = (a, refl)
  completed_some none none c = ground arith

  -- The key service of a Decryptor for which `SetAuthOptions` succeeded for SOPS has credentials for
  -- every key of AWS KMS, and for Azure Key Vault and GCP KMS those of the Decryptor, which are
  -- not nil.
  pub load_key_service_server_has_credentials :
      {V : Type 0} (vaults : Vaults V) (show : NamespacedName → String) (auth : Option AuthSpec)
      (standard : KeyServiceServer (Tokens × Paths V)) (masters : MasterKeys (Tokens × Paths V))
      (arn namespace : String) (spec : Decryption) (d d' : Decryptor) (w w' : W)
      → spec.provider ≡ "sops"
      → set_auth_options P namespace (some spec) d w ≡ (ok d', w')
      → ((c : Credentials) × (aws_credentials masters
              (load_key_service_server vaults show d' auth standard)
              arn
            ≡ ok c))
        × ((c : Credentials) × (d'.azure_token_credential ≡ some c)
            × ((load_key_service_server vaults show d' auth standard).azure_token_credential
                ≡ some c))
        × ((c : Credentials) × (d'.gcp_token_source ≡ some c)
            × ((load_key_service_server vaults show d' auth standard).gcp_token_source ≡ c))
  unfolding load_key_service_server new_server
  load_key_service_server_has_credentials vaults show auth standard masters arn namespace spec d d'
        w w' sops h =
      let (aws, azure, gcp, _, _, _) = set_auth_options_completes namespace spec d d' w w' sops h in
      let (p, provided) =
        completed_some d.aws_credentials_provider d'.aws_credentials_provider aws in
      let (c, set) = completed_some d.azure_token_credential d'.azure_token_credential azure in
      let (g, given) = completed_some d.gcp_token_source d'.gcp_token_source gcp in
      (
        (p (get_region_from_kms_arn arn), rw provided refl),
        (c, set, rw set refl),
        (g, given, rw given refl),
      )
