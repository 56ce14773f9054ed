-- ===== src/Decryption/Authentication.antt =====
-- `SetAuthOptions` of internal/decryptor/decryptor.go: the credentials that are made when a backend is
-- used first.
pub mod Completeness
use kustomize_controller.Base.{
  String, ◌<>◌, ◌==◌, Bool, if◌then◌else◌, Option, none, some, List, [], ◌∷◌, ◌++◌, is_some,
}
use kustomize_controller.Errors.{Error, Result, ok, err, wrapped, ◌>>=◌ as ◌then◌}
use kustomize_controller.Io.{Io, pure, raise, lift, on_error, wrap_error, ◌>>=◌, done}
use kustomize_controller.Api.References.{NamespacedName}
use kustomize_controller.Api.Spec.{Decryption}
use kustomize_controller.KeyServices.{
  AuthOption, with_client, with_object, with_spiffe_broker, with_cache, with_service_account_name,
  with_aws_region, with_cache_operation, options_from_spec, Credentials, provided, failing,
}
use kustomize_controller.Decryption.Vault.{AuthSpec, VaultAuth, new_vault_k8s_auth}
use kustomize_controller.Decryption.Credentials.{Decryptor}

-- `corev1.ServiceAccount`
pub record ServiceAccount : Type 0 where
  pub name : String
  pub annotations : List (String × String)

-- `cryptov1.Option`
pub data SpecOption : Type 0 where
  with_annotations : List (String × String) → SpecOption
  with_service_provider : String → SpecOption
  with_sops_vault_config_map : SpecOption

-- `cryptov1.Spec`: its `Auth`, and a text for it
pub record DecryptionSpec : Type 0 where
  pub auth : Option AuthSpec
  pub text : String

-- The client, and `cryptov1.BuildSpec`
pub record AuthPackages (W : Type 0) : Type 0 where
  pub get_service_account : NamespacedName → Io W ServiceAccount
  pub build_spec : List SpecOption → Result DecryptionSpec
  pub show : NamespacedName → String

abbrev sa_annotations : Option ServiceAccount → List SpecOption
sa_annotations none = []
sa_annotations (some sa) = with_annotations sa.annotations ∷ []

abbrev sa_name : Option ServiceAccount → List AuthOption
sa_name none = []
sa_name (some sa) = with_service_account_name sa.name ∷ []

abbrev only_if : {A : Type 0} → Bool → List A → List A
only_if b l = if b then l else []

abbrev pub or_else : {A : Type 0} → Option A → A → Option A
or_else none b = some b
or_else (some a) b = some a

module _ {W : Type 0} (P : AuthPackages W) where
  -- `buildDecryptionSpec(sa, provider)`
  unfoldable pub build_decryption_spec :
      Decryptor → Option ServiceAccount → String → Result DecryptionSpec
  build_decryption_spec d sa provider = P.build_spec (
      sa_annotations sa
      ++ (if provider == "" then [] else with_service_provider provider ∷ [])
      ++ only_if (is_some d.vault_config_map) (with_sops_vault_config_map ∷ []))

  -- `decryptionAuthOptions(sa, spec)`
  unfoldable pub decryption_auth_options :
      Decryptor → Option ServiceAccount → DecryptionSpec → List AuthOption
  decryption_auth_options d sa spec =
      (with_client ∷ with_object ∷ [])
      ++ sa_name sa
      ++ (options_from_spec spec.text ∷ [])
      ++ only_if d.spiffe_broker (with_spiffe_broker ∷ [])

  -- The options of the token cache, for an operation
  abbrev cache_options : Decryptor → String → List AuthOption
  cache_options d operation =
      only_if d.token_cache (with_cache ∷ with_cache_operation operation ∷ [])

  abbrev credentials_of :
      String → List AuthOption → List AuthOption → Result DecryptionSpec → Credentials
  credentials_of provider base more (err e) = failing e
  credentials_of provider base more (ok spec) =
      provided provider (base ++ (options_from_spec spec.text ∷ []) ++ more)

  -- `newAWSCredentialsProvider(ctx, sa, baseOpts)`
  unfoldable pub new_aws_credentials_provider :
      Decryptor → Option ServiceAccount → List AuthOption → String → Credentials
  unfolding build_decryption_spec
  new_aws_credentials_provider d sa base region =
      credentials_of "aws" base
        ((with_aws_region region ∷ []) ++ cache_options d "decrypt_with_aws")
        (build_decryption_spec d sa "aws")

  -- `lazyAzureTokenCredential`, whose `GetToken` makes the credential once
  unfoldable pub lazy_azure_token_credential :
      Decryptor → Option ServiceAccount → List AuthOption → Credentials
  unfolding build_decryption_spec
  lazy_azure_token_credential d sa base =
      credentials_of "azure" base (cache_options d "decrypt_with_azure")
        (build_decryption_spec d sa "azure")

  -- `lazyGCPTokenSource`, whose `Token` makes the source once
  unfoldable pub lazy_gcp_token_source :
      Decryptor → Option ServiceAccount → List AuthOption → Credentials
  unfolding build_decryption_spec
  lazy_gcp_token_source d sa base =
      credentials_of "gcp" base (cache_options d "decrypt_with_gcp")
        (build_decryption_spec d sa "gcp")

  abbrev found : {A : Type 0} → Io W A → Io W (Option A)
  found m = m >>= λ a. pure (some a)

  -- The decryption ServiceAccount, if there is one
  unfoldable pub resolve_service_account :
      String → Decryption → Decryptor → Io W (Option ServiceAccount)
  resolve_service_account namespace spec d =
      let name =
        if spec.service_account_name == ""
        then d.default_service_account
        else spec.service_account_name in
      let reference : NamespacedName = record { namespace = namespace; name = name } in
      if name == ""
      then pure none
      else wrap_error ("failed to get decryption service account '" <> P.show reference <> "': ")
          (found (P.get_service_account reference))

  -- The credentials that are still missing
  unfoldable pub complete_credentials :
      Option ServiceAccount → DecryptionSpec → Decryptor → Decryptor
  unfolding new_aws_credentials_provider lazy_azure_token_credential lazy_gcp_token_source
      decryption_auth_options new_vault_k8s_auth
  complete_credentials sa spec d =
      let base = decryption_auth_options d sa spec in
      record d {
        aws_credentials_provider =
            or_else d.aws_credentials_provider (new_aws_credentials_provider d sa base);
        azure_token_credential =
            or_else d.azure_token_credential (lazy_azure_token_credential d sa base);
        gcp_token_source = or_else d.gcp_token_source (lazy_gcp_token_source d sa base);
        vault_k8s_auth =
            if d.vault_token == ""
            then new_vault_k8s_auth spec.auth d.vault_config_map
            else d.vault_k8s_auth;
      }

  abbrev spec_error : Result DecryptionSpec → Result DecryptionSpec
  spec_error (ok spec) = ok spec
  spec_error (err e) = err (wrapped "failed to build decryption spec: " e)

  abbrev pub with_account : Decryptor → Option ServiceAccount → Io W Decryptor
  with_account d sa = lift (spec_error (build_decryption_spec d sa "")) >>= λ base.
      pure (complete_credentials sa base d)

  abbrev pub set_for_sops : String → Decryption → Decryptor → Io W Decryptor
  set_for_sops namespace spec d = resolve_service_account namespace spec d >>= with_account d

  abbrev set_for : String → Option Decryption → Decryptor → Io W Decryptor
  set_for namespace none d = pure d
  set_for namespace (some spec) d =
      if spec.provider == "sops" then set_for_sops namespace spec d else pure d

  -- `SetAuthOptions(ctx)`: the Decryptor after it, if it succeeds; an error leaves it as it was
  unfoldable pub set_auth_options : String → Option Decryption → Decryptor → Io W Decryptor
  unfolding resolve_service_account build_decryption_spec complete_credentials
  set_auth_options namespace spec d = set_for namespace spec d
