-- ===== src/Decryption/Credentials.antt =====
-- `Decryptor` of internal/decryptor/decryptor.go with its options in options.go: the credentials that
-- it holds, and the key service that it makes of them.
use kustomize_controller.Base.{String, Bool, true, false, Option, none, some, List, [], ◌∷◌, ℕ}
use kustomize_controller.Errors.{Result, ok, err, wrapped}
use kustomize_controller.Io.{Io}
use kustomize_controller.Api.References.{NamespacedName}
use kustomize_controller.KeyServices.{
  Credentials, nil_credentials, KeyServiceServer, Server, ServerOption, with_gnupg_home,
  with_vault_token, with_vault_k8s_auth, with_age_identities, with_aws_credentials_provider,
  with_gcp_token_source, with_azure_token_credential, new_server,
}
use kustomize_controller.KeyServices.Region.{get_region_from_kms_arn}
use kustomize_controller.Decryption.Sources.{max_encrypted_file_size}
use kustomize_controller.Decryption.Vault.{
  Vaults, AuthSpec, VaultAuth, by_transit_engine, by_config_map, no_vault_auth, Tokens, Paths,
  cache_vault_tokens, config_map_fetch, transit_engine_fetch, in_world,
}

-- The client, the Kustomization and the key services stand apart.
pub record Decryptor : Type 0 where
  pub root : String
  pub max_file_size : ℕ
  pub check_sops_mac : Bool
  -- whether they are set
  pub token_cache : Bool
  pub spiffe_broker : Bool
  pub default_service_account : String
  pub gnupg_home : String
  pub age_identities : List String
  pub vault_token : String
  pub vault_k8s_auth : VaultAuth
  pub vault_config_map : Option NamespacedName
  pub aws_credentials_provider : Option (String → Credentials)
  pub azure_token_credential : Option Credentials
  pub gcp_token_source : Option Credentials
  pub sops_age_secret : Option NamespacedName

-- The functional options of options.go
pub data DecryptorOption : Type 0 where
  with_root with_default_service_account : String → DecryptorOption
  with_token_cache with_spiffe_broker : DecryptorOption
  with_sops_age_secret with_vault_config_map : String → String → DecryptorOption

unfoldable pub apply_option : DecryptorOption → Decryptor → Decryptor
apply_option (with_root root) d = record d { root = root }
apply_option (with_default_service_account name) d = record d { default_service_account = name }
apply_option with_token_cache d = record d { token_cache = true }
apply_option with_spiffe_broker d = record d { spiffe_broker = true }
apply_option (with_sops_age_secret name namespace) d = record d {
  sops_age_secret = some (record { namespace = namespace; name = name });
}
apply_option (with_vault_config_map name namespace) d = record d {
  vault_config_map = some (record { namespace = namespace; name = name });
}

-- `for _, opt := range opts`
unfoldable pub apply_decryptor_options : List DecryptorOption → Decryptor → Decryptor
unfolding apply_option
apply_decryptor_options [] d = d
apply_decryptor_options (o ∷ os) d = apply_decryptor_options os (apply_option o d)

-- The literal in `New`
abbrev pub decryptor_in : String → Decryptor
decryptor_in home = record {
  root = "";
  max_file_size = max_encrypted_file_size;
  check_sops_mac = false;
  token_cache = false;
  spiffe_broker = false;
  default_service_account = "";
  gnupg_home = home;
  age_identities = [];
  vault_token = "";
  vault_k8s_auth = no_vault_auth;
  vault_config_map = none;
  aws_credentials_provider = none;
  azure_token_credential = none;
  gcp_token_source = none;
  sops_age_secret = none;
}

-- `New(client, kustomization, opts...)`, after `pgp.NewGnuPGHome()`; the cleanup removes the directory
-- that is returned.
unfoldable pub new_decryptor : Result String → List DecryptorOption → Result (Decryptor × String)
unfolding apply_decryptor_options
new_decryptor (err e) opts = err (wrapped "cannot create decryptor: " e)
new_decryptor (ok home) opts = ok (apply_decryptor_options opts (decryptor_in home), home)

abbrev or_nil : Option Credentials → Credentials
or_nil none = nil_credentials
or_nil (some c) = c

module _ {W : Type 0} (P : Vaults W) (show : NamespacedName → String) (d : Decryptor)
    (spec : Option AuthSpec) where
  -- The state of the function that is cached: its tokens, and the login paths with the world
  abbrev pub Cache : Type 0
  Cache = Tokens × Paths W

  -- The function that `vaultK8sAuth` holds, for the specification that it was made with
  unfoldable pub vault_auth_function : VaultAuth → Option (String → Io Cache String)
  unfolding cache_vault_tokens config_map_fetch transit_engine_fetch
  vault_auth_function no_vault_auth = none
  vault_auth_function (by_config_map c) =
      some (cache_vault_tokens (config_map_fetch P d.token_cache spec c show))
  vault_auth_function (by_transit_engine te) = some (
      cache_vault_tokens
        (λ address. in_world (transit_engine_fetch P d.token_cache spec te address)))

  -- The options in `loadKeyServiceServer`
  abbrev pub server_options : List (ServerOption Cache)
  server_options =
      with_gnupg_home d.gnupg_home
      ∷ with_vault_token d.vault_token
      ∷ with_vault_k8s_auth (vault_auth_function d.vault_k8s_auth)
      ∷ with_age_identities d.age_identities
      ∷ with_aws_credentials_provider d.aws_credentials_provider
      ∷ with_azure_token_credential (or_nil d.azure_token_credential)
      ∷ with_gcp_token_source (or_nil d.gcp_token_source)
      ∷ []

  -- `loadKeyServiceServer()`: the server of the one client of the decryptor
  unfoldable pub load_key_service_server : KeyServiceServer Cache → Server Cache
  unfolding vault_auth_function new_server get_region_from_kms_arn
  load_key_service_server standard = new_server get_region_from_kms_arn standard server_options

  -- `keyServiceServer()`: the server of the first call is kept.
  unfoldable pub key_service_server : KeyServiceServer Cache → Option (Server Cache) → Server Cache
  unfolding load_key_service_server
  key_service_server standard (some server) = server
  key_service_server standard none = load_key_service_server standard
