-- ===== src/KeyServices.antt =====
-- internal/sops/keyservice: the SOPS key service of the decryptor, its options, the keys of requests
-- and the master keys that it makes of them.
pub mod Region
pub mod Azure
pub mod Serving
use kustomize_controller.Base.{String, ◌==◌, Bool, if◌then◌else◌, Option, none, some, List, [], ◌∷◌}
use kustomize_controller.Errors.{Error}
use kustomize_controller.Io.{Io}

-- `keyservice.KmsKey`, `VaultKey` and `AzureKeyVaultKey`
pub record KmsKey : Type 0 where
  pub arn : String
  pub role : String
  pub context : List (String × String)

pub record VaultKey : Type 0 where
  pub vault_address : String
  pub engine_path : String
  pub key_name : String

pub record AzureKeyVaultKey : Type 0 where
  pub vault_url : String
  pub name : String
  pub version : String

-- `keyservice.Key`, by its key type; a PGP key has a fingerprint, an age key a recipient and a GCP key
-- a resource id.
pub data Key : Type 0 where
  pgp_key age_key gcp_kms_key : String → Key
  vault_key : VaultKey → Key
  kms_key : KmsKey → Key
  azure_keyvault_key : AzureKeyVaultKey → Key
  -- a type that the service does not know, and none
  other_key : String → Key
  no_key : Key

-- `auth.Option`
pub data AuthOption : Type 0 where
  with_client with_object with_spiffe_broker with_cache : AuthOption
  with_service_account_name with_aws_region with_cache_operation : String → AuthOption
  -- `auth.OptionsFromSpec(spec.Auth)`, for a specification with this text
  options_from_spec : String → AuthOption

-- The cloud credentials: none, static ones, those that a provider makes of options when it is first
-- used, and those whose every use fails.
pub data Credentials : Type 0 where
  nil_credentials : Credentials
  static_credentials : String → Credentials
  provided : String → List AuthOption → Credentials
  failing : Error → Credentials

-- The master keys of SOPS, without the encrypted data key, and what was applied to them.
pub data MasterKey : Type 0 where
  -- the fingerprint, whether OpenPGP is disabled, and the GnuPG home
  pgp : String → Bool → Option String → MasterKey
  -- the recipient and the identities
  age : String → List String → MasterKey
  -- the key and the token
  hc_vault : VaultKey → String → MasterKey
  aws_kms : KmsKey → Credentials → MasterKey
  azure_kv : AzureKeyVaultKey → Credentials → MasterKey
  gcp_kms : String → Credentials → MasterKey

-- The packages of SOPS on a world: a master key encrypts a data key to its encrypted form, which it
-- decrypts again.
pub record MasterKeys (W : Type 0) : Type 0 where
  pub encrypt : MasterKey → String → Io W String
  pub decrypt : MasterKey → String → Io W String

-- `keyservice.KeyServiceServer`: the ciphertext and the plaintext of its responses.
pub record KeyServiceServer (W : Type 0) : Type 0 where
  pub encrypt : Key → String → Io W String
  pub decrypt : Key → String → Io W String

-- `Server`; the functions and pointers that may be nil are options
pub record Server (W : Type 0) : Type 0 where
  pub gnupg_home : String
  pub age_identities : List String
  pub vault_token : String
  pub vault_k8s_auth : Option (String → Io W String)
  pub azure_token_credential : Option Credentials
  -- none for a region if the provider that was given is nil
  pub aws_credentials_provider : Option (String → Option Credentials)
  pub gcp_token_source : Credentials
  pub default_server : Option (KeyServiceServer W)

-- `ServerOption`
pub data ServerOption (W : Type 0) : Type 0 where
  with_gnupg_home with_vault_token : String → ServerOption W
  with_vault_k8s_auth : Option (String → Io W String) → ServerOption W
  with_age_identities : List String → ServerOption W
  with_aws_credentials_provider : Option (String → Credentials) → ServerOption W
  with_gcp_token_source with_azure_token_credential : Credentials → ServerOption W
  with_default_server : KeyServiceServer W → ServerOption W

-- The call of a function that may be nil
abbrev provider_at : Option (String → Credentials) → String → Option Credentials
provider_at none region = none
provider_at (some f) region = some (f region)

module _ {W : Type 0} (region_of : String → String) where
  -- The methods `ApplyToServer`; `region_of` is `GetRegionFromKMSARN`.
  unfoldable pub apply_to_server : ServerOption W → Server W → Server W
  apply_to_server (with_gnupg_home home) s = record s { gnupg_home = home }
  apply_to_server (with_vault_token token) s = record s { vault_token = token }
  apply_to_server (with_vault_k8s_auth f) s = record s { vault_k8s_auth = f }
  apply_to_server (with_age_identities ids) s = record s { age_identities = ids }
  apply_to_server (with_aws_credentials_provider provider) s = record s {
    aws_credentials_provider = some (λ arn. provider_at provider (region_of arn));
  }
  apply_to_server (with_gcp_token_source source) s = record s { gcp_token_source = source }
  apply_to_server (with_azure_token_credential credential) s = record s {
    azure_token_credential = some credential;
  }
  apply_to_server (with_default_server server) s = record s { default_server = some server }

  -- `&Server{}`
  abbrev pub zero_server : Server W
  zero_server = record {
    gnupg_home = "";
    age_identities = [];
    vault_token = "";
    vault_k8s_auth = none;
    azure_token_credential = none;
    aws_credentials_provider = none;
    gcp_token_source = nil_credentials;
    default_server = none;
  }

  -- The loop over the options
  unfoldable pub apply_server_options : List (ServerOption W) → Server W → Server W
  unfolding apply_to_server
  apply_server_options [] s = s
  apply_server_options (o ∷ os) s = apply_server_options os (apply_to_server o s)

  abbrev default_to : KeyServiceServer W → Server W → Option (KeyServiceServer W) → Server W
  default_to standard s none = record s { default_server = some standard }
  default_to standard s (some d) = s

  -- `NewServer(options...)`, where `standard` is the server of SOPS
  unfoldable pub new_server : KeyServiceServer W → List (ServerOption W) → Server W
  unfolding apply_server_options
  new_server standard os =
      let s = apply_server_options os zero_server in default_to standard s s.default_server
