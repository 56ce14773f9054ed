-- ===== src/KeyServices/Serving.antt =====
-- The requests of internal/sops/keyservice/server.go. Where Go panics on a nil pointer or function,
-- the result here is an error with that text.
use kustomize_controller.Base.{
  String, ◌==◌, Bool, if◌then◌else◌, not, ◌||◌, Option, none, some, true, is_some, [],
}
use kustomize_controller.Errors.{Error, text_error, Result, ok, err}
use kustomize_controller.Io.{Io, pure, raise, lift, ◌>>=◌}
use kustomize_controller.KeyServices.{
  Key, pgp_key, age_key, gcp_kms_key, vault_key, kms_key, azure_keyvault_key, other_key, no_key,
  VaultKey, KmsKey, AzureKeyVaultKey, MasterKey, pgp, age, hc_vault, aws_kms, azure_kv, gcp_kms,
  Credentials, MasterKeys, KeyServiceServer, Server,
}

abbrev pub nil_dereference : Error
nil_dereference = text_error "runtime error: invalid memory address or nil pointer dereference"

-- A credential that Go takes through a pointer or a function that may be nil
abbrev pub not_nil : {A : Type 0} → Option A → Result A
not_nil none = err nil_dereference
not_nil (some a) = ok a

module _ {W : Type 0} (P : MasterKeys W) (ks : Server W) where
  abbrev pub pgp_master_key : String → MasterKey
  pgp_master_key fingerprint =
      pgp fingerprint true (if ks.gnupg_home == "" then none else some ks.gnupg_home)

  -- `encryptWithPgp` and `decryptWithPgp`
  unfoldable pub encrypt_with_pgp : String → String → Io W String
  encrypt_with_pgp fingerprint plaintext = P.encrypt (pgp_master_key fingerprint) plaintext

  unfoldable pub decrypt_with_pgp : String → String → Io W String
  decrypt_with_pgp fingerprint ciphertext = P.decrypt (pgp_master_key fingerprint) ciphertext

  -- `encryptWithAge`, which needs no identities, and `decryptWithAge`
  unfoldable pub encrypt_with_age : String → String → Io W String
  encrypt_with_age recipient plaintext = P.encrypt (age recipient []) plaintext

  unfoldable pub decrypt_with_age : String → String → Io W String
  decrypt_with_age recipient ciphertext = P.decrypt (age recipient ks.age_identities) ciphertext

  abbrev pub login : Option (String → Io W String) → String → Io W String
  login none address = raise nil_dereference
  login (some auth) address = auth address

  -- `resolveVaultToken(ctx, vaultAddress)`
  unfoldable pub resolve_vault_token : String → Io W String
  resolve_vault_token address =
      if not (ks.vault_token == "") then pure ks.vault_token else login ks.vault_k8s_auth address

  -- `encryptWithHCVault` and `decryptWithHCVault`
  unfoldable pub encrypt_with_hc_vault : VaultKey → String → Io W String
  unfolding resolve_vault_token
  encrypt_with_hc_vault key plaintext =
      resolve_vault_token key.vault_address >>= λ token. P.encrypt (hc_vault key token) plaintext

  unfoldable pub decrypt_with_hc_vault : VaultKey → String → Io W String
  unfolding resolve_vault_token
  decrypt_with_hc_vault key ciphertext =
      resolve_vault_token key.vault_address >>= λ token. P.decrypt (hc_vault key token) ciphertext

  abbrev aws_credentials_at : Option (String → Option Credentials) → String → Result Credentials
  aws_credentials_at none arn = err nil_dereference
  aws_credentials_at (some provider) arn = not_nil (provider arn)

  -- `ks.awsCredentialsProvider(key.Arn)`
  abbrev pub aws_credentials : String → Result Credentials
  aws_credentials arn = aws_credentials_at ks.aws_credentials_provider arn

  -- `encryptWithAWSKMS` and `decryptWithAWSKMS`; `kmsKeyToMasterKey` keeps the fields of the key
  unfoldable pub encrypt_with_aws_kms : KmsKey → String → Io W String
  encrypt_with_aws_kms key plaintext =
      lift (aws_credentials key.arn) >>= λ c. P.encrypt (aws_kms key c) plaintext

  unfoldable pub decrypt_with_aws_kms : KmsKey → String → Io W String
  decrypt_with_aws_kms key ciphertext =
      lift (aws_credentials key.arn) >>= λ c. P.decrypt (aws_kms key c) ciphertext

  -- `encryptWithAzureKeyVault` and `decryptWithAzureKeyVault`
  unfoldable pub encrypt_with_azure_key_vault : AzureKeyVaultKey → String → Io W String
  encrypt_with_azure_key_vault key plaintext =
      lift (not_nil ks.azure_token_credential) >>= λ c. P.encrypt (azure_kv key c) plaintext

  unfoldable pub decrypt_with_azure_key_vault : AzureKeyVaultKey → String → Io W String
  decrypt_with_azure_key_vault key ciphertext =
      lift (not_nil ks.azure_token_credential) >>= λ c. P.decrypt (azure_kv key c) ciphertext

  -- `encryptWithGCPKMS` and `decryptWithGCPKMS`
  unfoldable pub encrypt_with_gcp_kms : String → String → Io W String
  encrypt_with_gcp_kms resource_id plaintext =
      P.encrypt (gcp_kms resource_id ks.gcp_token_source) plaintext

  unfoldable pub decrypt_with_gcp_kms : String → String → Io W String
  decrypt_with_gcp_kms resource_id ciphertext =
      P.decrypt (gcp_kms resource_id ks.gcp_token_source) ciphertext

  -- `ks.vaultToken != "" || ks.vaultK8sAuth != nil`
  abbrev pub serves_vault : Bool
  serves_vault = not (ks.vault_token == "") || is_some ks.vault_k8s_auth

  abbrev default_encrypt : Option (KeyServiceServer W) → Key → String → Io W String
  default_encrypt none key plaintext = raise nil_dereference
  default_encrypt (some server) key plaintext = server.encrypt key plaintext

  abbrev default_decrypt : Option (KeyServiceServer W) → Key → String → Io W String
  default_decrypt none key ciphertext = raise nil_dereference
  default_decrypt (some server) key ciphertext = server.decrypt key ciphertext

  -- `(Server).Encrypt`
  unfoldable pub encrypt : Key → String → Io W String
  unfolding encrypt_with_pgp encrypt_with_age encrypt_with_hc_vault encrypt_with_aws_kms
      encrypt_with_azure_key_vault encrypt_with_gcp_kms
  encrypt (pgp_key fingerprint) plaintext = encrypt_with_pgp fingerprint plaintext
  encrypt (age_key recipient) plaintext = encrypt_with_age recipient plaintext
  encrypt (vault_key key) plaintext =
      if serves_vault
      then encrypt_with_hc_vault key plaintext
      else default_encrypt ks.default_server (vault_key key) plaintext
  encrypt (kms_key key) plaintext = encrypt_with_aws_kms key plaintext
  encrypt (azure_keyvault_key key) plaintext = encrypt_with_azure_key_vault key plaintext
  encrypt (gcp_kms_key resource_id) plaintext = encrypt_with_gcp_kms resource_id plaintext
  encrypt (other_key k) plaintext = default_encrypt ks.default_server (other_key k) plaintext
  encrypt no_key plaintext = raise (text_error "must provide a key")

  -- `(Server).Decrypt`
  unfoldable pub decrypt : Key → String → Io W String
  unfolding decrypt_with_pgp decrypt_with_age decrypt_with_hc_vault decrypt_with_aws_kms
      decrypt_with_azure_key_vault decrypt_with_gcp_kms
  decrypt (pgp_key fingerprint) ciphertext = decrypt_with_pgp fingerprint ciphertext
  decrypt (age_key recipient) ciphertext = decrypt_with_age recipient ciphertext
  decrypt (vault_key key) ciphertext =
      if serves_vault
      then decrypt_with_hc_vault key ciphertext
      else default_decrypt ks.default_server (vault_key key) ciphertext
  decrypt (kms_key key) ciphertext = decrypt_with_aws_kms key ciphertext
  decrypt (azure_keyvault_key key) ciphertext = decrypt_with_azure_key_vault key ciphertext
  decrypt (gcp_kms_key resource_id) ciphertext = decrypt_with_gcp_kms resource_id ciphertext
  decrypt (other_key k) ciphertext = default_decrypt ks.default_server (other_key k) ciphertext
  decrypt no_key ciphertext = raise (text_error "must provide a key")
