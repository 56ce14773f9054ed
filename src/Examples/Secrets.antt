-- ===== src/Examples/Secrets.antt =====
-- The theorems on credentials, keys and decrypted values at concrete values, and runs of the code.
use kustomize_controller.Base.{
  String, ◌<>◌, ◌≡◌, ◌↔◌, refl, ◌+◌, true, false, ◌&&◌, Option, none, some, [], ◌∷◌, ℕ, inl,
}
use kustomize_controller.Base.Cutting.{has_prefix}
use kustomize_controller.Errors.{Error, Result, ok, err, plain, other, text_error, message}
use kustomize_controller.KeyServices.{age_key, Credentials}
use kustomize_controller.KeyServices.Serving.{encrypt, decrypt, aws_credentials}
use kustomize_controller.Decryption.Formats.{yaml, json, binary, detect_format}
use kustomize_controller.Decryption.Redaction.{safe_decrypt, redact, redact_hides}
use kustomize_controller.Decryption.Tree.{decrypt_enveloped_values, join_with}
use kustomize_controller.Decryption.Tree.Opening.{OpensBranch, decrypt_enveloped_values_iff}
use kustomize_controller.Decryption.Sops.{
  Metadata, returned, is_json, has_comment_regex, sops_decrypt_with_format,
}
use kustomize_controller.Decryption.Sops.Encrypting.{sops_encrypt_with_format}
use kustomize_controller.Decryption.Sops.RoundTrip.{sops_decrypt-sops_encrypt}
use kustomize_controller.Samples.Seals.{Document, seals, seals-IsLawful, sealed_metadata, document}
use kustomize_controller.Decryption.Sops.Integrity.{Verified, sops_decrypt_verifies}
use kustomize_controller.Decryption.Vault.{
  cache_vault_tokens, account_of_subject, config_map_fetch, Tokens, Paths,
}
use kustomize_controller.Decryption.Vault.Caching.{serve, cache_vault_tokens_fetches_once}
use kustomize_controller.Decryption.Vault.Subjects.{IsAccount, account_of_subject_iff}
use kustomize_controller.Decryption.Credentials.{Decryptor, load_key_service_server}
use kustomize_controller.Decryption.Importing.{import_keys}
use kustomize_controller.Decryption.Importing.Isolation.{Isolated, import_keys_isolates}
use kustomize_controller.Decryption.Authentication.{
  set_auth_options, complete_credentials, ServiceAccount, DecryptionSpec,
}
use kustomize_controller.Decryption.Authentication.Completeness.{
  CompletesAll, set_auth_options_completes, load_key_service_server_has_credentials,
}
use kustomize_controller.Samples.Files.{sops_decryption}
use kustomize_controller.Samples.Keys.{
  masters, key_server, vaults, vault_map, name_of, packages, auth_packages, decryptor,
  sealed_branch, open_branch, cipher, sops, masters_of, default_of,
}

abbrev conversion : String → Error
conversion value = plain other ("strconv.Atoi: parsing \"" <> value)

redact_hides_example : redact (conversion "hunter2") ≡ redact (conversion "letmein")
unfolding message
redact_hides_example =
    redact_hides (conversion "hunter2") (conversion "letmein") "strconv." ""
      "Atoi: parsing \"hunter2" "Atoi: parsing \"letmein" refl refl (inl refl)

-- What stands between the two markers is returned.
time_value :
    redact (plain other "parsing time \"hunter2 strconv.x\" as \"2006\"")
    ≡ text_error
        "parsing time \"hunter2 failed to convert the decrypted value to its data type: <redacted>"
unfolding redact
time_value = refl

-- The order in which Go iterates over the markers decides between two formats.
detects : detect_format (binary ∷ json ∷ []) "{\"mac\": \"ENC[x" ≡ some binary
unfolding detect_format
detects = refl

detects_other : detect_format (json ∷ binary ∷ []) "{\"mac\": \"ENC[x" ≡ some json
unfolding detect_format
detects_other = refl

decrypt_enveloped_values_iff_example :
    (decrypt_enveloped_values cipher sealed_branch [] ≡ ok open_branch)
    ↔ OpensBranch cipher [] sealed_branch open_branch
decrypt_enveloped_values_iff_example =
    decrypt_enveloped_values_iff cipher sealed_branch open_branch []

opens_branch : decrypt_enveloped_values cipher sealed_branch [] ≡ ok open_branch
unfolding decrypt_enveloped_values has_prefix safe_decrypt join_with
opens_branch = refl

verified : sops_decrypt_with_format sops true "bytes" yaml yaml 0 ≡ (ok "a: s3cret", 1)
unfolding sops_decrypt_with_format
verified = refl

sops_decrypt_verifies_example : Verified sops "bytes" yaml yaml 0 "a: s3cret"
sops_decrypt_verifies_example =
    sops_decrypt_verifies sops "bytes" "a: s3cret" yaml yaml 0 1 verified

abbrev plain_metadata : Metadata
plain_metadata = record sealed_metadata { message_authentication_code = ""; last_modified = "" }

encrypted :
    sops_encrypt_with_format seals plain_metadata "a: s3cret" yaml yaml 0
    ≡ (returned (ok "a: ENC[s3cret]"), 2)
unfolding sops_encrypt_with_format seals
encrypted = refl

no_json : (is_json seals yaml && has_comment_regex seals plain_metadata) ≡ false
no_json = refl

read_plain : seals.load_plain_file yaml "a: s3cret" ≡ returned (ok (document "s3cret"))
unfolding seals
read_plain = refl

write_plain : seals.emit_plain_file yaml (document "s3cret") ≡ returned (ok "a: s3cret")
unfolding seals
write_plain = refl

sops_decrypt-sops_encrypt_example :
    (sops_decrypt_with_format seals true "a: ENC[s3cret]" yaml yaml 7).0 ≡ ok "a: s3cret"
sops_decrypt-sops_encrypt_example =
    sops_decrypt-sops_encrypt seals Document seals-IsLawful plain_metadata "a: s3cret"
      "a: ENC[s3cret]" "a: s3cret" yaml yaml yaml 0 2 7 (document "s3cret") ("s3cret", refl) no_json
      read_plain write_plain encrypted

age_encrypts : encrypt masters key_server (age_key "age1x") "data key" 0 ≡ (ok "sealed:data key", 1)
unfolding encrypt masters
age_encrypts = refl

age_decrypts : (decrypt masters key_server (age_key "age1x") "sealed:data key" 1).0 ≡ ok "data key"
unfolding decrypt masters key_server
age_decrypts = refl

abbrev fetch : String → ℕ → Result String × ℕ
fetch address n = (ok ("token for " <> address), n + 1)

cache_vault_tokens_fetches_once_example :
    cache_vault_tokens fetch "https://vault"
      (serve fetch ("https://b" ∷ []) (cache_vault_tokens fetch "https://vault" ([], 0)).1).1
    ≡ (
      ok "token for https://vault",
      (serve fetch ("https://b" ∷ []) (cache_vault_tokens fetch "https://vault" ([], 0)).1).1,
    )
unfolding cache_vault_tokens
cache_vault_tokens_fetches_once_example =
    cache_vault_tokens_fetches_once fetch "https://vault" ("https://b" ∷ []) ([], 0)
      "token for https://vault" refl

refuses : config_map_fetch vaults false none vault_map name_of "https://evil" (none, 0) ≡ (
  err (
      text_error (
        "no Vault login path configured for address 'https://evil' in ConfigMap '"
        <> name_of vault_map
        <> "'")),
  (some (("https://vault", "auth/jwt/login") ∷ []), 1),
)
unfolding config_map_fetch
refuses = refl

account_of_subject_iff_example :
    (account_of_subject "system:serviceaccount:flux:kc" ≡ ok ("flux", "kc")) ↔ (
      IsAccount "flux" "kc"
      × ("system:serviceaccount:flux:kc" ≡ "system:serviceaccount:" <> ("flux" <> (":" <> "kc"))))
account_of_subject_iff_example = account_of_subject_iff "system:serviceaccount:flux:kc" "flux" "kc"

import_keys_isolates_example :
    Isolated packages
      (decryptor, 0)
      (import_keys packages "apps" (some sops_decryption) (decryptor, 0)).1
import_keys_isolates_example = import_keys_isolates packages "apps" sops_decryption decryptor 0 refl

-- The identity is imported, and the token of Vault is not.
imports :
    import_keys packages "apps" (some sops_decryption) (decryptor, 0)
    ≡ (ok tt, (record decryptor { age_identities = "AGE-SECRET-KEY" ∷ [] }, 1))
unfolding import_keys
imports = refl

abbrev account : Option ServiceAccount
account = some (record { name = "kc"; annotations = [] })

abbrev base_spec : DecryptionSpec
base_spec = record { auth = none; text = "spec" }

sets :
    set_auth_options auth_packages "apps" (some sops_decryption) decryptor 0
    ≡ (ok (complete_credentials auth_packages account base_spec decryptor), 1)
unfolding set_auth_options
sets = refl

set_auth_options_completes_example :
    CompletesAll decryptor (complete_credentials auth_packages account base_spec decryptor)
set_auth_options_completes_example =
    set_auth_options_completes auth_packages "apps" sops_decryption decryptor
      (complete_credentials auth_packages account base_spec decryptor) 0 1 refl sets

abbrev completed : Decryptor
completed = complete_credentials auth_packages account base_spec decryptor

load_key_service_server_has_credentials_example :
    ((c : Credentials) × (aws_credentials
          (masters_of (Tokens × Paths ℕ))
          (load_key_service_server vaults name_of completed none (default_of (Tokens × Paths ℕ)))
          "arn:aws:kms:eu-west-1:1:key/1"
        ≡ ok c))
    × ((c : Credentials) × (completed.azure_token_credential ≡ some c)
        × ((load_key_service_server vaults name_of completed none
              (default_of (Tokens × Paths ℕ))).azure_token_credential
            ≡ some c))
    × ((c : Credentials) × (completed.gcp_token_source ≡ some c)
        × ((load_key_service_server vaults name_of completed none
              (default_of (Tokens × Paths ℕ))).gcp_token_source
            ≡ c))
load_key_service_server_has_credentials_example =
    load_key_service_server_has_credentials auth_packages vaults name_of none
      (default_of (Tokens × Paths ℕ)) (masters_of (Tokens × Paths ℕ))
      "arn:aws:kms:eu-west-1:1:key/1" "apps" sops_decryption decryptor completed 0 1 refl sets
