-- ===== src/Samples/Keys.antt =====
-- Master keys, Vault servers, Secrets and SOPS trees at concrete values.
use kustomize_controller.Base.{
  String, ◌<>◌, ◌==◌, if◌then◌else◌, Option, none, some, [], ◌∷◌, ◌++◌, ℕ, suc,
}
use kustomize_controller.Base.Cutting.{cut_prefix}
use kustomize_controller.Errors.{Result, ok, err, text_error}
use kustomize_controller.Api.References.{NamespacedName}
use kustomize_controller.KeyServices.{
  MasterKeys, KeyServiceServer, Server, with_vault_token, with_age_identities, new_server,
}
use kustomize_controller.Decryption.Tree.{key, Value, text, Branch, empty, item}
use kustomize_controller.Decryption.Sops.{Sops, returned}
use kustomize_controller.Decryption.Vault.{Vaults, jwt}
use kustomize_controller.Decryption.Credentials.{Decryptor, decryptor_in}
use kustomize_controller.Decryption.Importing.{KeyPackages}
use kustomize_controller.Decryption.Authentication.{AuthPackages}

abbrev opened : Option String → Result String
opened (some p) = ok p
opened none = err (text_error "not sealed")

-- Every master key seals a text by a prefix; the state counts the calls.
unfoldable pub masters : MasterKeys ℕ
unfolding cut_prefix
masters = record {
  encrypt = λ m p n. (ok ("sealed:" <> p), suc n);
  decrypt = λ m c n. (opened (cut_prefix c "sealed:"), suc n);
}

abbrev pub masters_of : (W : Type 0) → MasterKeys W
masters_of W = record { encrypt = λ m p w. (ok p, w); decrypt = λ m c w. (ok c, w) }

abbrev pub default_of : (W : Type 0) → KeyServiceServer W
default_of W = record {
  encrypt = λ k p w. (err (text_error "no server"), w);
  decrypt = λ k c w. (err (text_error "no server"), w);
}

unfoldable pub key_server : Server ℕ
unfolding new_server
key_server =
    new_server (λ arn. "eu-west-1") (default_of ℕ)
      (with_vault_token "t" ∷ with_age_identities ("AGE-SECRET-KEY" ∷ []) ∷ [])

-- A login that succeeds everywhere, and a ConfigMap that lists one address; the state counts calls.
abbrev pub vaults : Vaults ℕ
vaults = record {
  get_config_map = λ name n. (ok (("config.yaml", "one") ∷ []), suc n);
  unmarshal_config =
      λ t. ok (record { address = "https://vault"; login_path = "auth/jwt/login" } ∷ []);
  new_access_credential = λ audiences cached n. (ok (jwt "h.p.s"), suc n);
  decode = λ t. ok t;
  subject_of = λ t. ok "system:serviceaccount:flux:kc";
  new_client = λ address. ok tt;
  login = λ address path role token n. (ok (some ("token for " <> role)), suc n);
}

abbrev pub vault_map : NamespacedName
vault_map = record { namespace = "flux-system"; name = "vault" }

abbrev pub name_of : NamespacedName → String
name_of n = n.name

abbrev pub packages : KeyPackages ℕ
packages = record {
  get_secret =
      λ name n. (ok (("a.agekey", "AGE-SECRET-KEY") ∷ ("sops.vault-token", "t") ∷ []), suc n);
  ext = λ name. if name == "a.agekey" then ".agekey" else ".vault-token";
  trim_space = λ t. t;
  trim_newlines = λ t. t;
  import_pgp = λ home t n. (ok tt, suc n);
  import_age = λ ids t. ok (ids ++ t ∷ []);
  aws_credentials = λ t. ok t;
  load_aad_config = λ t. err (text_error "no Azure");
  new_azure_credential = λ c. ok "azure";
  gcp_token_source = λ t. ok t;
  show = name_of;
}

abbrev pub auth_packages : AuthPackages ℕ
auth_packages = record {
  get_service_account = λ name n. (ok (record { name = "kc"; annotations = [] }), suc n);
  build_spec = λ options. ok (record { auth = none; text = "spec" });
  show = name_of;
}

abbrev pub decryptor : Decryptor
decryptor = record (decryptor_in "/gnupg") {
  sops_age_secret = some (record { namespace = "flux-system"; name = "age" });
  default_service_account = "kc";
}

-- One value in an envelope beside a plain one
abbrev pub sealed_branch : Branch
sealed_branch = item (key "a") (text "ENC[AES256_GCM,x]") (item (key "b") (text "plain") empty)

abbrev pub open_branch : Branch
open_branch = item (key "a") (text "s3cret") (item (key "b") (text "plain") empty)

abbrev pub cipher : String → String → Result Value
cipher v aad = if aad == "a:" then ok (text "s3cret") else err (text_error "tampered")

abbrev pub sops : Sops ℕ
sops = record {
  load_encrypted_file = λ f t. returned (
      ok (record {
        branches = sealed_branch ∷ [];
        metadata = record {
          encrypted_comment_regex = "";
          unencrypted_comment_regex = "";
          message_authentication_code = "ENC[mac]";
          last_modified = "a:";
        };
      }));
  load_plain_file = λ f t. returned (ok (open_branch ∷ []));
  emit_plain_file = λ f bs. returned (ok "a: s3cret");
  emit_encrypted_file = λ f tree. returned (ok "a: ENC");
  get_data_key = λ m n. (returned (ok "key"), suc n);
  generate_data_key = λ tree n. (returned (ok ("key", tree)), suc n);
  decrypt_tree = λ tree k. returned (ok ("s3cret", open_branch ∷ []));
  encrypt_tree = λ tree k. returned (ok ("mac", sealed_branch ∷ []));
  cipher_decrypt = λ v k aad. cipher v aad;
  cipher_encrypt = λ v k aad. ok "ENC";
  user_error = λ e. none;
  now = λ n. ("2026-01-01T00:00:00Z", suc n);
  show = λ v. "a value";
}
