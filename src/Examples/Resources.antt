-- ===== src/Examples/Resources.antt =====
-- The theorem on the data of Secrets at a concrete Secret, and a run of the code.
use kustomize_controller.Base.{
  ℕ, suc, String, ◌==◌, if◌then◌else◌, true, false, none, some, List, [], ◌∷◌, ◌≡◌, ◌↔◌, refl,
}
use kustomize_controller.Base.Text.{equal_fold}
use kustomize_controller.Errors.{ok}
use kustomize_controller.Io.{Io}
use kustomize_controller.Decryption.Secrets.{is_decryption_disabled}
use kustomize_controller.Decryption.Formats.{Format, yaml, json, detect_format}
use kustomize_controller.Decryption.Resources.{Resources, is_sops_encrypted, decrypt_resource}
use kustomize_controller.Decryption.Resources.Fields.{OpensFields, decrypt_resource_iff}
use kustomize_controller.Samples.Files.{sops_decryption}

abbrev Data : Type 0
Data = List (String × String)

-- Secrets are their data; every text but "!" is base64, of itself.
abbrev secrets : Resources Data
secrets = record {
  get_annotations = λ r. [];
  get_namespace = λ r. "apps";
  get_name = λ r. "app";
  get_kind = λ r. "Secret";
  lacks_sops = λ r. true;
  lacks_mac = λ r. true;
  marshal_json = λ r. ok "{}";
  unmarshal_json = λ r t. ok r;
  get_data_map = λ r. r;
  set_data_map = λ r m. m;
  decode = λ t. if t == "!" then none else some t;
  encode = λ t. t;
}

abbrev format_of : String → Format
format_of key = if key == "a.yaml" then yaml else json

abbrev orders : String → List Format
orders key = json ∷ (yaml ∷ [])

-- SOPS, which counts what it decrypts
abbrev opening : String → Format → Format → Io ℕ String
opening bytes f g n = (ok "s3cret", suc n)

abbrev sealed : Data
sealed = ("a.yaml", "mac: ENC[x]") ∷ (("b", "plain") ∷ (("c", "!") ∷ []))

abbrev opened : Data
opened = ("a.yaml", "s3cret") ∷ (("b", "plain") ∷ (("c", "!") ∷ []))

enabled : is_decryption_disabled [] ≡ false
unfolding is_decryption_disabled equal_fold
enabled = refl

not_whole : is_sops_encrypted secrets format_of orders opening sealed ≡ false
unfolding is_sops_encrypted
not_whole = refl

decrypt_resource_iff_example :
    (decrypt_resource secrets format_of orders opening (some sops_decryption) sealed 0
      ≡ (ok (some opened), 1))
    ↔ ((m : Data) × OpensFields secrets format_of orders opening 0 sealed m 1 × (opened ≡ m))
decrypt_resource_iff_example =
    decrypt_resource_iff secrets format_of orders opening sops_decryption sealed opened 0 1 refl
      enabled not_whole refl

decrypts :
    decrypt_resource secrets format_of orders opening (some sops_decryption) sealed 0
    ≡ (ok (some opened), 1)
unfolding decrypt_resource detect_format equal_fold
decrypts = refl
