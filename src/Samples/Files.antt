-- ===== src/Samples/Files.antt =====
-- A file system with one Kustomization directory, and a decryptor of its files.
use kustomize_controller.Base.{
  String, ◌<>◌, ◌==◌, true, false, if◌then◌else◌, Option, none, some, List, [], ◌∷◌, lookup, put,
}
use kustomize_controller.Base.Cutting.{cut_prefix, has_prefix}
use kustomize_controller.Errors.{Result, ok, err, plain, file_not_found, text_error}
use kustomize_controller.Api.Spec.{Decryption}
use kustomize_controller.Decryption.Formats.{yaml}
use kustomize_controller.Decryption.Files.{Files, FileInfo, KustomizationFile}
use kustomize_controller.Decryption.Sources.{FileDecryptor, max_encrypted_file_size}

-- The contents of the regular files
abbrev pub Contents : Type 0
Contents = List (String × String)

abbrev cleaned : Option String → Option String → String → String
cleaned (some t) _ s = "/" <> t
cleaned none (some t) s = t
cleaned none none s = s

unfoldable pub clean : String → String
unfolding cut_prefix
clean s = cleaned (cut_prefix s "//") (cut_prefix s ".//") s

-- Where the paths lead, below the root "/r"
abbrev pub place : String → String
place p =
    if p == "app"
    then "/r/app"
    else if p == "app/kustomization.yaml"
    then "/r/app/kustomization.yaml"
    else "/r/app/secret.yaml"

abbrev pub found : String → Option String → Result String
found path (some t) = ok t
found path none = err (plain file_not_found path)

abbrev regular : String → Option String → Result FileInfo
regular path (some t) = ok (record { is_dir = false; is_regular = true; size = 3 })
regular path none = err (plain file_not_found path)

abbrev pub lstat : String → Contents → Result FileInfo
lstat path w =
    if path == "/r/app"
    then ok (record { is_dir = true; is_regular = false; size = 0 })
    else regular path (lookup w path)

abbrev pub app : KustomizationFile
app = record {
  secret_generator = (record { file_sources = "token=secret.yaml" ∷ []; env_sources = [] }) ∷ [];
  patches = [];
  resources = "app" ∷ "gone.yaml" ∷ [];
  components = [];
}

abbrev pub files : Files Contents
files = record {
  clean = clean;
  join = λ a b. a <> ("/" <> b);
  is_abs = λ p. has_prefix p "/";
  secure_join = λ root p w. ok (place p);
  lstat = lstat;
  read_file = λ p w. found p (lookup w p);
  write_file = λ p t w. (ok tt, put w p t);
  recognized_names = "kustomization.yaml" ∷ [];
  unmarshal = λ t. if t == "app" then ok app else err (text_error "no YAML");
  parse_url = λ p. none;
}

abbrev pub file_decryptor : FileDecryptor Contents
file_decryptor = record {
  files = files;
  max_file_size = max_encrypted_file_size;
  format_for_extension = λ p. yaml;
  decimal = λ n. "many";
  sops_decrypt = λ t f g w. (ok "password: hunter2", w);
}

abbrev pub encrypted : Contents
encrypted =
    ("/r/app/kustomization.yaml", "app")
    ∷ ("/r/app/secret.yaml", "mac: ENC[x]")
    ∷ ("/etc/passwd", "x")
    ∷ []

abbrev pub sops_decryption : Decryption
sops_decryption = record { provider = "sops"; service_account_name = ""; secret_ref = none }
