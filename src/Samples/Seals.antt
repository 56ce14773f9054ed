-- ===== src/Samples/Seals.antt =====
-- A package sops that encrypts one document, and the laws that hold for it.
use kustomize_controller.Base.{
  String, ◌<>◌, ◌==◌, ◌≡◌, refl, sym, ap, Bool, true, false, ◌&&◌, if◌then◌else◌, none, Option,
  some, List, [], ◌∷◌, ℕ, suc, arith, eq_iff,
}
use kustomize_controller.Base.Cutting.{cut_prefix, cut_prefix-append}
use kustomize_controller.Errors.{Result, ok, ok_inv, err, text_error}
use kustomize_controller.Decryption.Tree.{
  key, other_key, Value, text, branch, slice, scalar, Branch, empty, item,
}
use kustomize_controller.Decryption.Formats.{Format}
use kustomize_controller.Decryption.Sops.{
  Sops, SopsTree, Metadata, Called, returned, has_comment_regex,
}
use kustomize_controller.Decryption.Sops.RoundTrip.{IsLawful}

-- A document with one text at the key `a`.
abbrev pub document : String → List Branch
document t = item (key "a") (text t) empty ∷ []

abbrev is_document : String → List Branch → Bool
is_document t [] = false
is_document t (empty ∷ bs) = false
is_document t (item other_key v b ∷ bs) = false
is_document t (item (key k) (branch c) b ∷ bs) = false
is_document t (item (key k) (slice vs) b ∷ bs) = false
is_document t (item (key k) (scalar v) b ∷ bs) = false
is_document t (item (key k) (text v) (item k' v' b) ∷ bs) = false
is_document t (item (key k) (text v) empty ∷ (b ∷ bs)) = false
is_document t (item (key k) (text v) empty ∷ []) = k == "a" && v == t

is_document_sound : (t : String) (bs : List Branch) → is_document t bs ≡ true → bs ≡ document t
is_document_sound t [] h = ground arith
is_document_sound t (empty ∷ bs) h = ground arith
is_document_sound t (item other_key v b ∷ bs) h = ground arith
is_document_sound t (item (key k) (branch c) b ∷ bs) h = ground arith
is_document_sound t (item (key k) (slice vs) b ∷ bs) h = ground arith
is_document_sound t (item (key k) (scalar v) b ∷ bs) h = ground arith
is_document_sound t (item (key k) (text v) (item k' v' b) ∷ bs) h = ground arith
is_document_sound t (item (key k) (text v) empty ∷ (b ∷ bs)) h = ground arith
is_document_sound t (item (key k) (text v) empty ∷ []) h = ground (arith, eq_iff k "a", eq_iff v t)

abbrev pub sealed_metadata : Metadata
sealed_metadata = record {
  encrypted_comment_regex = "";
  unencrypted_comment_regex = "";
  message_authentication_code = "ENC[mac]";
  last_modified = "now";
}

abbrev is_sealed_metadata : Metadata → Bool
is_sealed_metadata m =
    m.encrypted_comment_regex == ""
    && (m.unencrypted_comment_regex == ""
        && (m.message_authentication_code == "ENC[mac]" && m.last_modified == "now"))

is_sealed_metadata_sound : (m : Metadata) → is_sealed_metadata m ≡ true → m ≡ sealed_metadata
is_sealed_metadata_sound m h = ground (
  arith,
  eq_iff m.encrypted_comment_regex "",
  eq_iff m.unencrypted_comment_regex "",
  eq_iff m.message_authentication_code "ENC[mac]",
  eq_iff m.last_modified "now",
)

abbrev sealed_tree : SopsTree
sealed_tree = record { branches = document "ENC[s3cret]"; metadata = sealed_metadata }

abbrev only_if : {A : Type 0} → Bool → A → Called A
only_if b a = returned (if b then ok a else err (text_error "unsupported"))

only_if_inv :
    {A : Type 0} (b : Bool) (x a : A) → only_if b x ≡ returned (ok a) → (b ≡ true) × (x ≡ a)
only_if_inv true x a h = (refl, cc h)
only_if_inv false x a h = cc

abbrev unsealed : Option String → Result Value
unsealed (some p) = ok (text p)
unsealed none = err (text_error "not sealed")

unfoldable pub seals : Sops ℕ
unfolding cut_prefix
seals = record {
  load_encrypted_file = λ f t. returned (ok sealed_tree);
  load_plain_file = λ f t. returned (ok (document "s3cret"));
  emit_plain_file = λ f bs. returned (ok "a: s3cret");
  emit_encrypted_file = λ f tree.
      only_if (is_document "ENC[s3cret]" tree.branches && is_sealed_metadata tree.metadata)
        "a: ENC[s3cret]";
  get_data_key = λ m n. (returned (ok "key"), suc n);
  generate_data_key = λ tree n. (returned (ok ("key", tree)), suc n);
  decrypt_tree =
      λ tree k. only_if (is_document "ENC[s3cret]" tree.branches) ("mac]", document "s3cret");
  encrypt_tree =
      λ tree k. only_if (is_document "s3cret" tree.branches) ("mac]", document "ENC[s3cret]");
  cipher_decrypt = λ v k aad. unsealed (cut_prefix v "ENC[");
  cipher_encrypt = λ v k aad. ok ("ENC[" <> v);
  user_error = λ e. none;
  now = λ n. ("now", suc n);
  show = λ v. "a value";
}

both : (a b : Bool) → (a && b) ≡ true → (a ≡ true) × (b ≡ true)
both a b h = ground arith

-- Documents are what the formats have all of.
abbrev pub Document : Format → List Branch → Type 0
Document f bs = (t : String) × (bs ≡ document t)

pub seals-IsLawful : IsLawful seals Document
unfolding seals
seals-IsLawful = record {
  load_encrypted_file-emit_encrypted_file = λ f tree bytes fits h.
      let (tests, _) =
        only_if_inv (is_document "ENC[s3cret]" tree.branches && is_sealed_metadata tree.metadata)
          "a: ENC[s3cret]" bytes h in
      let (b, m) =
        both (is_document "ENC[s3cret]" tree.branches) (is_sealed_metadata tree.metadata) tests in
      let branches = is_document_sound "ENC[s3cret]" tree.branches b in
      let metadata = is_sealed_metadata_sound tree.metadata m in
      λ i. returned (ok (record { branches = sym branches i; metadata = sym metadata i }));
  branches-generate_data_key = λ start tree k w h. cc h;
  has_comment_regex-generate_data_key = λ start tree k w h.
      let same : tree ≡ start = cc h in
      ap (λ (t : SopsTree). has_comment_regex seals t.metadata) same;
  get_data_key-generate_data_key = λ start tree k time mac w v h. cc h;
  encrypt_tree-Represents = λ f tree k mac bs fits h.
      let (_, e) =
        only_if_inv (is_document "s3cret" tree.branches) ("mac]", document "ENC[s3cret]") (mac, bs)
          h in
      let sealing : document "ENC[s3cret]" ≡ bs = cc e in ("ENC[s3cret]", sym sealing);
  decrypt_tree-encrypt_tree = λ tree k time mac sealed bs h.
      let (test, e) =
        only_if_inv (is_document "s3cret" tree.branches) ("mac]", document "ENC[s3cret]") (mac, bs)
          h in
      let branches = is_document_sound "s3cret" tree.branches test in
      let sealing : document "ENC[s3cret]" ≡ bs = cc e in rw (← sealing, branches) cc;
  cipher_decrypt-cipher_encrypt =
      λ value k aad sealed h. rw (ok_inv h) (rw (cut_prefix-append "ENC[" value) refl);
}
