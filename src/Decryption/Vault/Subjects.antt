-- ===== src/Decryption/Vault/Subjects.antt =====
-- `serviceAccountFromToken` of internal/decryptor/transit_engine.go and the subjects of tokens.
use kustomize_controller.Base.{
  String, ◌<>◌, ◌==◌, ◌≡◌, refl, ap, ◌∙◌, ◌↔◌, false, none, some, arith, Bool-cases, Option-cases,
  inl, inr,
}
use kustomize_controller.Base.Cutting.{
  cut, cut_prefix, cut_prefix-append, cut_prefix_sound, cut_sound, cut-append, cut_first,
}
use kustomize_controller.Errors.{ok}
use kustomize_controller.Decryption.Vault.{account_of_subject, account_parts}

-- `namespace` has no colon, and neither text is empty.
abbrev pub IsAccount : String → String → Type 0
IsAccount ns name = (cut ns ":" ≡ none) × ((ns == "") ≡ false) × ((name == "") ≡ false)

account_parts_inv :
    (sub a b ns name : String)
    → account_parts sub (some (a, b)) ≡ ok (ns, name)
    → (ns ≡ a) × (name ≡ b) × ((a == "") ≡ false) × ((b == "") ≡ false)
account_parts_inv sub a b ns name h = elim (Bool-cases (a == "")) [
  | inl e ↦ ground (arith, e, h)
  | inr n ↦ elim (Bool-cases (b == "")) [
    | inl e ↦ ground (arith, n, e, h)
    | inr m ↦ (ground (arith, n, m, h), ground (arith, n, m, h), n, m)
  ]
]

parts_sound :
    (sub rest ns name : String)
    → account_parts sub (cut rest ":") ≡ ok (ns, name)
    → IsAccount ns name × (rest ≡ ns <> (":" <> name))
parts_sound sub rest ns name h = elim (Option-cases (cut rest ":")) [
  | inl nowhere ↦ ground (arith, nowhere, h)
  | inr ((a, b), found) ↦
      let (e, f, n, m) = account_parts_inv sub a b ns name (ground (arith, found, h)) in
      rw (e, f) ((cut_first ":" rest a b found, n, m), cut_sound rest ":" a b found)
]

sound :
    (sub ns name : String)
    → account_of_subject sub ≡ ok (ns, name)
    → IsAccount ns name × (sub ≡ "system:serviceaccount:" <> (ns <> (":" <> name)))
unfolding account_of_subject
sound sub ns name h = elim (Option-cases (cut_prefix sub "system:serviceaccount:")) [
  | inl missing ↦ ground (arith, missing, h)
  | inr (rest, found) ↦
      let (account, e) = parts_sound sub rest ns name (ground (arith, found, h)) in
      (
        account,
        cut_prefix_sound sub "system:serviceaccount:" rest found
            ∙ ap (λ t. "system:serviceaccount:" <> t) e,
      )
]

complete :
    (sub ns name : String)
    → IsAccount ns name × (sub ≡ "system:serviceaccount:" <> (ns <> (":" <> name)))
    → account_of_subject sub ≡ ok (ns, name)
unfolding account_of_subject
complete sub ns name ((c, n, m), e) = rw e (
    rw (cut_prefix-append "system:serviceaccount:" (ns <> (":" <> name)))
      (rw (cut-append ":" ns name c, n, m) refl))

-- A subject yields a namespace and a name exactly if it is "system:serviceaccount:", the namespace,
-- a colon and the name, where neither is empty and the namespace has no colon.
pub account_of_subject_iff :
    (sub ns name : String)
    → (account_of_subject sub ≡ ok (ns, name))
      ↔ (IsAccount ns name × (sub ≡ "system:serviceaccount:" <> (ns <> (":" <> name))))
account_of_subject_iff sub ns name = (sound sub ns name, complete sub ns name)
