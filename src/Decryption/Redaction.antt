-- ===== src/Decryption/Redaction.antt =====
-- `safeDecrypt` of internal/decryptor/decryptor.go: the errors of SOPS without the decrypted values.
use kustomize_controller.Base.{
  String, ◌<>◌, ◌≡◌, sym, ap, ◌∙◌, ◌⊎◌, inl, inr, Option, none, some, true, is_some, arith,
}
use kustomize_controller.Base.Cutting.{before, before-append, before-append_some}
use kustomize_controller.Errors.{Error, Result, ok, err, message, text_error}

abbrev converted : String → Error
converted front =
    text_error (front <> "failed to convert the decrypted value to its data type: <redacted>")

-- The last two tests, on the positions of "Input string " and " does not match sops' data format".
abbrev mismatched : Error → Option String → Option String → Error
mismatched e (some front) (some _) =
    text_error (front <> ("Input string " <> ("<redacted>" <> " does not match sops' data format")))
mismatched e _ _ = e

abbrev redacted : Error → Option String → Option String → Error → Error
redacted e (some front) _ other = converted front
redacted e none (some front) other = converted front
redacted e none none other = other

-- The error in place of one of SOPS
unfoldable pub redact : Error → Error
unfolding before message
redact e = redacted e (before (message e) "strconv.") (before (message e) "parsing time ") (
    mismatched e (before (message e) "Input string ")
      (before (message e) " does not match sops' data format"))

-- `safeDecrypt(mac, err)`
unfoldable pub safe_decrypt {ℓ} : {T : Type ℓ} → Result T → Result T
unfolding redact
safe_decrypt (ok mac) = ok mac
safe_decrypt (err e) = err (redact e)

abbrev Lacks : Error → String → Type 0
Lacks e m = before (message e) m ≡ none

-- The marker decides what `redact` returns for the two errors.
abbrev pub Decides : Error → Error → String → Type 0
Decides d e m =
    (m ≡ "strconv.")
    ⊎ ((m ≡ "parsing time ") × Lacks d "strconv." × Lacks e "strconv.")
    ⊎ ((m ≡ "Input string ")
        × (Lacks d "strconv." × Lacks e "strconv.")
        × (Lacks d "parsing time " × Lacks e "parsing time ")
        × (is_some (before (message d) " does not match sops' data format") ≡ true)
        × (is_some (before (message e) " does not match sops' data format") ≡ true))

module _ (d e : Error) (m a b c : String) (hd : message d ≡ a <> (m <> b))
    (he : message e ≡ a <> (m <> c)) where
  same_front : before (message d) m ≡ before (message e) m
  same_front = ap (λ t. before t m) hd ∙ before-append a m b c ∙ ap (λ t. before t m) (sym he)

  found : is_some (before (message d) m) ≡ true
  found = ap (λ t. is_some (before t m)) hd ∙ before-append_some a m b

  at : (x : Error) {t : String} → m ≡ t → before (message x) m ≡ before (message x) t
  at x s = ap (λ t. before (message x) t) s

  -- The error returned in place of one that carries a decrypted value does not depend on what follows
  -- the marker: "strconv."; where no "strconv." occurs "parsing time "; and where neither occurs
  -- "Input string ", if the text of a format mismatch does.
  pub redact_hides : Decides d e m → redact d ≡ redact e
  unfolding redact
  redact_hides (inl s) = ground (arith, same_front, found, at d s, at e s)
  redact_hides (inr (inl (s, nd, ne))) = ground (arith, same_front, found, at d s, at e s)
  redact_hides (inr (inr (s, (nd, ne), (pd, pe), fd, fe))) =
      ground (arith, same_front, found, at d s, at e s)
