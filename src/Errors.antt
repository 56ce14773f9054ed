-- ===== src/Errors.antt =====
-- Go's error values: what the controller can tell of an error, its text, and results with errors.
use kustomize_controller.Base.{
  String, ◌<>◌, ◌≡◌, refl, sym, ap, arith, ◌⊎◌, inl, inr, Bool, true, false, Option, none, some,
}

-- `runtimeCtrl.QueueEventSource`: what triggered the reconciliation that cancels a health check.
pub record QueueEventSource : Type 0 where
  pub kind : String
  pub namespace : String
  pub name : String

-- The class of an error by which the tests of its package, such as `apierrors.IsNotFound`, know it.
pub data ErrorClass : Type 0 where
  not_found access_denied file_not_found artifact_not_found digest_mismatch other : ErrorClass
  queue_event : QueueEventSource → ErrorClass

pub data Error : Type 0 where
  -- an error with its text
  plain : ErrorClass → String → Error
  -- `fmt.Errorf("<text>%w", err)`
  wrapped : String → Error → Error
  -- `fmt.Errorf("%w<text>", err)`
  followed : Error → String → Error
  -- `&fs.PathError{Op: op, Path: path, Err: err}`
  path_error : String → String → Error → Error
  -- `reconcile.TerminalError(err)`
  terminal : Error → Error

-- `err.Error()`
unfoldable pub message : Error → String
message (plain c text) = text
message (wrapped text e) = text <> message e
message (followed e text) = message e <> text
message (path_error op path e) = op <> " " <> path <> ": " <> message e
message (terminal e) = "terminal error: " <> message e

-- What `errors.Is` and `errors.As` find at the end of the chain of wrapped errors.
unfoldable pub class_of : Error → ErrorClass
class_of (plain c text) = c
class_of (wrapped text e) = class_of e
class_of (followed e text) = class_of e
class_of (path_error op path e) = class_of e
class_of (terminal e) = class_of e

-- `errors.Is(err, reconcile.TerminalError(nil))`
unfoldable pub is_terminal : Error → Bool
is_terminal (plain c text) = false
is_terminal (wrapped text e) = is_terminal e
is_terminal (followed e text) = is_terminal e
is_terminal (path_error op path e) = is_terminal e
is_terminal (terminal e) = true

abbrev pub is_not_found : Error → Bool
is_not_found e = elim (class_of e) [ not_found ↦ true | _ ↦ false ]

abbrev pub is_access_denied : Error → Bool
is_access_denied e = elim (class_of e) [ access_denied ↦ true | _ ↦ false ]

-- `errors.Is(err, fetch.ErrFileNotFound)`
abbrev pub is_artifact_not_found : Error → Bool
is_artifact_not_found e = elim (class_of e) [ artifact_not_found ↦ true | _ ↦ false ]

-- `errors.Is(err, fs.ErrNotExist)`
abbrev pub is_file_not_found : Error → Bool
is_file_not_found e = elim (class_of e) [ file_not_found ↦ true | _ ↦ false ]

abbrev pub is_digest_mismatch : Error → Bool
is_digest_mismatch e = elim (class_of e) [ digest_mismatch ↦ true | _ ↦ false ]

-- `errors.As(err, &qes)`
abbrev pub queue_event_of : Error → Option QueueEventSource
queue_event_of e = elim (class_of e) [ queue_event q ↦ some q | _ ↦ none ]

-- `errors.New` and `fmt.Errorf` with nothing wrapped
abbrev pub text_error : String → Error
text_error = plain other

pub data Result {ℓ} (A : Type ℓ) : Type ℓ where
  ok : A → Result A
  err : Error → Result A

infixl 5 ◌>>=◌
abbrev pub ◌>>=◌ {ℓ κ} : {A : Type ℓ} {B : Type κ} → Result A → (A → Result B) → Result B
ok a >>= f = f a
err e >>= f = err e

-- To split on a computed result and keep the equation.
pub Result-cases {ℓ} :
    {A : Type ℓ} (r : Result A) → ((a : A) × (r ≡ ok a)) ⊎ ((e : Error) × (r ≡ err e))
Result-cases (ok a) = inl (a, refl)
Result-cases (err e) = inr (e, refl)

-- A chain that succeeds succeeds in its first part.
pub bind_inv {ℓ κ} :
    {A : Type ℓ} {B : Type κ} (r : Result A) (f : A → Result B) (b : B)
    → (r >>= f) ≡ ok b
    → (a : A) × (r ≡ ok a) × (f a ≡ ok b)
bind_inv (ok a) f b h = (a, refl, h)
bind_inv (err e) f b h = ground arith

abbrev result_or {ℓ} : {A : Type ℓ} → A → Result A → A
result_or d (ok x) = x
result_or d (err e) = d

pub ok_inv {ℓ} : {A : Type ℓ} {a b : A} → ok a ≡ ok b → b ≡ a
ok_inv {a = a} h = ap (result_or a) (sym h)
