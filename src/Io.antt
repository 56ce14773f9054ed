-- ===== src/Io.antt =====
-- Go functions with errors on a state of any type: what they call may change it, also before an
-- error.
pub mod Frames
use kustomize_controller.Base.{String, Bool, if◌then◌else◌}
use kustomize_controller.Errors.{Error, Result, ok, err, wrapped}

abbrev pub Io : Type 0 → Type 0 → Type 0
Io S A = S → Result A × S

module _ {S A : Type 0} where
  abbrev pub pure : A → Io S A
  pure a s = (ok a, s)

  abbrev pub raise : Error → Io S A
  raise e s = (err e, s)

  abbrev pub lift : Result A → Io S A
  lift r s = (r, s)

  abbrev pub after_error : Result A → (Error → Io S A) → Io S A
  after_error (ok a) h s = (ok a, s)
  after_error (err e) h s = h e s

  -- `if err != nil { h }`, where `h` ends the function.
  abbrev pub on_error : Io S A → (Error → Io S A) → Io S A
  on_error m h s = let (r, t) = m s in after_error r h t

  -- `return fmt.Errorf("<text>%w", err)`
  abbrev pub wrap_error : String → Io S A → Io S A
  wrap_error text m = on_error m (λ e. raise (wrapped text e))

module _ {S A B : Type 0} where
  abbrev pub continue : Result A → (A → Io S B) → Io S B
  continue (ok a) f s = f a s
  continue (err e) f s = (err e, s)

  infixl 5 ◌>>=◌ ◌>>◌
  abbrev pub ◌>>=◌ : Io S A → (A → Io S B) → Io S B
  ◌>>=◌ m f s = let (r, t) = m s in continue r f t

  abbrev pub ◌>>◌ : Io S A → Io S B → Io S B
  m >> n = m >>= λ _. n

module _ {S : Type 0} where
  abbrev pub done : Io S (Unit {0})
  done = pure tt

  abbrev pub when : Bool → Io S (Unit {0}) → Io S (Unit {0})
  when b m = if b then m else done

  abbrev pub modify : (S → S) → Io S (Unit {0})
  modify f s = (ok tt, f s)

  abbrev pub get : Io S S
  get s = (ok s, s)
