-- ===== src/Io/Frames.antt =====
-- Properties of the state that functions with errors leave as they were.
use kustomize_controller.Base.{String, ap, Bool, true, false, if◌then◌else◌, ◌≡◌, refl, arith}
use kustomize_controller.Errors.{Error, Result, ok, err, wrapped}
use kustomize_controller.Io.{Io, raise, wrap_error, continue, after_error, on_error, ◌>>=◌}

module _ {S : Type 0} (I : S → Type 0) where
  -- Whatever the function returns, the state still has the property.
  pub record Keeps {A : Type 0} (m : Io S A) : Type 0 where
    pub keeps : (s : S) → I s → I (m s).1

  module _ {A : Type 0} where
    -- A function that leaves the state alone.
    pub reader-Keeps : (f : S → Result A) → Keeps (λ s. (f s, s))
    reader-Keeps f = record { keeps = λ s i. i }

    after_error-Keeps :
        (r : Result A) (h : Error → Io S A) → ((e : Error) → Keeps (h e)) → Keeps (after_error r h)
    after_error-Keeps (ok a) h k = record { keeps = λ s i. i }
    after_error-Keeps (err e) h k = record { keeps = (k e).keeps }

    pub on_error-Keeps :
        (m : Io S A) (h : Error → Io S A)
        → Keeps m
        → ((e : Error) → Keeps (h e))
        → Keeps (on_error m h)
    on_error-Keeps m h k l = record {
      keeps = λ s i. (after_error-Keeps (m s).0 h l).keeps (m s).1 (k.keeps s i);
    }

    pub if-Keeps : (b : Bool) (m n : Io S A) → Keeps m → Keeps n → Keeps (if b then m else n)
    if-Keeps true m n k l = k
    if-Keeps false m n k l = l

  module _ {A B : Type 0} where
    continue-Keeps :
        (r : Result A) (f : A → Io S B) → ((a : A) → Keeps (f a)) → Keeps (continue r f)
    continue-Keeps (ok a) f k = record { keeps = (k a).keeps }
    continue-Keeps (err e) f k = record { keeps = λ s i. i }

    pub bind-Keeps :
        (m : Io S A) (f : A → Io S B) → Keeps m → ((a : A) → Keeps (f a)) → Keeps (m >>= f)
    bind-Keeps m f k l = record {
      keeps = λ s i. (continue-Keeps (m s).0 f l).keeps (m s).1 (k.keeps s i);
    }

module _ {S A B : Type 0} where
  continued_inv :
      (r : Result A) (f : A → Io S B) (s : S) (b : B) (t : S)
      → continue r f s ≡ (ok b, t)
      → (a : A) × (r ≡ ok a) × (f a s ≡ (ok b, t))
  continued_inv (ok a) f s b t h = (a, refl, h)
  continued_inv (err e) f s b t h = ground arith

  -- A sequence that succeeds succeeds in its first part.
  pub bind_inv :
      (m : Io S A) (f : A → Io S B) (s : S) (b : B) (t : S)
      → (m >>= f) s ≡ (ok b, t)
      → (a : A) × ((m s).0 ≡ ok a) × (f a (m s).1 ≡ (ok b, t))
  bind_inv m f s b t h = continued_inv (m s).0 f (m s).1 b t h

module _ {S A : Type 0} where
  unwrapped_inv :
      (text : String) (r : Result A) (s : S) (a : A)
      → (after_error r (λ e. raise (wrapped text e)) s).0 ≡ ok a
      → ◌≡◌ {A = Result A × S} (r, s) (ok a, (after_error r (λ e. raise (wrapped text e)) s).1)
  unwrapped_inv text (ok b) s a h = ap (λ x. (x, s)) h
  unwrapped_inv text (err e) s a h = ground arith

  -- What succeeds under a wrapper for errors succeeds without it.
  pub wrap_error_inv :
      (text : String) (m : Io S A) (s : S) (a : A)
      → (wrap_error text m s).0 ≡ ok a
      → m s ≡ (ok a, (wrap_error text m s).1)
  wrap_error_inv text m s a h = unwrapped_inv text (m s).0 (m s).1 a h
