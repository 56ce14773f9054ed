-- ===== src/Run.antt =====
-- Methods of the reconciler: they change the object in place, call the platform, leave a trace of
-- effects, and return a value or an error. What was changed before an error stays changed.
pub mod Frames
use kustomize_controller.Base.{
  String, ◌≡◌, refl, Bool, Option, none, some, List, ◌∷◌, if◌then◌else◌,
}
use kustomize_controller.Errors.{Error, Result, ok, err, wrapped}
use kustomize_controller.Api.Object.{Kustomization, KustomizationStatus, Condition}
use kustomize_controller.Platform.Values.{Effect}

-- The object under reconciliation, the world outside, and the effects so far, the latest first.
pub record State (W : Type 0) : Type 0 where
  pub obj : Kustomization
  pub world : W
  pub trace : List Effect

abbrev pub Act : Type 0 → Type 0 → Type 0
Act W A = State W → Result A × State W

module _ {W A : Type 0} where
  abbrev pub pure : A → Act W A
  pure a s = (ok a, s)

  abbrev pub raise : Error → Act W A
  raise e s = (err e, s)

  abbrev pub lift : Result A → Act W A
  lift r s = (r, s)

  -- A call of the platform that returns a value or an error.
  abbrev pub call : (W → Result A × W) → Act W A
  call f s = let (r, w) = f s.world in (r, record s { world = w })

  -- A call that cannot fail.
  abbrev pub ask : (W → A × W) → Act W A
  ask f s = let (a, w) = f s.world in (ok a, record s { world = w })

  abbrev pub gets : (State W → A) → Act W A
  gets f s = (ok (f s), s)

  abbrev pub after_error : Result A → (Error → Act W A) → Act W A
  after_error (ok a) h s = (ok a, s)
  after_error (err e) h s = h e s

  -- `if err := m; err != nil { h }`, where `h` ends the method.
  abbrev pub on_error : Act W A → (Error → Act W A) → Act W A
  on_error m h s = let (r, s') = m s in after_error r h s'

  -- `return fmt.Errorf("<text>%w", err)`
  abbrev pub wrap_error : String → Act W A → Act W A
  wrap_error text m = on_error m (λ e. raise (wrapped text e))

module _ {W A B : Type 0} where
  abbrev pub continue : Result A → (A → Act W B) → Act W B
  continue (ok a) f s = f a s
  continue (err e) f s = (err e, s)

  infixl 5 ◌>>=◌ ◌>>◌
  abbrev pub ◌>>=◌ : Act W A → (A → Act W B) → Act W B
  ◌>>=◌ m f s = let (r, s') = m s in continue r f s'

  abbrev pub ◌>>◌ : Act W A → Act W B → Act W B
  m >> n = m >>= λ _. n

-- `nil` or an error, as a result.
abbrev pub outcome : Option Error → Result (Unit {0})
outcome none = ok tt
outcome (some e) = err e

module _ {W : Type 0} where
  abbrev pub done : Act W (Unit {0})
  done = pure tt

  -- A call that returns an error or nil.
  abbrev pub run : (W → Option Error × W) → Act W (Unit {0})
  run f s = let (e, w) = f s.world in (outcome e, record s { world = w })

  abbrev pub leave : Effect → Act W (Unit {0})
  leave e s = (ok tt, record s { trace = e ∷ s.trace })

  abbrev pub modify : (Kustomization → Kustomization) → Act W (Unit {0})
  modify f s = (ok tt, record s { obj = f s.obj })

  abbrev pub the_obj : Act W Kustomization
  the_obj = gets (λ s. s.obj)

  abbrev pub modify_status : (KustomizationStatus → KustomizationStatus) → Act W (Unit {0})
  modify_status f = modify (λ k. record k { status = f k.status })

  abbrev pub modify_conditions : (List Condition → List Condition) → Act W (Unit {0})
  modify_conditions f = modify_status (λ t. record t { conditions = f t.conditions })

  abbrev pub when : Bool → Act W (Unit {0}) → Act W (Unit {0})
  when b m = if b then m else done

module _ {W A B : Type 0} where
  -- A sequence that succeeds: its parts succeed.
  pub continue-ok :
      (r : Result A) (f : A → Act W B) (s : State W) {b : B}
      → (continue r f s).0 ≡ ok b
      → (a : A) × (r ≡ ok a) × ((f a s).0 ≡ ok b)
  continue-ok (ok a) f s h = (a, refl, h)
  continue-ok (err e) f s h = cc
