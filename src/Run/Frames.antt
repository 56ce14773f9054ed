-- ===== src/Run/Frames.antt =====
-- Sequences of steps that keep a part of the state: what all the steps keep, the sequence keeps.
use kustomize_controller.Base.{◌≡◌, refl, ◌∙◌, Bool, true, false, if◌then◌else◌}
use kustomize_controller.Errors.{Error, Result, ok, err}
use kustomize_controller.Run.{Act, State, continue, after_error, ◌>>=◌, on_error}

module _ {W X : Type 0} (f : State W → X) where
  -- The steps leave the part `f` of the state as it is.
  pub record Keeps {A : Type 0} (m : Act W A) : Type 0 where
    pub keeps : (s : State W) → f (m s).1 ≡ f s

  continue-Keeps :
      {A B : Type 0} (r : Result A) (n : A → Act W B)
      → ((a : A) → Keeps (n a))
      → Keeps (continue r n)
  continue-Keeps (ok a) n hn = record { keeps = (hn a).keeps }
  continue-Keeps (err e) n hn = record { keeps = λ s. refl }

  pub bind-Keeps :
      {A B : Type 0} (m : Act W A) (n : A → Act W B)
      → Keeps m
      → ((a : A) → Keeps (n a))
      → Keeps (m >>= n)
  bind-Keeps m n hm hn = record {
    keeps = λ s. (continue-Keeps (m s).0 n hn).keeps (m s).1 ∙ hm.keeps s;
  }

  after_error-Keeps :
      {A : Type 0} (r : Result A) (h : Error → Act W A)
      → ((e : Error) → Keeps (h e))
      → Keeps (after_error r h)
  after_error-Keeps (ok a) h hh = record { keeps = λ s. refl }
  after_error-Keeps (err e) h hh = record { keeps = (hh e).keeps }

  pub on_error-Keeps :
      {A : Type 0} (m : Act W A) (h : Error → Act W A)
      → Keeps m
      → ((e : Error) → Keeps (h e))
      → Keeps (on_error m h)
  on_error-Keeps m h hm hh = record {
    keeps = λ s. (after_error-Keeps (m s).0 h hh).keeps (m s).1 ∙ hm.keeps s;
  }

  pub if-Keeps :
      {A : Type 0} (b : Bool) (m n : Act W A) → Keeps m → Keeps n → Keeps (if b then m else n)
  if-Keeps true m n hm hn = hm
  if-Keeps false m n hm hn = hn

module _ {W : Type 0} (Q : State W → Type 0) where
  -- If the steps succeed, the state that they leave has the property.
  pub record Ensures {A : Type 0} (m : Act W A) : Type 0 where
    pub ensures : (s : State W) (a : A) → (m s).0 ≡ ok a → Q (m s).1

  continue-Ensures :
      {A B : Type 0} (r : Result A) (n : A → Act W B)
      → ((a : A) → Ensures (n a))
      → Ensures (continue r n)
  continue-Ensures (ok a) n hn = record { ensures = (hn a).ensures }
  continue-Ensures (err e) n hn = record { ensures = λ s b h. cc }

  -- A sequence ensures what its last part ensures.
  pub bind-Ensures :
      {A B : Type 0} (m : Act W A) (n : A → Act W B) → ((a : A) → Ensures (n a)) → Ensures (m >>= n)
  bind-Ensures m n hn = record { ensures = λ s. (continue-Ensures (m s).0 n hn).ensures (m s).1 }

module _ {W : Type 0} where
  -- From a state with the first property the steps lead to one with the second, whatever they answer.
  pub record Leads (I J : State W → Type 0) {A : Type 0} (m : Act W A) : Type 0 where
    pub leads : (s : State W) → I s → J (m s).1

  continue-leads :
      {A B : Type 0} (J K : State W → Type 0) (r : Result A) (n : A → Act W B) (t : State W)
      → ((s : State W) → J s → K s)
      → ((a : A) → r ≡ ok a → Leads J K (n a))
      → J t
      → K (continue r n t).1
  continue-leads J K (ok a) n t sub hn j = (hn a refl).leads t j
  continue-leads J K (err e) n t sub hn j = sub t j

  -- The rest of a sequence starts where its first part leads, with what that part answers for some
  -- state with the first property.
  pub bind-Leads :
      {A B : Type 0} (I J K : State W → Type 0) (m : Act W A) (n : A → Act W B)
      → Leads I J m
      → ((s : State W) → J s → K s)
      → ((a : A) (s : State W) → I s → (m s).0 ≡ ok a → Leads J K (n a))
      → Leads I K (m >>= n)
  bind-Leads I J K m n hm sub hn = record {
    leads = λ s i. continue-leads J K (m s).0 n (m s).1 sub (λ a e. hn a s i e) (hm.leads s i);
  }
