-- ===== src/Base/Members.antt =====
-- Membership of lists, as a Boolean test on texts and as a statement, and maps with text keys.
use Prim.Native.String.{String}
use mathlib.Core.Path.{◌≡◌, refl}
use mathlib.Core.Logic.{◌⊎◌, inl, inr}
use mathlib.Core.Bool.{Bool, true, false, ◌||◌}
use mathlib.Core.Option.{Option, none, some}
use mathlib.Core.List.{List, [], ◌∷◌, ◌++◌, map}
use native.Mathlib.Omega.{arith}
use text.Mathlib.Text.{◌==◌}
use text.Mathlib.TextEquality.{eq_iff}
use kustomize_controller.Base.Tests.{if◌then◌else◌}

module _ {ℓ} {A : Type ℓ} where
  -- `len(xs) == 0`
  abbrev pub is_empty : List A → Bool
  is_empty [] = true
  is_empty (x ∷ xs) = false

  -- Every element of the list has the property.
  abbrev pub All {κ} : (A → Type κ) → List A → Type κ
  All P [] = Unit
  All P (x ∷ xs) = P x × All P xs

  -- Some element passes the test.
  abbrev pub any : (A → Bool) → List A → Bool
  any f [] = false
  any f (x ∷ xs) = f x || any f xs

module _ {A : Type 0} where
  abbrev pub In : A → List A → Type 0
  In a [] = ⊥
  In a (x ∷ xs) = (a ≡ x) ⊎ In a xs

  pub In-append_left : (a : A) (xs ys : List A) → In a xs → In a (xs ++ ys)
  In-append_left a [] ys m = absurd m
  In-append_left a (x ∷ xs) ys (inl e) = inl e
  In-append_left a (x ∷ xs) ys (inr m) = inr (In-append_left a xs ys m)

  pub In-append_right : (a : A) (xs ys : List A) → In a ys → In a (xs ++ ys)
  In-append_right a [] ys m = m
  In-append_right a (x ∷ xs) ys m = inr (In-append_right a xs ys m)

  pub In-append : (a : A) (xs ys : List A) → In a (xs ++ ys) → In a xs ⊎ In a ys
  In-append a [] ys m = inr m
  In-append a (x ∷ xs) ys (inl e) = inl (inl e)
  In-append a (x ∷ xs) ys (inr m) = elim (In-append a xs ys m) [
    | inl l ↦ inl (inr l)
    | inr r ↦ inr r
  ]

module _ {A B : Type 0} (f : A → B) where
  pub In-map : (a : A) (xs : List A) → In a xs → In (f a) (map f xs)
  In-map a [] m = absurd m
  In-map a (x ∷ xs) (inl e) = inl (λ i. f (e i))
  In-map a (x ∷ xs) (inr m) = inr (In-map a xs m)

  pub In-map_inv : (b : B) (xs : List A) → In b (map f xs) → (a : A) × In a xs × (b ≡ f a)
  In-map_inv b [] m = absurd m
  In-map_inv b (x ∷ xs) (inl e) = (x, inl refl, e)
  In-map_inv b (x ∷ xs) (inr m) = let (a, k, e) = In-map_inv b xs m in (a, inr k, e)

-- `seen[k]`, for a map whose keys are the texts of the list
abbrev pub contains : List String → String → Bool
contains [] k = false
contains (x ∷ xs) k = x == k || contains xs k

pub In-contains : (xs : List String) (k : String) → contains xs k ≡ true → In k xs
In-contains [] k h = ground arith
In-contains (x ∷ xs) k h = ground (arith, eq_iff x k, In-contains xs k)

pub contains-In : (xs : List String) (k : String) → In k xs → contains xs k ≡ true
contains-In [] k m = absurd m
contains-In (x ∷ xs) k (inl e) = ground (arith, eq_iff x k)
contains-In (x ∷ xs) k (inr m) = ground (arith, contains-In xs k m)

module _ {ℓ} {V : Type ℓ} where
  -- A Go map with text keys, the latest binding first.
  abbrev pub lookup : List (String × V) → String → Option V
  lookup [] k = none
  lookup ((j, v) ∷ m) k = if j == k then some v else lookup m k

  -- `m[k] = v`
  abbrev pub put : List (String × V) → String → V → List (String × V)
  put m k v = (k, v) ∷ m

-- The value that Go reads for a missing key of a `map[string]string`.
abbrev pub text_or_empty : Option String → String
text_or_empty none = ""
text_or_empty (some s) = s

pub contains-append :
    (xs ys : List String) (k : String) → contains (xs ++ ys) k ≡ (contains xs k || contains ys k)
contains-append [] ys k = refl
contains-append (x ∷ xs) ys k = ground (arith, contains-append xs ys k)

-- No text stands twice in the list.
abbrev pub NoDuplicates : List String → Type 0
NoDuplicates [] = Unit
NoDuplicates (x ∷ xs) = (contains xs x ≡ false) × NoDuplicates xs

pub NoDuplicates-append_one :
    (xs : List String) (k : String)
    → NoDuplicates xs
    → contains xs k ≡ false
    → NoDuplicates (xs ++ k ∷ [])
NoDuplicates-append_one [] k u fresh = (refl, tt)
NoDuplicates-append_one (x ∷ xs) k (f, u) fresh = (
  rw contains-append (ground (arith, eq_iff x k, eq_iff k x)),
  NoDuplicates-append_one xs k u (ground arith),
)
