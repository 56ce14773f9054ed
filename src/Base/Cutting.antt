-- ===== src/Base/Cutting.antt =====
-- The functions of Go's package strings that take texts apart, on their characters.
use Prim.Native.Char.{Char, code}
use Prim.Native.Nat.{ℕ}
use Prim.Native.String.{String, [], ◌∷◌, ◌++◌ as ◌<>◌}
use mathlib.Core.Bool.{Bool, true, false, ◌||◌}
use mathlib.Core.List.{List, [], ◌∷◌}
use mathlib.Core.Path.{◌≡◌, refl, ap, sym, ◌∙◌}
use mathlib.Core.Logic.{inl, inr}
use mathlib.Core.Option.{Option, none, some}
use native.Mathlib.Omega.{arith}
use text.Mathlib.Text.{◌==◌}
use text.Mathlib.TextLemmas.{nil-append, cons-append, append_assoc}
use text.Mathlib.TextEquality.{Char-path}
use kustomize_controller.Base.Tests.{nat_eq, is_some, Option-cases, Bool-cases, if◌then◌else◌}

-- `strings.CutPrefix(s, t)`
unfoldable pub cut_prefix : String → String → Option String
cut_prefix s [] = some s
cut_prefix [] (d ∷ t) = none
cut_prefix (c ∷ s) (d ∷ t) =
    let rest = cut_prefix s t in if nat_eq (code c) (code d) then rest else none

-- `strings.HasPrefix(s, t)`
unfoldable pub has_prefix : String → String → Bool
unfolding cut_prefix
has_prefix s t = is_some (cut_prefix s t)

abbrev put_before : Char → Option (String × String) → Option (String × String)
put_before c none = none
put_before c (some (a, b)) = some (c ∷ a, b)

abbrev or_else : Option String → Option (String × String) → Option (String × String)
or_else none later = later
or_else (some rest) later = some ([], rest)

-- `strings.Cut(s, t)`: what stands before and behind the first occurrence.
unfoldable pub cut : String → String → Option (String × String)
unfolding cut_prefix
cut [] t = or_else (cut_prefix [] t) none
cut (c ∷ s) t = or_else (cut_prefix (c ∷ s) t) (put_before c (cut s t))

abbrev in_front : Char → Option String → Option String
in_front c none = none
in_front c (some a) = some (c ∷ a)

-- `s[:i]` for `i := strings.Index(s, t)`, if it is not -1.
unfoldable pub before : String → String → Option String
unfolding has_prefix
before [] t = if has_prefix [] t then some [] else none
before (c ∷ s) t =
    let later = before s t in if has_prefix (c ∷ s) t then some [] else in_front c later

-- `strings.HasSuffix(s, t)`
unfoldable pub has_suffix : String → String → Bool
has_suffix [] t = [] == t
has_suffix (c ∷ s) t = (c ∷ s) == t || has_suffix s t

pub cut_prefix-append : (t s : String) → cut_prefix (t <> s) t ≡ some s
unfolding cut_prefix
cut_prefix-append [] s = rw nil-append refl
cut_prefix-append (d ∷ t) s = rw cons-append (ground (arith, cut_prefix-append t s))

-- What `CutPrefix` returns, behind the prefix, is the text.
pub cut_prefix_sound : (s t rest : String) → cut_prefix s t ≡ some rest → s ≡ t <> rest
unfolding cut_prefix
cut_prefix_sound s [] rest h = rw nil-append (ground arith)
cut_prefix_sound [] (d ∷ t) rest h = ground arith
cut_prefix_sound (c ∷ s) (d ∷ t) rest h =
    rw cons-append (ground (arith, cut_prefix_sound s t rest, Char-path c d))

-- The text is as long as the other or shorter.
abbrev Fits : String → String → Type 0
Fits [] s = Unit
Fits (d ∷ t) [] = ⊥
Fits (d ∷ t) (c ∷ s) = Fits t s

Fits-cons : (t s : String) (c : Char) → Fits t s → Fits t (c ∷ s)
Fits-cons [] s c f = tt
Fits-cons (d ∷ t) [] c f = absurd f
Fits-cons (d ∷ t) (e ∷ s) c f = Fits-cons t s e f

Fits-refl : (t : String) → Fits t t
Fits-refl [] = tt
Fits-refl (d ∷ t) = Fits-refl t

Fits-append : (a t : String) → Fits t (a <> t)
Fits-append [] t = rw nil-append (Fits-refl t)
Fits-append (c ∷ a) t = rw cons-append (Fits-cons t (a <> t) c (Fits-append a t))

-- What follows a text makes no difference to whether a shorter one is its prefix.
has_prefix-append : (s t b c : String) → Fits t s → has_prefix (s <> b) t ≡ has_prefix (s <> c) t
unfolding has_prefix
has_prefix-append s [] b c f = refl
has_prefix-append [] (d ∷ t) b c f = absurd f
has_prefix-append (e ∷ s) (d ∷ t) b c f =
    rw (cons-append e s b) (rw (cons-append e s c) (ground (arith, has_prefix-append s t b c f)))

before_prefix : (u t : String) → has_prefix u t ≡ true → before u t ≡ some []
unfolding before
before_prefix [] t h = ground arith
before_prefix (c ∷ u) t h = ground arith

has_prefix-append_same : (t b : String) → has_prefix (t <> b) t ≡ true
unfolding has_prefix
has_prefix-append_same t b = rw (cut_prefix-append t b) refl

-- What follows an occurrence of a text makes no difference to what stands before the first one.
pub before-append : (a t b c : String) → before (a <> (t <> b)) t ≡ before (a <> (t <> c)) t
unfolding before
before-append [] t b c =
    rw (nil-append (t <> b), nil-append (t <> c))
      (before_prefix (t <> b) t (has_prefix-append_same t b)
        ∙ sym (before_prefix (t <> c) t (has_prefix-append_same t c)))
before-append (d ∷ a) t b c =
    rw (cons-append d a (t <> b))
      (rw (cons-append d a (t <> c)) (ground (arith, before-append a t b c, same)))
  where
    front : String → String
    front x = d ∷ (a <> (t <> x))

    front_lem : (x : String) → front x ≡ (d ∷ (a <> t)) <> x
    front_lem x = ap (λ r. d ∷ r) (sym (append_assoc a t x)) ∙ sym (cons-append d (a <> t) x)

    same : has_prefix (front b) t ≡ has_prefix (front c) t
    same =
        ap (λ r. has_prefix r t) (front_lem b)
        ∙ has_prefix-append (d ∷ (a <> t)) t b c (Fits-cons t (a <> t) d (Fits-append a t))
        ∙ sym (ap (λ r. has_prefix r t) (front_lem c))

pub before-append_some : (a t b : String) → is_some (before (a <> (t <> b)) t) ≡ true
unfolding before
before-append_some [] t b =
    rw (nil-append (t <> b), before_prefix (t <> b) t (has_prefix-append_same t b)) refl
before-append_some (d ∷ a) t b =
    rw (cons-append d a (t <> b)) (ground (arith, before-append_some a t b))

abbrev to_first : Char → List String → List String
to_first c [] = []
to_first c (a ∷ rest) = (c ∷ a) ∷ rest

-- `strings.Split(s, sep)`, for a separator of one character
unfoldable pub split_at_char : ℕ → String → List String
split_at_char d [] = [] ∷ []
split_at_char d (c ∷ s) =
    let rest = split_at_char d s in if nat_eq (code c) d then [] ∷ rest else to_first c rest

-- What `Cut` takes apart makes up the text.
pub cut_sound : (s t a b : String) → cut s t ≡ some (a, b) → s ≡ a <> (t <> b)
unfolding cut
cut_sound [] t a b h = elim (Option-cases (cut_prefix [] t)) [
  | inl missing ↦ ground (arith, missing, h)
  | inr (rest, found) ↦
      ground (arith, found, h, cut_prefix_sound [] t rest found, nil-append (t <> rest))
]
cut_sound (c ∷ s) t a b h = elim (Option-cases (cut_prefix (c ∷ s) t)) [
  | inr (rest, found) ↦
      ground (arith, found, h, cut_prefix_sound (c ∷ s) t rest found, nil-append (t <> rest))
  | inl missing ↦ elim (Option-cases (cut s t)) [
    | inl nowhere ↦ ground (arith, missing, nowhere, h)
    | inr ((a', b'), later) ↦
        ground (arith, missing, later, h, cut_sound s t a' b' later, cons-append c a' (t <> b'))
  ]
]

-- A text without the character, the character and more is cut at the character.
pub cut-append :
    (d : Char) (s b : String)
    → cut s (d ∷ []) ≡ none
    → cut (s <> ((d ∷ []) <> b)) (d ∷ []) ≡ some (s, b)
unfolding cut cut_prefix
cut-append d [] b h =
    rw (nil-append ((d ∷ []) <> b)) (rw (cons-append d [] b, nil-append b) (ground arith))
cut-append d (c ∷ s) b h =
    rw (cons-append c s ((d ∷ []) <> b))
      (ground (arith, cut-append d s b, Option-cases (cut s (d ∷ []))))

-- What stands before the cut has no occurrence of the character.
pub cut_first : (d : Char) (s a b : String) → cut s (d ∷ []) ≡ some (a, b) → cut a (d ∷ []) ≡ none
unfolding cut cut_prefix
cut_first d [] a b h = ground arith
cut_first d (c ∷ s) a b h = elim (Bool-cases (nat_eq (code c) (code d))) [
  | inl same ↦ rw (empty same) refl
  | inr differs ↦ elim (Option-cases (cut s (d ∷ []))) [
    | inl nowhere ↦ ground (arith, differs, nowhere, h)
    | inr ((a', b'), later) ↦
        rw (longer a' b' differs later)
          (rw differs (ground (arith, cut_first d s a' b' later, differs)))
  ]
]
  where
    empty : nat_eq (code c) (code d) ≡ true → a ≡ []
    empty same = ground (arith, same, h)

    longer :
        (a' b' : String)
        → nat_eq (code c) (code d) ≡ false
        → cut s (d ∷ []) ≡ some (a', b')
        → a ≡ c ∷ a'
    longer a' b' differs later = ground (arith, differs, later, h)
