-- ===== src/Base/Text.antt =====
-- The functions of Go's package strings that the controller calls, on the characters of a text.
use Prim.Native.Char.{code}
use Prim.Native.Nat.{ℕ, ◌+◌}
use Prim.Native.String.{String, [], ◌∷◌}
use mathlib.Core.Bool.{Bool, true, false, ◌&&◌, not}
use mathlib.Core.Path.{◌≡◌, refl}
use text.Mathlib.Text.{find?}
use kustomize_controller.Base.Tests.{ltb, nat_eq, is_some, if◌then◌else◌}

-- `strings.Contains`
abbrev pub has_substring : String → String → Bool
has_substring s t = is_some (find? s t)

-- `strings.TrimSuffix(s, "\n")`
unfoldable pub trim_newline : String → String
trim_newline [] = []
trim_newline (c ∷ []) = if nat_eq (code c) 10 then [] else c ∷ []
trim_newline (c ∷ (d ∷ s)) = c ∷ trim_newline (d ∷ s)

-- The simple folding of the code points that fold to an ASCII letter: A to Z, the long s and the
-- Kelvin sign.
unfoldable pub fold_code : ℕ → ℕ
fold_code c =
    if nat_eq c 0x17F
    then b's'
    else if nat_eq c 0x212A
    then b'k'
    else if not (ltb c b'A') && ltb c 91
    then c + 32
    else c

-- `strings.EqualFold`, for a second text in ASCII.
unfoldable pub equal_fold : String → String → Bool
unfolding fold_code
equal_fold [] [] = true
equal_fold (c ∷ s) (d ∷ t) = nat_eq (fold_code (code c)) (fold_code (code d)) && equal_fold s t
equal_fold _ _ = false

trims : trim_newline "a\nb\n" ≡ "a\nb"
unfolding trim_newline
trims = refl

folds : equal_fold "DiSabled" "disabled" ≡ true
unfolding equal_fold
folds = refl

contains_host : has_substring "http://source-watcher.flux" "//source-watcher" ≡ true
contains_host = refl
