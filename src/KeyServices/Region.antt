-- ===== src/KeyServices/Region.antt =====
-- internal/sops/awskms/region.go: the region in the ARN of a key, by its regular expression
-- `^arn:aws[\w-]*:kms:(.+):[0-9]+:(key|alias)/.+$`.
use Prim.Native.Char.{code}
use Prim.Native.String.{[], ◌∷◌}
use kustomize_controller.Base.{
  ◌<>◌, String, ℕ, ltb, nat_eq, not, ◌&&◌, ◌||◌, Bool, true, false, if◌then◌else◌, Option, none,
  some, ◌≡◌, refl,
}
use kustomize_controller.Base.Cutting.{cut_prefix}

-- `[0-9]`
abbrev is_digit : ℕ → Bool
is_digit c = not (ltb c b'0') && ltb c 58

-- `[\w-]`
abbrev is_word : ℕ → Bool
is_word c =
    is_digit c
    || (not (ltb c b'A') && ltb c 91)
    || (not (ltb c b'a') && ltb c 123)
    || nat_eq c b'_'
    || nat_eq c b'-'

-- `.+$`, where `.` is no newline
abbrev is_line : String → Bool
is_line [] = true
is_line (c ∷ s) = not (nat_eq (code c) 10) && is_line s

abbrev is_some_line : String → Bool
is_some_line [] = false
is_some_line (c ∷ s) = is_line (c ∷ s)

abbrev rest_is_line : Option String → Option String → Bool
rest_is_line (some s) _ = is_some_line s
rest_is_line none (some s) = is_some_line s
rest_is_line none none = false

-- `(key|alias)/.+$`
unfoldable pub is_resource : String → Bool
unfolding cut_prefix
is_resource s = rest_is_line (cut_prefix s "key/") (cut_prefix s "alias/")

-- `[0-9]*:(key|alias)/.+$`
unfoldable pub is_account_rest : String → Bool
unfolding is_resource
is_account_rest [] = false
is_account_rest (c ∷ s) =
    let later = is_account_rest s in
    if is_digit (code c) then later else nat_eq (code c) b':' && is_resource s

abbrev starts_with_digit : String → Bool
starts_with_digit [] = false
starts_with_digit (c ∷ s) = is_digit (code c)

-- `:[0-9]+:(key|alias)/.+$`
unfoldable pub is_tail : String → Bool
unfolding is_account_rest
is_tail [] = false
is_tail (c ∷ s) = nat_eq (code c) b':' && starts_with_digit s && is_account_rest s

abbrev longer : String → Option String → Bool → Option String
longer c (some r) ends = some (c <> r)
longer c none true = some c
longer c none false = none

-- `(.+)` before such a tail, as long as it can be
unfoldable pub longest_region : String → Option String
unfolding is_tail
longest_region [] = none
longest_region (c ∷ s) =
    let later = longest_region s in
    if nat_eq (code c) 10 then none else longer (c ∷ []) later (is_tail s)

abbrev region_behind : Option String → Option String
region_behind none = none
region_behind (some s) = longest_region s

-- `[\w-]*:kms:`, and what follows it
unfoldable pub behind_partition : String → Option String
unfolding cut_prefix
behind_partition [] = none
behind_partition (c ∷ s) =
    let later = behind_partition s in if is_word (code c) then later else cut_prefix (c ∷ s) ":kms:"

abbrev behind_aws : Option String → Option String
behind_aws none = none
behind_aws (some s) = behind_partition s

abbrev or_empty : Option String → String
or_empty none = ""
or_empty (some s) = s

-- `GetRegionFromKMSARN(arn)`
unfoldable pub get_region_from_kms_arn : String → String
unfolding cut_prefix behind_partition longest_region
get_region_from_kms_arn arn = or_empty (region_behind (behind_aws (cut_prefix arn "arn:aws")))

finds_region :
    get_region_from_kms_arn "arn:aws-cn:kms:cn-north-1:107501996527:alias/team" ≡ "cn-north-1"
unfolding get_region_from_kms_arn
finds_region = refl

no_account : get_region_from_kms_arn "arn:aws:kms:us-west-2::key/612d5f0p" ≡ ""
unfolding get_region_from_kms_arn
no_account = refl
