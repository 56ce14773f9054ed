-- ===== src/Api/Durations.antt =====
-- The timeout of api/v1/kustomization_types.go, for every value of its fields.
use kustomize_controller.Base.{ℕ, ◌-◌, ◌<◌, ◌≤◌, ◌^◌, ◌≡◌, none, max, arith, refl, if◌then◌else◌}
use kustomize_controller.Base.Int.{ℤ, pos, negsuc, lt_ℤ}
use kustomize_controller.Api.Object.{Kustomization}
use kustomize_controller.Api.Defaults.{thirty_seconds, requested_timeout, get_timeout}

-- The test at the end of `get_timeout`.
floor_bounds :
    (d : ℤ)
    → (n : ℕ) × ((if lt_ℤ d (pos thirty_seconds) then pos thirty_seconds else d) ≡ pos n)
      × (thirty_seconds ≤ n)
floor_bounds (pos d) = (max d thirty_seconds, ground arith, omega arith)
floor_bounds (negsuc d) = (thirty_seconds, refl, omega arith)

-- The timeout is at least 30 seconds, whatever the interval and the timeout of the spec, negative
-- ones and those whose difference leaves `int64` included.
pub get_timeout_bounds :
    (k : Kustomization) → (n : ℕ) × (get_timeout k ≡ pos n) × (thirty_seconds ≤ n)
unfolding get_timeout
get_timeout_bounds k = floor_bounds (requested_timeout k)

-- With no timeout given and an interval that `int64` holds and is not negative, the timeout is the
-- interval less 30 seconds, and at least 30 seconds.
pub get_timeout_of_interval :
    (k : Kustomization) (i : ℕ)
    → k.spec.timeout ≡ none
    → k.spec.interval ≡ pos i
    → i < 2 ^ 63
    → get_timeout k ≡ pos (max (i - thirty_seconds) thirty_seconds)
unfolding get_timeout
get_timeout_of_interval k i unset at fits = rw (unset, at) (ground arith)
