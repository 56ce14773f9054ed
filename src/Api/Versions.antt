-- ===== src/Api/Versions.antt =====
-- The getters of api/v1beta1, api/v1beta2 and api/v1 beside each other.
use kustomize_controller.Base.{ℕ, ◌-◌, ◌<◌, ◌^◌, ◌≡◌, refl, none, max, arith}
use kustomize_controller.Base.Int.{pos}
use kustomize_controller.Api.Object.{Kustomization}
use kustomize_controller.Api.Defaults.{
  thirty_seconds, get_timeout, get_retry_interval, get_requeue_after,
}
use kustomize_controller.Api.V1beta1
use kustomize_controller.Api.V1beta2

-- Objects of api/v1 and api/v1beta2 with the same interval, timeout and retry interval have the same
-- durations.
pub durations_of_v1beta2 :
    (k : Kustomization) (l : V1beta2.Kustomization)
    → l.spec.interval ≡ k.spec.interval
    → l.spec.timeout ≡ k.spec.timeout
    → l.spec.retry_interval ≡ k.spec.retry_interval
    → (V1beta2.get_timeout l ≡ get_timeout k)
      × (V1beta2.get_retry_interval l ≡ get_retry_interval k)
      × (V1beta2.get_requeue_after l ≡ get_requeue_after k)
unfolding V1beta2.get_timeout get_timeout V1beta2.get_retry_interval get_retry_interval
durations_of_v1beta2 k l i t r = rw (i, t, r) (refl, refl, refl)

-- Objects of api/v1 and api/v1beta1 with the same interval, which `int64` holds and which is not
-- negative, and no timeout: the timeout of the later version is that of the first less 30 seconds.
pub timeout_of_v1beta1 :
    (k : Kustomization) (l : V1beta1.Kustomization) (i : ℕ)
    → l.spec.interval ≡ pos i
    → k.spec.interval ≡ pos i
    → l.spec.timeout ≡ none
    → k.spec.timeout ≡ none
    → i < 2 ^ 63
    → (n : ℕ) × (V1beta1.get_timeout l ≡ pos n) × (get_timeout k ≡ pos (n - thirty_seconds))
unfolding V1beta1.get_timeout get_timeout
timeout_of_v1beta1 k l i a b s t fits =
    (max i V1beta1.minute, rw (a, s) (ground arith), rw (b, t) (ground arith))
