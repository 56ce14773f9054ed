-- ===== src/Controller/Encryption.antt =====
-- `apply` of internal/controller/kustomization_controller.go never applies an encrypted Secret.
use kustomize_controller.Base.{
  String, ◌≡◌, refl, false, Option, List, [], ◌∷◌, any, arith, inl, inr,
}
use kustomize_controller.Errors.{ok, Result-cases}
use kustomize_controller.Api.Object.{Kustomization}
use kustomize_controller.Inventory.Packages.{Unstructured}
use kustomize_controller.Platform.Values.{Source}
use kustomize_controller.Platform.Services.{Platform}
use kustomize_controller.Run.{State}
use kustomize_controller.Controller.Config.{KustomizationReconciler}
use kustomize_controller.Controller.Applying.{with_common_metadata, check_encrypted, apply}
use kustomize_controller.Controller.Traces.{is_unprotected, leaks_secret}

module _ (P : Platform) where
  -- The check passes exactly for lists without such a Secret.
  check_encrypted_lem :
      (us : List Unstructured) → check_encrypted P us ≡ ok tt → any is_unprotected us ≡ false
  unfolding check_encrypted
  check_encrypted_lem [] h = refl
  check_encrypted_lem (u ∷ us) h = ground (arith, check_encrypted_lem us)

  -- `apply` makes no difference to whether an encrypted Secret that does not ask to be left so has
  -- been applied, whatever the objects are.
  pub apply_protects :
      (r : KustomizationReconciler) (k : Kustomization) (client : P.Client × P.Poller)
      (src : Option Source) (revision origin : String) (objects : List Unstructured)
      (s : State P.World)
      → any leaks_secret (apply P r k client src revision origin objects s).1.trace
        ≡ any leaks_secret s.trace
  unfolding apply
  apply_protects r k client src revision origin objects s =
      elim (Result-cases (P.normalize objects)) [
        | inr (e, bad) ↦ rw bad refl
        | inl (normalized, good) ↦
            elim (Result-cases
              (check_encrypted P (with_common_metadata P k.spec.common_metadata normalized))) [
                | inr (e, bad) ↦ rw (good, bad) refl
                | inl (tt, passed) ↦ ground (
                  arith,
                  good,
                  passed,
                  check_encrypted_lem (with_common_metadata P k.spec.common_metadata normalized)
                      passed,
                )
              ]
      ]
