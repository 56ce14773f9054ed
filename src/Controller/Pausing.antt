-- ===== src/Controller/Pausing.antt =====
-- `Reconcile` of internal/controller/kustomization_controller.go for an object that it leaves alone.
use kustomize_controller.Base.{◌≡◌, true, none, ◌∷◌, arith}
use kustomize_controller.Base.Int.{ℤ}
use kustomize_controller.Api.Object.{kustomization_finalizer}
use kustomize_controller.Platform.Values.{patched}
use kustomize_controller.Platform.Services.{Platform}
use kustomize_controller.Run.{State}
use kustomize_controller.Controller.Config.{KustomizationReconciler}
use kustomize_controller.Controller.Status.{finalized_status}
use kustomize_controller.Controller.Building.{BuildServices}
use kustomize_controller.Controller.Finalizing.{no_requeue}
use kustomize_controller.Controller.Dispatch.{reconcile_object}

module _ (P : Platform) (B : BuildServices P.World P.StructMap) (r : KustomizationReconciler) where
  -- A suspended Kustomization that has its finalizer and is not being deleted is not requeued; the
  -- one effect is the patch of its status, and of the object only that status changes.
  pub reconcile_object_suspended :
      (start : ℤ) (s : State P.World)
      → s.obj.deletion_timestamp ≡ none
      → P.contains_finalizer s.obj.finalizers kustomization_finalizer ≡ true
      → s.obj.spec.suspend ≡ true
      → ((reconcile_object P B r start s).0 ≡ no_requeue)
        × ((reconcile_object P B r start s).2.obj
            ≡ record s.obj { status = finalized_status P s.obj })
        × ((reconcile_object P B r start s).2.trace
            ≡ patched (record s.obj { status = finalized_status P s.obj }) ∷ s.trace)
  unfolding reconcile_object
  reconcile_object_suspended start s alive kept paused = ground arith
