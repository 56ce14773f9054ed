-- ===== src/Controller/Failures.antt =====
-- What `Reconcile` of internal/controller/kustomization_controller.go leaves after an error.
use kustomize_controller.Base.{
  String, ◌<>◌, ◌≡◌, ◌≢◌, ◌⊎◌, ◌∙◌, true, false, some, Option, List, arith, eq_iff,
}
use kustomize_controller.Errors.{
  Error, ok, err, is_terminal, terminal, class_of, not_found, access_denied, message,
}
use kustomize_controller.Api.Object.{Condition, ConditionStatus, true_status, false_status}
use kustomize_controller.Api.Defaults.{get_retry_interval}
use kustomize_controller.Platform.Conditions.{IsLawful, status, ready, reconciling, stalled}
use kustomize_controller.Platform.Services.{Platform}
use kustomize_controller.Run.{State}
use kustomize_controller.Controller.Config.{KustomizationReconciler}
use kustomize_controller.Controller.Reconciling.Steps.{Origin}
use kustomize_controller.Controller.Dispatch.{
  requeue_after, fail_terminally, source_failed, dependencies_failed,
}

module _ (P : Platform) (L : IsLawful P.conditions) where
  abbrev ready_status : State P.World → Option ConditionStatus
  ready_status s = status P.conditions s.obj.status.conditions ready

  -- Ready is false once the object is marked as not ready and as stalled.
  marked_stalled :
      (cs : List Condition) (reason text : String)
      → status P.conditions
          (P.conditions.mark_stalled (P.conditions.mark_false cs ready reason text) reason text)
          ready
        ≡ some false_status
  marked_stalled cs reason text =
      L.status-mark_stalled (P.conditions.mark_false cs ready reason text) reason text ready
        (λ e. ground (arith, eq_iff ready reconciling)) (λ e. ground (arith, eq_iff ready stalled))
      ∙ L.status-mark_false cs ready reason text ready

  -- Whatever the error of `getSource`, Ready is false afterwards. If the source is not there, the
  -- object is tried again after its retry interval; if access to it is denied, the object is
  -- stalled and the error is terminal; any other error is returned as it is.
  pub source_failed_marks :
      (e : Error) (s : State P.World)
      → (ready_status (source_failed P e s).1 ≡ some false_status)
        × (((class_of e ≡ not_found)
              × ((source_failed P e s).0 ≡ ok (requeue_after (get_retry_interval s.obj))))
            ⊎ (((class_of e ≡ access_denied)
                  × ((source_failed P e s).0 ≡ err (terminal e))
                  × (status P.conditions (source_failed P e s).1.obj.status.conditions stalled
                      ≡ some true_status))
                ⊎ ((class_of e ≢ not_found)
                    × (class_of e ≢ access_denied)
                    × ((source_failed P e s).0 ≡ err e))))
  unfolding source_failed get_retry_interval
  source_failed_marks e s = ground (
    arith,
    L.status-mark_false s.obj.status.conditions ready "ArtifactFailed" (message e) ready,
    marked_stalled
        (P.conditions.mark_false s.obj.status.conditions ready "ArtifactFailed" (message e))
        "AccessDenied" (message e),
    L.mark_stalled_lem
        (P.conditions.mark_false
          (P.conditions.mark_false s.obj.status.conditions ready "ArtifactFailed" (message e)) ready
          "AccessDenied" (message e))
        "AccessDenied" (message e),
  )

  -- Whatever the error of `checkDependencies`, Ready is false afterwards. A terminal error is
  -- returned, under the generation that it is about; any other makes the object wait for the requeue
  -- interval of dependencies.
  pub dependencies_failed_marks :
      (r : KustomizationReconciler) (o : Origin) (e : Error) (s : State P.World)
      → (ready_status (dependencies_failed P r o e s).1 ≡ some false_status)
        × (((is_terminal e ≡ true)
              × ((dependencies_failed P r o e s).0 ≡ err e)
              × ((dependencies_failed P r o e s).1.obj.status.observed_generation
                  ≡ s.obj.generation))
            ⊎ ((is_terminal e ≡ false)
                × ((dependencies_failed P r o e s).0
                    ≡ ok (requeue_after r.dependency_requeue_interval))))
  unfolding dependencies_failed fail_terminally
  dependencies_failed_marks r o e s = ground (
    arith,
    marked_stalled s.obj.status.conditions "InvalidCELExpression"
        ("Reconciliation failed terminally due to configuration error: " <> message e),
    L.status-mark_false s.obj.status.conditions ready "DependencyNotReady" (message e) ready,
  )
