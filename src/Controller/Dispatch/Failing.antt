-- ===== src/Controller/Dispatch/Failing.antt =====
-- The branches of `Reconcile` of internal/controller/kustomization_controller.go for errors.
use kustomize_controller.Base.{
  String, ◌<>◌, ◌||◌, Option, none, some, [], true, false, if◌then◌else◌,
}
use kustomize_controller.Base.Int.{ℤ, pos}
use kustomize_controller.Errors.{
  Error, message, terminal, QueueEventSource, is_terminal, is_not_found, is_access_denied,
  is_artifact_not_found, is_digest_mismatch, queue_event_of,
}
use kustomize_controller.Api.Object.{Kustomization}
use kustomize_controller.Api.Defaults.{get_retry_interval}
use kustomize_controller.Api.Actions.{Action}
use kustomize_controller.Platform.Values.{Source, CtrlResult}
use kustomize_controller.Platform.Conditions.{ready}
use kustomize_controller.Platform.Services.{Platform}
use kustomize_controller.Run.{Act, pure, raise, the_obj, modify, ◌>>=◌, ◌>>◌}
use kustomize_controller.Controller.Config.{KustomizationReconciler}
use kustomize_controller.Controller.Status.{
  event, info_severity, error_severity, mark_false, mark_stalled,
}
use kustomize_controller.Controller.Reconciling.Steps.{Origin}

abbrev pub requeue_now : CtrlResult
requeue_now = record { requeue = true; requeue_after = pos 0 }

abbrev pub requeue_after : ℤ → CtrlResult
requeue_after d = record { requeue = false; requeue_after = d }

abbrev event_title : QueueEventSource → String
event_title q = q.kind <> ("/" <> (q.namespace <> ("/" <> q.name)))

-- `obj.Status.ObservedGeneration = obj.Generation`
abbrev observe_generation : Kustomization → Kustomization
observe_generation k = record k { status = record k.status { observed_generation = k.generation } }

module _ (P : Platform) where
  -- A configuration error: the object is stalled under the current generation until it changes.
  unfoldable pub fail_terminally :
      Option Source → String → String → Action → Error → Error → Act P.World CtrlResult
  unfolding event
  fail_terminally src revision origin action cause returned = do
    let text = "Reconciliation failed terminally due to configuration error: " <> message cause
    mark_false P ready "InvalidCELExpression" text
    mark_stalled P "InvalidCELExpression" text
    modify observe_generation
    event P src revision origin error_severity action text []
    raise returned

  -- The branches for an error of `getSource`.
  unfoldable pub source_failed : Error → Act P.World CtrlResult
  unfolding event
  source_failed e = do
    mark_false P ready "ArtifactFailed" (message e)
    k ← the_obj
    if is_not_found e
        then pure (requeue_after (get_retry_interval k))
        else if is_access_denied e
        then (do
          mark_false P ready "AccessDenied" (message e)
          mark_stalled P "AccessDenied" (message e)
          event P none "" "" error_severity Action.resolve_source (message e) []
          raise (terminal e))
        else raise e

  -- The branches for an error of `checkDependencies`.
  unfoldable pub dependencies_failed :
      KustomizationReconciler → Origin → Error → Act P.World CtrlResult
  unfolding fail_terminally event
  dependencies_failed r o e =
      if is_terminal e
      then fail_terminally (some o.source) o.revision o.origin_revision Action.check_dependencies e
          e
      else do
        mark_false P ready "DependencyNotReady" (message e)
        event P (some o.source) o.revision o.origin_revision info_severity Action.check_dependencies
            ("Dependencies do not meet ready condition, retrying in "
              <> P.duration_string r.dependency_requeue_interval)
            []
        pure (requeue_after r.dependency_requeue_interval)

  -- The branches for an error of `reconcile`.
  unfoldable pub reconcile_failed :
      KustomizationReconciler → Origin → Error → Act P.World CtrlResult
  unfolding event
  reconcile_failed r o e =
      if is_artifact_not_found e || is_digest_mismatch e
      then (do
        mark_false P ready "ArtifactFailed" (
            "Source is not ready, "
            <> ((if is_digest_mismatch e then "artifact digest changed" else "artifact not found")
                <> (", retrying in " <> P.duration_string r.dependency_requeue_interval)))
        pure (requeue_after r.dependency_requeue_interval))
      else elim (queue_event_of e) [
        | some q ↦ do
          mark_false P ready "HealthCheckCanceled"
              ("New reconciliation triggered by " <> event_title q)
          event P (some o.source) o.revision o.origin_revision info_severity Action.health_check
              ("Health checks canceled due to new reconciliation triggered by " <> event_title q) []
          pure requeue_now
        | none ↦ do
          event P (some o.source) o.revision o.origin_revision error_severity Action.reconcile
              (message e) []
          k ← the_obj
          pure (requeue_after (get_retry_interval k))
      ]
