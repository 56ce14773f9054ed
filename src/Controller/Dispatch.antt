-- ===== src/Controller/Dispatch.antt =====
-- `Reconcile` of internal/controller/kustomization_controller.go.
mod Failing
use kustomize_controller.Base.{
  String, ◌<>◌, ◌||◌, not, Option, none, some, [], ◌∷◌, is_empty, is_some, true, false,
  if◌then◌else◌,
}
use kustomize_controller.Base.Int.{ℤ, pos}
use kustomize_controller.Errors.{
  Error, Result, ok, err, message, terminal, QueueEventSource, is_terminal, is_not_found,
  is_access_denied, is_artifact_not_found, is_digest_mismatch, queue_event_of,
}
use kustomize_controller.Api.References.{NamespacedName}
use kustomize_controller.Api.Object.{Kustomization, kustomization_finalizer, group}
use kustomize_controller.Api.Defaults.{get_retry_interval, get_requeue_after}
use kustomize_controller.Api.Actions.{Action}
use kustomize_controller.Platform.Values.{Source, CtrlResult}
use kustomize_controller.Platform.Conditions.{ready}
use kustomize_controller.Platform.Services.{Platform}
use kustomize_controller.Run.{
  Act, State, pure, raise, done, ask, the_obj, modify, when, ◌>>=◌, ◌>>◌,
}
use kustomize_controller.Controller.Config.{KustomizationReconciler}
use kustomize_controller.Controller.Status.{
  event, info_severity, error_severity, mark_false, mark_stalled, finalize_status,
}
use kustomize_controller.Controller.Source.{get_source}
use kustomize_controller.Controller.Dependencies.{check_dependencies}
use kustomize_controller.Controller.Building.{BuildServices}
use kustomize_controller.Controller.Reconciling.Steps.{Origin, origin_of}
use kustomize_controller.Controller.Reconciling.Stages.{reconcile}
use kustomize_controller.Controller.Finalizing.{finalize, no_requeue}
unfoldable pub use Failing.{
  requeue_now, requeue_after, fail_terminally, source_failed, dependencies_failed, reconcile_failed,
}

module _ (P : Platform) (B : BuildServices P.World P.StructMap) where
  -- From the source's artifact on.
  unfoldable pub reconcile_artifact :
      KustomizationReconciler → P.StatusReader → Origin → Act P.World CtrlResult
  unfolding dependencies_failed reconcile_failed
  reconcile_artifact r reader o = do
    k ← the_obj
    let attempt : Act P.World CtrlResult = λ s.
        let (answer, t) = reconcile P B r reader o s in
        elim answer [
          | err e ↦ reconcile_failed P r o e t
          | ok _ ↦
              (do
                k' ← the_obj
                wait ← ask (P.jittered (get_requeue_after k'))
                pure (requeue_after wait))
                t
        ]
    if is_empty k.spec.depends_on then attempt else λ s.
        let (answer, t) = check_dependencies P r k o.artifact s in
        elim answer [ err e ↦ dependencies_failed P r o e t | ok _ ↦ attempt t ]

  -- From the resolution of the source on; the source that was found stands beside the answer.
  unfoldable pub reconcile_source :
      KustomizationReconciler
      → P.StatusReader
      → State P.World
      → Option Source × Result CtrlResult × State P.World
  unfolding source_failed reconcile_artifact origin_of
  reconcile_source r reader s =
      let (answer, t) = get_source P r s.obj s in
      elim answer [
        | err e ↦ let (a, u) = source_failed P e t in (none, a, u)
        | ok src ↦ elim src.artifact [
          | none ↦
              let wait = r.dependency_requeue_interval in
              let (a, u) =
                (do
                  mark_false P ready "ArtifactFailed"
                      ("Source artifact not found, retrying in " <> P.duration_string wait)
                  pure (requeue_after wait))
                  t in
              (some src, a, u)
          | some artifact ↦
              let (a, u) = reconcile_artifact r reader (origin_of src artifact) t in
              (some src, a, u)
        ]
      ]

  -- The body of `Reconcile` for an object that was found, without what it defers.
  unfoldable pub reconcile_body :
      KustomizationReconciler → State P.World → Option Source × Result CtrlResult × State P.World
  unfolding reconcile_source fail_terminally
  reconcile_body r s =
      let k = s.obj in
      if is_some k.deletion_timestamp
      then (let (a, t) = finalize P r s in (none, a, t))
      else if not (P.contains_finalizer k.finalizers kustomization_finalizer)
      then (
        none,
        ok requeue_now,
        record s {
          obj = record k { finalizers = P.add_finalizer k.finalizers kustomization_finalizer };
        },
      )
      else if k.spec.suspend
      then (none, ok no_requeue, s)
      else elim (P.new_status_reader k.spec.health_check_exprs) [
        | ok reader ↦ reconcile_source r reader s
        | err e ↦
            let (a, t) = fail_terminally P none "" "" Action.health_check e (terminal e) s in
            (none, a, t)
      ]

  -- The success event of the deferred function.
  unfoldable pub report_success :
      KustomizationReconciler → Option Source → ℤ → Act P.World (Unit {0})
  unfolding event
  report_success r src start = do
    k ← the_obj
    if k.spec.suspend
        then done
        else when (P.conditions.is_ready k.status.conditions) (do
          finish ← ask P.now
          when (not r.disable_commit_status_event) (
              event P src k.status.last_applied_revision k.status.last_applied_origin_revision
                info_severity Action.reconcile
                ("Reconciliation finished in "
                  <> (P.since_string finish start
                      <> (", next run in " <> P.duration_string k.spec.interval)))
                ((group <> "/commit_status", "update") ∷ [])))

  abbrev error_of : {A : Type 0} → Result A → Option Error
  error_of (ok a) = none
  error_of (err e) = some e

  abbrev result_of : Result CtrlResult → CtrlResult
  result_of (ok a) = a
  result_of (err e) = no_requeue

  -- The error that is returned, for that of the body and that of `finalizeStatus`.
  abbrev returned_error : Option Error → Option Error → Option Error
  returned_error failure none = failure
  returned_error failure (some e) = P.new_aggregate failure (some e)

  -- `Reconcile` of an object that was found: the result, the error and the state that it leaves.
  unfoldable pub reconcile_object :
      KustomizationReconciler → ℤ → State P.World → CtrlResult × Option Error × State P.World
  unfolding reconcile_body report_success finalize_status
  reconcile_object r start s =
      let (src, answer, t) = reconcile_body r s in
      let (patched, u) = finalize_status P t in
      let (_, v) = report_success r src start u in
      (result_of answer, returned_error (error_of answer) (error_of patched), v)

  -- `Reconcile`
  unfoldable pub reconcile_request :
      KustomizationReconciler
      → NamespacedName
      → P.World
      → CtrlResult × Option Error × Option (State P.World)
  unfolding reconcile_object
  reconcile_request r name w =
      let (start, w1) = P.now w in
      let (found, w2) = P.get_kustomization name w1 in
      elim found [
        | err e ↦ (no_requeue, if is_not_found e then none else some e, none)
        | ok k ↦
            let (a, e, t) = reconcile_object r start (record { obj = k; world = w2; trace = [] }) in
            (a, e, some t)
      ]
