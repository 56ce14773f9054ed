-- ===== src/Controller/Branching.antt =====
-- What `Reconcile` of internal/controller/kustomization_controller.go does with the answers of
-- `getSource`, `checkDependencies` and `reconcile`.
use kustomize_controller.Base.{◌<>◌, none, some, Option}
use kustomize_controller.Errors.{Result, ok, err}
use kustomize_controller.Api.Defaults.{get_requeue_after}
use kustomize_controller.Platform.Values.{Source, Artifact, CtrlResult}
use kustomize_controller.Platform.Conditions.{ready}
use kustomize_controller.Platform.Services.{Platform}
use kustomize_controller.Run.{State, ◌>>◌, the_obj, ask, pure, ◌>>=◌}
use kustomize_controller.Controller.Config.{KustomizationReconciler}
use kustomize_controller.Controller.Building.{BuildServices}
use kustomize_controller.Controller.Status.{mark_false}
use kustomize_controller.Controller.Reconciling.Steps.{Origin, origin_of}
use kustomize_controller.Controller.Reconciling.Stages.{reconcile}
use kustomize_controller.Controller.Dispatch.{
  source_failed, dependencies_failed, reconcile_failed, reconcile_artifact, requeue_after,
}

module _ (P : Platform) (B : BuildServices P.World P.StructMap) (r : KustomizationReconciler)
    (reader : P.StatusReader) where
  -- The answer of `Reconcile` for that of `reconcile`, and the same for `checkDependencies`.
  abbrev pub after_attempt :
      Origin → Result (Unit {0}) → State P.World → Result CtrlResult × State P.World
  after_attempt o answer t = elim answer [
    | err e ↦ reconcile_failed P r o e t
    | ok _ ↦
        (do k' ← the_obj; wait ← ask (P.jittered (get_requeue_after k')); pure (requeue_after wait))
          t
  ]

  abbrev pub attempt : Origin → State P.World → Result CtrlResult × State P.World
  attempt o s = let (answer, t) = reconcile P B r reader o s in after_attempt o answer t

  abbrev pub after_dependencies :
      Origin → Result (Unit {0}) → State P.World → Result CtrlResult × State P.World
  after_dependencies o answer t = elim answer [
    | err e ↦ dependencies_failed P r o e t
    | ok _ ↦ attempt o t
  ]

  -- The rest of `reconcile_source` after `getSource`.
  abbrev pub after_artifact :
      Source → Option Artifact → State P.World → Option Source × Result CtrlResult × State P.World
  after_artifact src found t = elim found [
    | none ↦
        let wait = r.dependency_requeue_interval in
        let (a, u) =
          (do
            mark_false P ready "ArtifactFailed"
                ("Source artifact not found, retrying in " <> P.duration_string wait)
            pure (requeue_after wait))
            t in
        (some src, a, u)
    | some artifact ↦
        let (a, u) = reconcile_artifact P B r reader (origin_of src artifact) t in (some src, a, u)
  ]

  abbrev pub after_source :
      Result Source → State P.World → Option Source × Result CtrlResult × State P.World
  after_source answer t = elim answer [
    | err e ↦ let (a, u) = source_failed P e t in (none, a, u)
    | ok src ↦ after_artifact src src.artifact t
  ]
