-- ===== src/Controller/Requeuing/Branches.antt =====
-- What the branches of `Reconcile` of internal/controller/kustomization_controller.go for errors
-- answer, and that the stages before `reconcile` leave the spec as it is.
use kustomize_controller.Base.{
  String, ◌<>◌, ◌≡◌, ◌⊎◌, inl, inr, true, false, some, Bool, Option, Bool-cases, arith,
}
use kustomize_controller.Base.Int.{ℤ, pos, lt_ℤ}
use kustomize_controller.Errors.{Error, Result, ok, err, message, is_terminal, Result-cases}
use kustomize_controller.Api.References.{NamespacedName}
use kustomize_controller.Api.Object.{Kustomization, true_status}
use kustomize_controller.Api.Defaults.{get_retry_interval, get_requeue_after}
use kustomize_controller.Api.Actions.{Action}
use kustomize_controller.Platform.Values.{Source, CtrlResult}
use kustomize_controller.Platform.Conditions.{IsLawful, status, ready, stalled}
use kustomize_controller.Platform.Services.{Platform}
use kustomize_controller.Run.{State}
use kustomize_controller.Controller.Config.{KustomizationReconciler}
use kustomize_controller.Controller.Source.{get_source, source_name}
use kustomize_controller.Controller.Reconciling.Steps.{Origin}
use kustomize_controller.Controller.Dispatch.{
  fail_terminally, source_failed, dependencies_failed, reconcile_failed,
}

abbrev pub is_positive : ℤ → Bool
is_positive d = lt_ℤ (pos 0) d

module _ (P : Platform) where
  -- The answer of a run leads to another one: it is requeued at once or after some time, or it is an
  -- error that is retried, or a terminal one, of which the object's Stalled condition tells.
  abbrev pub GoesOn : Result CtrlResult → State P.World → Type 0
  GoesOn (ok a) t = (a.requeue ≡ true) ⊎ (is_positive a.requeue_after ≡ true)
  GoesOn (err e) t =
      (is_terminal e ≡ false)
      ⊎ (status P.conditions t.obj.status.conditions stalled ≡ some true_status)

  pub retry_interval_of_spec :
      (k l : Kustomization) → k.spec ≡ l.spec → get_retry_interval k ≡ get_retry_interval l
  unfolding get_retry_interval
  retry_interval_of_spec k l e = cc e

  pub requeue_after_of_spec :
      (k l : Kustomization) → k.spec ≡ l.spec → get_requeue_after k ≡ get_requeue_after l
  unfolding get_requeue_after
  requeue_after_of_spec k l e = cc e

  -- The errors of a source that the API server does not give are not terminal.
  pub get_source_retried :
      ((direct : Bool) (kind : String) (name : NamespacedName) (w : P.World) (e : Error)
        → (P.get_source_object direct kind name w).0 ≡ err e
        → is_terminal e ≡ false)
      → (r : KustomizationReconciler) (k : Kustomization) (s : State P.World) (e : Error)
      → (get_source P r k s).0 ≡ err e
      → is_terminal e ≡ false
  unfolding get_source is_terminal
  get_source_retried h r k s e at =
      elim (Result-cases
        (P.get_source_object r.direct_source_fetch k.spec.source_ref.kind (source_name k)
          s.world).0) [
            | inl (src, found) ↦ ground arith
            | inr (f, failed) ↦ ground (
              arith,
              h r.direct_source_fetch k.spec.source_ref.kind (source_name k) s.world f failed,
            )
          ]

module _ (P : Platform) (L : IsLawful P.conditions) where
  pub source_failed-GoesOn :
      (e : Error) (s : State P.World)
      → is_terminal e ≡ false
      → is_positive (get_retry_interval s.obj) ≡ true
      → GoesOn P (source_failed P e s).0 (source_failed P e s).1
  unfolding source_failed get_retry_interval
  source_failed-GoesOn e s retried positive = ground (
    arith,
    L.mark_stalled_lem
        (P.conditions.mark_false
          (P.conditions.mark_false s.obj.status.conditions ready "ArtifactFailed" (message e)) ready
          "AccessDenied" (message e))
        "AccessDenied" (message e),
  )

  pub fail_terminally-GoesOn :
      (src : Option Source) (revision origin : String) (action : Action) (cause e : Error)
      (s : State P.World)
      → GoesOn P
          (fail_terminally P src revision origin action cause e s).0
          (fail_terminally P src revision origin action cause e s).1
  unfolding fail_terminally
  fail_terminally-GoesOn src revision origin action cause e s = inr (
      L.mark_stalled_lem _ "InvalidCELExpression"
        ("Reconciliation failed terminally due to configuration error: " <> message cause))

  pub dependencies_failed-GoesOn :
      (r : KustomizationReconciler) (o : Origin) (e : Error) (s : State P.World)
      → is_positive r.dependency_requeue_interval ≡ true
      → GoesOn P (dependencies_failed P r o e s).0 (dependencies_failed P r o e s).1
  unfolding dependencies_failed
  dependencies_failed-GoesOn r o e s positive = elim (Bool-cases (is_terminal e)) [
    | inl t ↦ rw t (
        fail_terminally-GoesOn (some o.source) o.revision o.origin_revision
          Action.check_dependencies e e s)
    | inr f ↦ rw f (inr positive)
  ]

  pub reconcile_failed-GoesOn :
      (r : KustomizationReconciler) (o : Origin) (e : Error) (s : State P.World)
      → is_positive r.dependency_requeue_interval ≡ true
      → is_positive (get_retry_interval s.obj) ≡ true
      → GoesOn P (reconcile_failed P r o e s).0 (reconcile_failed P r o e s).1
  unfolding reconcile_failed get_retry_interval
  reconcile_failed-GoesOn r o e s positive retry = ground arith
