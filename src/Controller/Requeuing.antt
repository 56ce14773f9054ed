-- ===== src/Controller/Requeuing.antt =====
-- Every branch of `Reconcile` of internal/controller/kustomization_controller.go for an object that
-- is there to be applied leads to another run.
pub mod Branches
use kustomize_controller.Base.{
  Option-cases, is_some, String, not, ◌&&◌, ◌==◌, ◌<>◌, ◌≡◌, refl, ◌∙◌, ap, ◌⊎◌, inl, inr, true,
  false, none, some, Bool, Option, Bool-cases, List, [], ◌∷◌, arith, is_empty, eq_iff,
}
use kustomize_controller.Base.Int.{ℤ, pos, lt_ℤ}
use kustomize_controller.Errors.{
  Error, Result, ok, err, message, terminal, is_terminal, Result-cases, QueueEventSource,
  queue_event_of,
}
use kustomize_controller.Api.References.{NamespacedName, DependencyReference}
use kustomize_controller.Api.Spec.{KustomizationSpec}
use kustomize_controller.Api.Object.{
  ConditionStatus, Kustomization, true_status, kustomization_finalizer,
}
use kustomize_controller.Api.Defaults.{get_retry_interval, get_requeue_after}
use kustomize_controller.Api.Actions.{Action}
use kustomize_controller.Platform.Values.{Source, Artifact, CtrlResult, dependency_read}
use kustomize_controller.Platform.Conditions.{IsLawful, status, ready, stalled}
use kustomize_controller.Platform.Services.{Platform}
use kustomize_controller.Run.{
  State, ◌>>◌, wrap_error, lift, leave, call, done, the_obj, ask, pure, ◌>>=◌,
}
use kustomize_controller.Run.Frames.{Keeps, bind-Keeps, on_error-Keeps, if-Keeps}
use kustomize_controller.Controller.Config.{KustomizationReconciler}
use kustomize_controller.Controller.Building.{BuildServices}
use kustomize_controller.Controller.Status.{mark_false}
use kustomize_controller.Controller.Source.{get_source, name_string, source_name}
use kustomize_controller.Controller.Dependencies.{
  check_dependency, check_each, dependency_name, check_dependencies, check_expression,
  check_builtin, eval_ready_expr,
}
use kustomize_controller.Controller.Protection.{reconcile-spec}
use kustomize_controller.Controller.Reconciling.Steps.{Origin, origin_of}
use kustomize_controller.Controller.Reconciling.Stages.{reconcile}
use kustomize_controller.Controller.Dispatch.{
  fail_terminally, source_failed, dependencies_failed, reconcile_failed, reconcile_artifact,
  reconcile_source, reconcile_body, requeue_after,
}
use kustomize_controller.Controller.Framing.Parts.{held-spec}
use kustomize_controller.Controller.Framing.Guards.{get_source-Holds, check_dependencies-Holds}
use kustomize_controller.Controller.Branching.{
  after_attempt, attempt, after_dependencies, after_artifact, after_source,
}
use Branches.{
  is_positive, GoesOn, retry_interval_of_spec, requeue_after_of_spec, get_source_retried,
  source_failed-GoesOn, fail_terminally-GoesOn, dependencies_failed-GoesOn, reconcile_failed-GoesOn,
}

module _ (P : Platform) (B : BuildServices P.World P.StructMap) (L : IsLawful P.conditions)
    (r : KustomizationReconciler) (reader : P.StatusReader)
    (waits : is_positive r.dependency_requeue_interval ≡ true)
    (spreads : (d : ℤ) (w : P.World)
      → is_positive d ≡ true
      → is_positive (P.jittered d w).0 ≡ true) where
  abbrev Positive : Kustomization → Type 0
  Positive k =
      (is_positive (get_retry_interval k) ≡ true) × (is_positive (get_requeue_after k) ≡ true)

  Positive-spec : (k l : Kustomization) → l.spec ≡ k.spec → Positive k → Positive l
  Positive-spec k l e (a, b) =
      (rw (retry_interval_of_spec P l k e) a, rw (requeue_after_of_spec P l k e) b)

  abbrev Continues : Result CtrlResult × State P.World → Type 0
  Continues (a, t) = GoesOn P a t

  after_attempt-Continues :
      (o : Origin) (answer : Result (Unit {0})) (t : State P.World)
      → Positive t.obj
      → Continues (after_attempt P B r reader o answer t)
  after_attempt-Continues o (ok tt) t (a, b) = inr (spreads (get_requeue_after t.obj) t.world b)
  after_attempt-Continues o (err e) t (a, b) = reconcile_failed-GoesOn P L r o e t waits a

  attempt-Continues :
      (o : Origin) (s : State P.World) → Positive s.obj → Continues (attempt P B r reader o s)
  attempt-Continues o s h =
      after_attempt-Continues o (reconcile P B r reader o s).0 (reconcile P B r reader o s).1
        (Positive-spec s.obj _ (reconcile-spec P o B r reader s) h)

  after_dependencies-Continues :
      (o : Origin) (answer : Result (Unit {0})) (t : State P.World)
      → Positive t.obj
      → Continues (after_dependencies P B r reader o answer t)
  after_dependencies-Continues o (ok tt) t h = attempt-Continues o t h
  after_dependencies-Continues o (err e) t h = dependencies_failed-GoesOn P L r o e t waits

  reconcile_artifact-Continues :
      (o : Origin) (s : State P.World)
      → Positive s.obj
      → Continues (reconcile_artifact P B r reader o s)
  unfolding reconcile_artifact
  reconcile_artifact-Continues o s h = elim (Bool-cases (is_empty s.obj.spec.depends_on)) [
    | inl e ↦ rw e (attempt-Continues o s h)
    | inr e ↦ rw e (
        after_dependencies-Continues o (check_dependencies P r s.obj o.artifact s).0
          (check_dependencies P r s.obj o.artifact s).1
          (Positive-spec s.obj _
            (held-spec P s (check_dependencies P r s.obj o.artifact s).1
              ((check_dependencies-Holds P r s.obj o.artifact).keeps s))
            h))
  ]

  abbrev SourceContinues : Option Source × Result CtrlResult × State P.World → Type 0
  SourceContinues (src, a, t) = GoesOn P a t

  after_artifact-SourceContinues :
      (src : Source) (found : Option Artifact) (t : State P.World)
      → Positive t.obj
      → SourceContinues (after_artifact P B r reader src found t)
  after_artifact-SourceContinues src none t p = inr waits
  after_artifact-SourceContinues src (some a) t p =
      reconcile_artifact-Continues (origin_of src a) t p

  after_source-SourceContinues :
      (answer : Result Source) (t : State P.World)
      → ((e : Error) → answer ≡ err e → is_terminal e ≡ false)
      → Positive t.obj
      → SourceContinues (after_source P B r reader answer t)
  after_source-SourceContinues (err e) t h p = source_failed-GoesOn P L e t (h e refl) p.0
  after_source-SourceContinues (ok src) t h p = after_artifact-SourceContinues src src.artifact t p

  reconcile_source-SourceContinues :
      (s : State P.World)
      → ((e : Error) → (get_source P r s.obj s).0 ≡ err e → is_terminal e ≡ false)
      → Positive s.obj
      → SourceContinues (reconcile_source P B r reader s)
  unfolding reconcile_source
  reconcile_source-SourceContinues s h p =
      after_source-SourceContinues (get_source P r s.obj s).0 (get_source P r s.obj s).1 h (
        Positive-spec s.obj _
          (held-spec P s (get_source P r s.obj s).1 ((get_source-Holds P r s.obj).keeps s)) p)

module _ (P : Platform) (B : BuildServices P.World P.StructMap) (L : IsLawful P.conditions)
    (r : KustomizationReconciler) where
  -- The Kustomization of the state is not being deleted and not suspended. With positive intervals in
  -- its spec and in the reconciler, a jitter that keeps an interval positive, and an API server whose
  -- errors for sources are not terminal ones, `Reconcile` always leads to another run: without an
  -- error the object is requeued at once or after a positive time, and an error is one that is
  -- retried, unless it leaves the object with a true Stalled condition.
  pub reconcile_body-GoesOn :
      (s : State P.World)
      → is_positive r.dependency_requeue_interval ≡ true
      → ((d : ℤ) (w : P.World) → is_positive d ≡ true → is_positive (P.jittered d w).0 ≡ true)
      → ((direct : Bool) (kind : String) (name : NamespacedName) (w : P.World) (e : Error)
          → (P.get_source_object direct kind name w).0 ≡ err e
          → is_terminal e ≡ false)
      → is_positive (get_retry_interval s.obj) ≡ true
      → is_positive (get_requeue_after s.obj) ≡ true
      → s.obj.deletion_timestamp ≡ none
      → s.obj.spec.suspend ≡ false
      → GoesOn P (reconcile_body P B r s).1 (reconcile_body P B r s).2
  unfolding reconcile_body
  reconcile_body-GoesOn s waits spreads retried a b alive active =
      elim (Bool-cases (P.contains_finalizer s.obj.finalizers kustomization_finalizer)) [
        | inr fresh ↦ rw (alive, fresh) (inl refl)
        | inl kept ↦ elim (Result-cases (P.new_status_reader s.obj.spec.health_check_exprs)) [
          | inl (reader, e) ↦
              rw (alive, kept, active, e)
                (reconcile_source-SourceContinues P B L r reader waits spreads s
                  (get_source_retried P retried r s.obj s) (a, b))
          | inr (f, e) ↦
              rw (alive, kept, active, e)
                (fail_terminally-GoesOn P L none "" "" Action.health_check f (terminal f) s)
        ]
      ]
