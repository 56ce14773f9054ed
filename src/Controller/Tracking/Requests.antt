-- ===== src/Controller/Tracking/Requests.antt =====
-- No sequence of runs of `Reconcile` of internal/controller/kustomization_controller.go loses an
-- object.
use kustomize_controller.Base.{
  ◌≡◌, ◌∙◌, ap, String, Bool-cases, Option, none, some, is_empty, true, List, All, inl, inr,
}
use kustomize_controller.Base.Int.{ℤ}
use kustomize_controller.Errors.{Result, ok, err, terminal, Result-cases}
use kustomize_controller.Api.Spec.{KustomizationSpec}
use kustomize_controller.Api.Object.{kustomization_finalizer}
use kustomize_controller.Api.Actions.{Action}
use kustomize_controller.Inventory.Packages.{Unstructured, ChangeSet, IsLawful}
use kustomize_controller.Inventory.Listing.{EntryRoundTrips}
use kustomize_controller.Platform.Values.{Source, Artifact, ApplyOptions}
use kustomize_controller.Platform.Services.{Platform}
use kustomize_controller.Run.{State, Act}
use kustomize_controller.Controller.Config.{KustomizationReconciler}
use kustomize_controller.Controller.Building.{BuildServices}
use kustomize_controller.Controller.Source.{get_source}
use kustomize_controller.Controller.Status.{finalize_status}
use kustomize_controller.Controller.Dependencies.{check_dependencies}
use kustomize_controller.Controller.Reconciling.Steps.{Origin, origin_of}
use kustomize_controller.Controller.Reconciling.Stages.{reconcile}
use kustomize_controller.Controller.Protection.{reconcile-spec}
use kustomize_controller.Controller.Branching.{
  after_attempt, attempt, after_dependencies, after_artifact, after_source,
}
use kustomize_controller.Controller.Dispatch.{
  reconcile_artifact, reconcile_source, reconcile_body, reconcile_object,
}
use kustomize_controller.Controller.Framing.Parts.{Holds, held-spec}
use kustomize_controller.Controller.Framing.Guards.{
  get_source-Holds, check_dependencies-Holds, source_failed-Holds, dependencies_failed-Holds,
  reconcile_failed-Holds, fail_terminally-Holds, finalize_status-Holds, report_success-Holds,
}
use kustomize_controller.Controller.Tracking.Accounts.{Accounted, Accounted-held}
use kustomize_controller.Controller.Tracking.{reconcile_accounts}

module _ (P : Platform) (B : BuildServices P.World P.StructMap) (L : IsLawful P.objects)
    (trips : (client : P.Client) (poller : P.Poller) (us : List Unstructured)
        (options : ApplyOptions) (w : P.World) (set : ChangeSet)
      → (P.apply_all_staged client poller us options w).0.0 ≡ some set
      → All (EntryRoundTrips P.objects) set.entries)
    (k : String) (r : KustomizationReconciler) where
  -- Pruning is on, and the identifier is accounted for.
  abbrev Guarded : State P.World → Type 0
  Guarded t = (t.obj.spec.prune ≡ true) × Accounted P k t

  Holds-Guarded :
      {A : Type 0} (m : Act P.World A)
      → Holds P m
      → (s : State P.World) → Guarded s
      → Guarded (m s).1
  Holds-Guarded m h s (on, a) = (
    ap (λ (spec : KustomizationSpec). spec.prune) (held-spec P s (m s).1 (h.keeps s)) ∙ on,
    Accounted-held P k s (m s).1 (h.keeps s) a,
  )

  module _ (reader : P.StatusReader) where
    after_attempt-Guarded :
        (o : Origin) (answer : Result (Unit {0})) (t : State P.World)
        → Guarded t
        → Guarded (after_attempt P B r reader o answer t).1
    after_attempt-Guarded o (ok tt) t g = g
    after_attempt-Guarded o (err e) t g = Holds-Guarded _ (reconcile_failed-Holds P r o e) t g

    attempt-Guarded :
        (o : Origin) (s : State P.World) → Guarded s → Guarded (attempt P B r reader o s).1
    attempt-Guarded o s (on, a) =
        after_attempt-Guarded o (reconcile P B r reader o s).0 (reconcile P B r reader o s).1 (
          ap (λ (spec : KustomizationSpec). spec.prune) (reconcile-spec P o B r reader s) ∙ on,
          reconcile_accounts P B L trips k r reader o s on a,
        )

    after_dependencies-Guarded :
        (o : Origin) (answer : Result (Unit {0})) (t : State P.World)
        → Guarded t
        → Guarded (after_dependencies P B r reader o answer t).1
    after_dependencies-Guarded o (ok tt) t g = attempt-Guarded o t g
    after_dependencies-Guarded o (err e) t g =
        Holds-Guarded _ (dependencies_failed-Holds P r o e) t g

    reconcile_artifact-Guarded :
        (o : Origin) (s : State P.World)
        → Guarded s
        → Guarded (reconcile_artifact P B r reader o s).1
    unfolding reconcile_artifact
    reconcile_artifact-Guarded o s g = elim (Bool-cases (is_empty s.obj.spec.depends_on)) [
      | inl e ↦ rw e (attempt-Guarded o s g)
      | inr e ↦ rw e (
          after_dependencies-Guarded o (check_dependencies P r s.obj o.artifact s).0
            (check_dependencies P r s.obj o.artifact s).1
            (Holds-Guarded _ (check_dependencies-Holds P r s.obj o.artifact) s g))
    ]

    after_artifact-Guarded :
        (src : Source) (found : Option Artifact) (t : State P.World)
        → Guarded t
        → Guarded (after_artifact P B r reader src found t).2
    after_artifact-Guarded src none t g = g
    after_artifact-Guarded src (some a) t g = reconcile_artifact-Guarded (origin_of src a) t g

    after_source-Guarded :
        (answer : Result Source) (t : State P.World)
        → Guarded t
        → Guarded (after_source P B r reader answer t).2
    after_source-Guarded (err e) t g = Holds-Guarded _ (source_failed-Holds P e) t g
    after_source-Guarded (ok src) t g = after_artifact-Guarded src src.artifact t g

    reconcile_source-Guarded :
        (s : State P.World) → Guarded s → Guarded (reconcile_source P B r reader s).2
    unfolding reconcile_source
    reconcile_source-Guarded s g =
        after_source-Guarded (get_source P r s.obj s).0 (get_source P r s.obj s).1
          (Holds-Guarded _ (get_source-Holds P r s.obj) s g)

  reconcile_body-Guarded :
      (s : State P.World)
      → s.obj.deletion_timestamp ≡ none
      → Guarded s
      → Guarded (reconcile_body P B r s).2
  unfolding reconcile_body
  reconcile_body-Guarded s alive g =
      elim (Bool-cases (P.contains_finalizer s.obj.finalizers kustomization_finalizer)) [
        | inr fresh ↦ simp (alive, fresh) g
        | inl kept ↦ elim (Bool-cases s.obj.spec.suspend) [
          | inl paused ↦ simp (alive, kept, paused) g
          | inr active ↦ elim (Result-cases (P.new_status_reader s.obj.spec.health_check_exprs)) [
            | inl (reader, e) ↦ simp (alive, kept, active, e) (reconcile_source-Guarded reader s g)
            | inr (f, e) ↦
                simp (alive, kept, active, e)
                  (Holds-Guarded _
                    (fail_terminally-Holds P none "" "" Action.health_check f (terminal f)) s g)
          ]
        ]
      ]

  -- One run, of an object that is not being deleted and has pruning on.
  pub reconcile_object_accounts :
      (start : ℤ) (s : State P.World)
      → s.obj.deletion_timestamp ≡ none
      → s.obj.spec.prune ≡ true
      → Accounted P k s
      → Accounted P k (reconcile_object P B r start s).2
  unfolding reconcile_object
  reconcile_object_accounts start s alive on a =
      let g = reconcile_body-Guarded s alive (on, a) in
      let body = reconcile_body P B r s in
      let f = Holds-Guarded _ (finalize_status-Holds P) body.2 g in
      (Holds-Guarded _ (report_success-Holds P B r body.0 start) (finalize_status P body.2).1 f).1

module _ (P : Platform) (B : BuildServices P.World P.StructMap) where
  -- Runs of `Reconcile` one after the other, of an object that is not being deleted and that has
  -- pruning on. Between two runs anything may happen to the world and to the object but to the
  -- inventory of its status; the trace is that of all runs.
  pub data Runs (s0 : State P.World) : State P.World → Type 0 where
    none_yet : Runs s0 s0
    run :
        {s : State P.World}
        → Runs s0 s
        → (r : KustomizationReconciler) (start : ℤ) (t : State P.World)
        → t.obj.status.inventory ≡ s.obj.status.inventory
        → t.trace ≡ s.trace
        → t.obj.deletion_timestamp ≡ none
        → t.obj.spec.prune ≡ true
        → Runs s0 (reconcile_object P B r start t).2

  Accounted-same :
      (k : String) (s t : State P.World)
      → t.obj.status.inventory ≡ s.obj.status.inventory
      → t.trace ≡ s.trace
      → Accounted P k s
      → Accounted P k t
  Accounted-same k s t e f a = rw (e, f) a

  -- Whatever runs of `Reconcile` follow each other, on an object that is not being deleted and has
  -- pruning on, no object is lost: if at the start an identifier is tracked by the inventory of the
  -- status, or an object with it has been released, and all tracked identifiers can be read back, the
  -- same holds at the end. The change sets of `ApplyAllStaged` have identifiers that can be read back,
  -- and an object is released by a call of `DeleteAll` that is given it and that returns no error or
  -- reports it as deleted or skipped.
  pub runs_account :
      IsLawful P.objects
      → ((client : P.Client) (poller : P.Poller) (us : List Unstructured) (options : ApplyOptions)
            (w : P.World) (set : ChangeSet)
          → (P.apply_all_staged client poller us options w).0.0 ≡ some set
          → All (EntryRoundTrips P.objects) set.entries)
      → (k : String) {s0 s : State P.World} → Runs s0 s
      → Accounted P k s0
      → Accounted P k s
  runs_account L trips k none_yet a = a
  runs_account L trips k (run {s} before r start t e f alive on) a =
      reconcile_object_accounts P B L trips k r start t alive on
        (Accounted-same k s t e f (runs_account L trips k before a))
