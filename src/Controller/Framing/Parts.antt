-- ===== src/Controller/Framing/Parts.antt =====
-- What single steps of `reconcile` of internal/controller/kustomization_controller.go leave alone.
use kustomize_controller.Base.{◌≡◌, String, refl, Bool, Option, List, any, arith}
use kustomize_controller.Base.Int.{ℤ}
use kustomize_controller.Errors.{Error}
use kustomize_controller.Api.Spec.{KustomizationSpec}
use kustomize_controller.Api.Object.{Kustomization}
use kustomize_controller.Api.Inventory.{ResourceInventory}
use kustomize_controller.Inventory.Packages.{ChangeSet, ObjMetadata, Unstructured}
use kustomize_controller.Platform.Values.{Source, Effect}
use kustomize_controller.Platform.Services.{Platform}
use kustomize_controller.Run.{Act, State, the_obj, wrap_error}
use kustomize_controller.Run.Frames.{Keeps, bind-Keeps, on_error-Keeps}
use kustomize_controller.Controller.Config.{KustomizationReconciler}
use kustomize_controller.Controller.Clients.{reconcile_client}
use kustomize_controller.Controller.Applying.{apply, apply_objects}
use kustomize_controller.Controller.Health.{check_health}
use kustomize_controller.Controller.Encryption.{apply_protects}
use kustomize_controller.Controller.Traces.{leaks_secret, deletions}
use kustomize_controller.Controller.Reconciling.Steps.{
  Built, Origin, fetch_stage, report_progress, or_fail, mkdir_temp_abs, attempt_failed,
  record_attempt, fail_as,
}
use kustomize_controller.Controller.Reconciling.Stages.{success_stage, apply_stage}

module _ (P : Platform) where
  -- Whether an encrypted Secret has been applied, the deletions, the spec and the inventory.
  abbrev pub kept : State P.World → List Effect × KustomizationSpec × Option ResourceInventory
  kept s = (deletions s.trace, s.obj.spec, s.obj.status.inventory)

  abbrev pub held :
      State P.World → Bool × (List Effect × KustomizationSpec × Option ResourceInventory)
  held s = (any leaks_secret s.trace, kept s)

  -- The parts of what is held.
  pub held-deletions :
      (s t : State P.World) → held t ≡ held s → deletions t.trace ≡ deletions s.trace
  held-deletions s t h = cc h

  pub held-spec : (s t : State P.World) → held t ≡ held s → t.obj.spec ≡ s.obj.spec
  held-spec s t h = cc h

  pub held-inventory :
      (s t : State P.World) → held t ≡ held s → t.obj.status.inventory ≡ s.obj.status.inventory
  held-inventory s t h = cc h

  abbrev pub Holds : {A : Type 0} → Act P.World A → Type 0
  Holds m = Keeps held m

module _ (P : Platform) (o : Origin) where
  pub report_progress-Holds : (stage : String) → Holds P (report_progress P stage o)
  unfolding report_progress deletions
  report_progress-Holds stage = record { keeps = λ s. ground arith }

  pub attempt_failed-Holds :
      {A : Type 0} (checksum : String) (start : ℤ) (reason : String) (e : Error)
      → Holds P (attempt_failed P {A = A} checksum start reason o e)
  unfolding attempt_failed
  attempt_failed-Holds checksum start reason e = record { keeps = λ s. refl }

  pub or_fail-Holds :
      {A : Type 0} (reason : String) (m : Act P.World A) → Holds P m → Holds P (or_fail P reason m)
  or_fail-Holds reason m h =
      on_error-Keeps (held P) m (fail_as P reason) h (λ e. record { keeps = λ s. refl })

  pub fetch_stage-Holds :
      (r : KustomizationReconciler) (dir : String) → Holds P (fetch_stage P r o dir)
  unfolding fetch_stage deletions
  fetch_stage-Holds r dir = record { keeps = λ s. ground arith }

  pub mkdir_temp_abs-Holds : (prefix : String) → Holds P (mkdir_temp_abs P prefix)
  unfolding mkdir_temp_abs deletions
  mkdir_temp_abs-Holds prefix = record { keeps = λ s. ground arith }

  pub reconcile_client-Holds :
      (r : KustomizationReconciler) (k : Kustomization) (reader : P.StatusReader)
      → Holds P (reconcile_client P r k reader)
  unfolding reconcile_client deletions
  reconcile_client-Holds r k reader = record { keeps = λ s. ground arith }

  pub wrap_error-Holds :
      {A : Type 0} (text : String) (m : Act P.World A) → Holds P m → Holds P (wrap_error text m)
  wrap_error-Holds text m h = on_error-Keeps (held P) m _ h (λ e. record { keeps = λ s. refl })

  pub check_health-Holds :
      (r : KustomizationReconciler) (k : Kustomization) (b : Built P.Client P.Poller)
      (is_new drifted : Bool) (set : ChangeSet) (src : Option Source) (jobs : List ObjMetadata)
      → Holds P
          (check_health P r k b.client src o.revision o.origin_revision is_new drifted set jobs)
  unfolding check_health deletions
  check_health-Holds r k b is_new drifted set src jobs = record { keeps = λ s. ground arith }

  pub success_stage-Holds :
      (checksum : String) (start : ℤ) → Holds P (success_stage P checksum o start)
  unfolding success_stage record_attempt
  success_stage-Holds checksum start = record { keeps = λ s. refl }

module _ (P : Platform) (o : Origin) where
  pub mkdir-Holds : Holds P (
      or_fail P "DirectoryCreationFailed"
        (wrap_error "tmp dir error: " (mkdir_temp_abs P "kustomization-")))
  mkdir-Holds = or_fail-Holds P o _ _ (wrap_error-Holds P o _ _ (mkdir_temp_abs-Holds P o _))

module _ (P : Platform) where
  apply_objects-Keeps :
      (r : KustomizationReconciler) (k : Kustomization) (client : P.Client × P.Poller)
      (objects : List Unstructured)
      → Keeps (kept P) (apply_objects P r k client objects)
  unfolding apply_objects deletions
  apply_objects-Keeps r k client objects = record { keeps = λ s. ground arith }

  apply-Keeps :
      (r : KustomizationReconciler) (k : Kustomization) (client : P.Client × P.Poller)
      (src : Option Source) (revision origin : String) (objects : List Unstructured)
      → Keeps (kept P) (apply P r k client src revision origin objects)
  unfolding apply deletions
  apply-Keeps r k client src revision origin objects = record { keeps = λ s. ground arith }

  pub apply-Holds :
      (r : KustomizationReconciler) (k : Kustomization) (client : P.Client × P.Poller)
      (src : Option Source) (revision origin : String) (objects : List Unstructured)
      → Holds P (apply P r k client src revision origin objects)
  apply-Holds r k client src revision origin objects = record {
    keeps = λ s. cc (
      apply_protects P r k client src revision origin objects s,
      (apply-Keeps r k client src revision origin objects).keeps s,
    );
  }

  pub apply_stage-Holds :
      (o : Origin) (r : KustomizationReconciler) (b : Built P.Client P.Poller) (start : ℤ)
      → Holds P (apply_stage P r b o start)
  unfolding apply_stage
  apply_stage-Holds o r b start =
      bind-Keeps (held P) the_obj _ (record { keeps = λ s. refl })
        λ k.
          on_error-Keeps (held P) (apply P r k b.client _ o.revision o.origin_revision b.objects) _
            (apply-Holds r k b.client _ o.revision o.origin_revision b.objects)
            (λ e. attempt_failed-Holds P o b.checksum start "ReconciliationFailed" _)
