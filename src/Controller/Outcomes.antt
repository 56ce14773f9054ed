-- ===== src/Controller/Outcomes.antt =====
-- What `Reconcile` and `reconcile` of internal/controller/kustomization_controller.go leave in the
-- status of the object.
use kustomize_controller.Base.{String, ◌≡◌, refl, some}
use kustomize_controller.Base.Int.{ℤ}
use kustomize_controller.Errors.{ok}
use kustomize_controller.Api.Object.{true_status}
use kustomize_controller.Api.Inventory.{ResourceInventory}
use kustomize_controller.Platform.Conditions.{IsLawful, status, ready}
use kustomize_controller.Platform.Services.{Platform}
use kustomize_controller.Run.{State, Act, ask, the_obj, wrap_error}
use kustomize_controller.Run.Frames.{Ensures, bind-Ensures}
use kustomize_controller.Controller.Config.{KustomizationReconciler}
use kustomize_controller.Controller.Building.{BuildServices}
use kustomize_controller.Controller.Reconciling.Steps.{
  Origin, record_attempt, fetch_stage, report_progress, or_fail, mkdir_temp_abs, inventory_or_new,
}
use kustomize_controller.Controller.Status.{mark_unknown}
use kustomize_controller.Controller.Reconciling.Stages.{
  with_cleanup, build_stage, apply_stage, garbage_stage, health_stage, success_stage, reconcile_in,
  reconcile,
}

-- The revision of the source is applied, and Ready is true.
pub record Applied (P : Platform) (o : Origin) (s : State P.World) : Type 0 where
  pub revision : s.obj.status.last_applied_revision ≡ o.revision
  pub origin_revision : s.obj.status.last_applied_origin_revision ≡ o.origin_revision
  pub is_ready : status P.conditions s.obj.status.conditions ready ≡ some true_status

module _ (P : Platform) (L : IsLawful P.conditions) (o : Origin) where
  success_stage-Applied :
      (checksum : String) (start : ℤ) → Ensures (Applied P o) (success_stage P checksum o start)
  unfolding success_stage record_attempt
  success_stage-Applied checksum start = record {
    ensures = λ s a h. record {
      revision = refl;
      origin_revision = refl;
      is_ready = L.status-mark_true s.obj.status.conditions ready _ _ ready;
    };
  }

  module _ (B : BuildServices P.World P.StructMap) (r : KustomizationReconciler)
      (reader : P.StatusReader) where
    reconcile_in-Applied :
        (start : ℤ) (old : ResourceInventory) (dir : String)
        → Ensures (Applied P o) (reconcile_in P B r reader o start old dir)
    unfolding reconcile_in
    reconcile_in-Applied start old dir =
        bind-Ensures (Applied P o) (fetch_stage P r o dir) _ λ path.
          bind-Ensures (Applied P o) (build_stage P B r reader o dir path) _ λ b.
            bind-Ensures (Applied P o) (apply_stage P r b o start) _ λ applied.
              bind-Ensures (Applied P o) (garbage_stage P b o start old applied.1) _ λ _.
                bind-Ensures (Applied P o) (health_stage P r b o start applied.0 applied.1) _
                  λ _. success_stage-Applied b.checksum start

    with_cleanup-Applied :
        (dir : String) (m : Act P.World (Unit {0}))
        → Ensures (Applied P o) m
        → Ensures (Applied P o) (with_cleanup P B dir m)
    unfolding with_cleanup
    with_cleanup-Applied dir m h = record {
      ensures = λ s a e.
          let done = h.ensures s a e in
          record {
            revision = done.revision;
            origin_revision = done.origin_revision;
            is_ready = done.is_ready;
          };
    }

    reconcile-Applied : Ensures (Applied P o) (reconcile P B r reader o)
    unfolding reconcile
    reconcile-Applied = bind-Ensures (Applied P o) (ask P.now) _ λ start.
        bind-Ensures (Applied P o) (mark_unknown P ready "Progressing" "Reconciliation in progress")
          _
          λ _. bind-Ensures (Applied P o) (report_progress P "Fetching manifests" o) _ λ _.
            bind-Ensures (Applied P o) the_obj _ λ k.
              bind-Ensures (Applied P o)
                (or_fail P "DirectoryCreationFailed"
                  (wrap_error "tmp dir error: " (mkdir_temp_abs P "kustomization-")))
                _
                λ dir.
                  with_cleanup-Applied dir _
                    (reconcile_in-Applied start (inventory_or_new k.status.inventory) dir)

    -- If `reconcile` succeeds, the revisions of the source are the last applied ones, and Ready is
    -- true.
    pub reconcile_succeeds :
        (s : State P.World)
        → (reconcile P B r reader o s).0 ≡ ok tt
        → Applied P o (reconcile P B r reader o s).1
    reconcile_succeeds s h = reconcile-Applied.ensures s tt h
