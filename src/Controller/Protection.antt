-- ===== src/Controller/Protection.antt =====
-- The whole of `reconcile` of internal/controller/kustomization_controller.go applies no encrypted
-- Secret: no stage but `apply` applies objects. Nor does it change the spec.
use kustomize_controller.Base.{String, ◌≡◌, refl, ap, Bool, Option, List, any, arith}
use kustomize_controller.Base.Int.{ℤ}
use kustomize_controller.Api.Spec.{KustomizationSpec}
use kustomize_controller.Api.Inventory.{ResourceInventory}
use kustomize_controller.Inventory.Packages.{ChangeSet}
use kustomize_controller.Platform.Values.{Effect}
use kustomize_controller.Platform.Conditions.{ready}
use kustomize_controller.Platform.Services.{Platform}
use kustomize_controller.Run.{Act, State, ask, the_obj, wrap_error}
use kustomize_controller.Run.Frames.{Keeps, bind-Keeps}
use kustomize_controller.Controller.Config.{KustomizationReconciler}
use kustomize_controller.Controller.Status.{mark_unknown}
use kustomize_controller.Controller.Garbage.{prune}
use kustomize_controller.Controller.Building.{BuildServices}
use kustomize_controller.Controller.Traces.{leaks_secret}
use kustomize_controller.Controller.Reconciling.Steps.{
  Built, Origin, fetch_stage, report_progress, or_fail, mkdir_temp_abs, inventory_or_new,
  attempt_failed,
}
use kustomize_controller.Controller.Reconciling.Stages.{
  retrack, garbage_stage, health_stage, apply_stage, build_stage, reconcile_in, with_cleanup,
  reconcile,
}
use kustomize_controller.Controller.Framing.Parts.{
  Holds, report_progress-Holds, fetch_stage-Holds, mkdir-Holds, apply_stage-Holds,
  success_stage-Holds,
}
use kustomize_controller.Controller.Framing.{build_stage-Holds, health_stage-Holds}

module _ (P : Platform) where
  -- Whether an encrypted Secret has been applied, and the spec.
  abbrev steady : State P.World → Bool × KustomizationSpec
  steady s = (any leaks_secret s.trace, s.obj.spec)

  held-steady : {A : Type 0} (m : Act P.World A) → Holds P m → Keeps steady m
  held-steady m h = record {
    keeps = λ s.
        ap
          (λ (x : Bool × (List Effect × KustomizationSpec × Option ResourceInventory)).
            (x.0, x.1.1))
          (h.keeps s);
  }

  garbage_stage-steady :
      (o : Origin) (b : Built P.Client P.Poller) (start : ℤ) (old : ResourceInventory)
      (set : ChangeSet)
      → Keeps steady (garbage_stage P b o start old set)
  unfolding garbage_stage prune retrack attempt_failed
  garbage_stage-steady o b start old set = record { keeps = λ s. ground arith }

module _ (P : Platform) (o : Origin) (B : BuildServices P.World P.StructMap) where
  reconcile_in-steady :
      (r : KustomizationReconciler) (reader : P.StatusReader) (start : ℤ) (old : ResourceInventory)
      (dir : String)
      → Keeps (steady P) (reconcile_in P B r reader o start old dir)
  unfolding reconcile_in
  reconcile_in-steady r reader start old dir =
      bind-Keeps (steady P) (fetch_stage P r o dir) _
        (held-steady P _ (fetch_stage-Holds P o r dir))
        λ path.
          bind-Keeps (steady P) (build_stage P B r reader o dir path) _
            (held-steady P _ (build_stage-Holds P o B r reader dir path))
            λ b.
              bind-Keeps (steady P) (apply_stage P r b o start) _
                (held-steady P _ (apply_stage-Holds P o r b start))
                λ applied.
                  bind-Keeps (steady P) (garbage_stage P b o start old applied.1) _
                    (garbage_stage-steady P o b start old applied.1)
                    λ _.
                      bind-Keeps (steady P) (health_stage P r b o start applied.0 applied.1) _
                        (held-steady P _ (health_stage-Holds P o B r b start applied.0 applied.1))
                        λ _. held-steady P _ (success_stage-Holds P o b.checksum start)

  with_cleanup-steady :
      (dir : String) (m : Act P.World (Unit {0}))
      → Keeps (steady P) m
      → Keeps (steady P) (with_cleanup P B dir m)
  unfolding with_cleanup
  with_cleanup-steady dir m h = record { keeps = h.keeps }

  reconcile-steady :
      (r : KustomizationReconciler) (reader : P.StatusReader)
      → Keeps (steady P) (reconcile P B r reader o)
  unfolding reconcile
  reconcile-steady r reader =
      bind-Keeps (steady P) (ask P.now) _ (record { keeps = λ s. refl })
        λ start.
          bind-Keeps (steady P) (mark_unknown P ready "Progressing" "Reconciliation in progress") _
            (record { keeps = λ s. refl })
            λ _.
              bind-Keeps (steady P) (report_progress P "Fetching manifests" o) _
                (held-steady P _ (report_progress-Holds P o _))
                λ _.
                  bind-Keeps (steady P) the_obj _ (record { keeps = λ s. refl })
                    λ k.
                      bind-Keeps (steady P)
                        (or_fail P "DirectoryCreationFailed"
                          (wrap_error "tmp dir error: " (mkdir_temp_abs P "kustomization-")))
                        _ (held-steady P _ (mkdir-Holds P o))
                        λ dir. with_cleanup-steady dir _ (
                          reconcile_in-steady r reader start (inventory_or_new k.status.inventory)
                            dir)

  -- A run of `reconcile`, whether it succeeds or fails, makes no difference to whether an encrypted
  -- Secret that does not ask to be left so has been applied.
  pub reconcile_protects :
      (r : KustomizationReconciler) (reader : P.StatusReader) (s : State P.World)
      → any leaks_secret (reconcile P B r reader o s).1.trace ≡ any leaks_secret s.trace
  reconcile_protects r reader s =
      ap (λ (x : Bool × KustomizationSpec). x.0) ((reconcile-steady r reader).keeps s)

  -- A run of `reconcile` leaves the spec as it is.
  pub reconcile-spec :
      (r : KustomizationReconciler) (reader : P.StatusReader) (s : State P.World)
      → (reconcile P B r reader o s).1.obj.spec ≡ s.obj.spec
  reconcile-spec r reader s =
      ap (λ (x : Bool × KustomizationSpec). x.1) ((reconcile-steady r reader).keeps s)
