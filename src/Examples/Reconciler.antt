-- ===== src/Examples/Reconciler.antt =====
-- The theorems on the stages of `reconcile` at concrete values.
use kustomize_controller.Base.{◌≡◌, refl, false, some, ◌∷◌, [], ◌++◌, inl, inr, contains, any}
use kustomize_controller.Base.Int.{pos}
use kustomize_controller.Errors.{Error, ok, err, text_error}
use kustomize_controller.Api.Inventory.{ResourceInventory}
use kustomize_controller.Inventory.Operations.{add_change_set, reference_to_obj_metadata_set, diff}
use kustomize_controller.Inventory.Stale.{ref}
use kustomize_controller.Controller.Garbage.{prune}
use kustomize_controller.Controller.Applying.{apply}
use kustomize_controller.Controller.Reconciling.Stages.{
  reconcile_in, build_stage, apply_stage, health_stage, success_stage, garbage_stage, reconcile,
}
use kustomize_controller.Controller.Retracking.{
  tracked_ids, applied_inventory, garbage_stage_orphans, garbage_stage_unpruned,
}
use kustomize_controller.Controller.Traces.{is_deletion, leaks_secret}
use kustomize_controller.Controller.Protection.{reconcile_protects}
use kustomize_controller.Controller.Outcomes.{Applied, reconcile_succeeds}
use kustomize_controller.Controller.Reconciling.Steps.{
  record_attempt, report_progress, mkdir_temp_abs, fetch_stage,
}
use kustomize_controller.Controller.Clients.{reconcile_client}
use kustomize_controller.Controller.Building.{build}
use kustomize_controller.Base.Text.{trim_newline}
use kustomize_controller.Controller.Health.{check_health}
use kustomize_controller.Samples.Packages.{sample_packages}
use kustomize_controller.Samples.Conditions.{sample_conditions-IsLawful}
use kustomize_controller.Samples.Objects.{
  sample_reconciler, sample_kustomization, unpruned_kustomization, old_inventory, new_set,
  sample_origin,
}
use kustomize_controller.Samples.Platforms.{sample_platform, sample_build, sample_built, start_of}

-- An inventory with an identifier that cannot be parsed, behind one that can.
abbrev broken_inventory : ResourceInventory
broken_inventory = record { entries = old_inventory.entries ++ ref "" "v1" ∷ [] }

unreadable : sample_packages.parse_metadata "" ≡ err (text_error "unable to parse")
unreadable = refl

garbage_stage_orphans_example :
    ((e : Error) × ((garbage_stage sample_platform sample_built sample_origin
          (pos 0)
          broken_inventory
          new_set
          (start_of sample_kustomization)).0
        ≡ err e))
    × (contains
          (tracked_ids
            (garbage_stage sample_platform sample_built sample_origin
              (pos 0)
              broken_inventory
              new_set
              (start_of sample_kustomization)).1.obj.status.inventory)
          "cache"
        ≡ false)
    × (any is_deletion
          (garbage_stage sample_platform sample_built sample_origin
            (pos 0)
            broken_inventory
            new_set
            (start_of sample_kustomization)).1.trace
        ≡ false)
unfolding add_change_set
garbage_stage_orphans_example =
    garbage_stage_orphans sample_platform sample_built sample_origin (pos 0) broken_inventory
      new_set (start_of sample_kustomization) (ref "" "v1") (text_error "unable to parse") "cache"
      (inr (inr (inl refl))) unreadable refl

garbage_stage_unpruned_example :
    ((garbage_stage sample_platform sample_built sample_origin
        (pos 0)
        old_inventory
        new_set
        (start_of unpruned_kustomization)).1.obj.status.inventory
      ≡ some (applied_inventory sample_platform sample_built sample_origin (pos 0) new_set))
    × (any is_deletion
          (garbage_stage sample_platform sample_built sample_origin
            (pos 0)
            old_inventory
            new_set
            (start_of unpruned_kustomization)).1.trace
        ≡ false)
garbage_stage_unpruned_example =
    garbage_stage_unpruned sample_platform sample_built sample_origin (pos 0) old_inventory new_set
      (start_of unpruned_kustomization) refl

reconcile_protects_example :
    any leaks_secret
      (reconcile sample_platform sample_build sample_reconciler tt sample_origin
        (start_of sample_kustomization)).1.trace
    ≡ false
reconcile_protects_example =
    reconcile_protects sample_platform sample_origin sample_build sample_reconciler tt
      (start_of sample_kustomization)

reconcile_run :
    (reconcile sample_platform sample_build sample_reconciler tt sample_origin
      (start_of unpruned_kustomization)).0
    ≡ ok tt
unfolding reconcile apply garbage_stage diff report_progress mkdir_temp_abs reconcile_in fetch_stage
    build_stage reconcile_client build apply_stage trim_newline add_change_set prune health_stage
    check_health reference_to_obj_metadata_set success_stage record_attempt
reconcile_run = refl

reconcile_succeeds_example :
    Applied sample_platform sample_origin
      (reconcile sample_platform sample_build sample_reconciler tt sample_origin
        (start_of unpruned_kustomization)).1
reconcile_succeeds_example =
    reconcile_succeeds sample_platform sample_conditions-IsLawful sample_origin sample_build
      sample_reconciler tt (start_of unpruned_kustomization) reconcile_run
