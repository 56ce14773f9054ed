-- ===== src/Examples/Endings.antt =====
-- The theorems on the finalization, the final status and the failures of `Reconcile` at concrete
-- values.
use kustomize_controller.Base.{Option, ◌≡◌, ◌≢◌, ◌⊎◌, ◌↔◌, refl, true, false, none, some, [], ◌∷◌}
use kustomize_controller.Base.Int.{pos}
use kustomize_controller.Errors.{
  Error, ok, err, class_of, access_denied, not_found, is_terminal, terminal, text_error,
}
use kustomize_controller.Api.Defaults.{get_deletion_policy, get_retry_interval}
use kustomize_controller.Api.Object.{
  Kustomization, true_status, false_status, mirror_prune, delete_policy, wait_for_termination,
}
use kustomize_controller.Platform.Values.{Effect, patched}
use kustomize_controller.Platform.Conditions.{status, ready, reconciling, stalled}
use kustomize_controller.Controller.Traces.{deletions}
use kustomize_controller.Controller.Finalizing.{
  has_no_inventory, finalizer_should_delete_resources, finalize, no_requeue, inventory_objects,
}
use kustomize_controller.Controller.Deletion.{
  finalizer_should_delete_resources_iff, finalize_gives_up, finalize_deletes, MayDelete,
}
use kustomize_controller.Controller.Garbage.{delete_options}
use kustomize_controller.Inventory.Packages.{ChangeSet}
use kustomize_controller.Controller.Status.{finalized_status}
use kustomize_controller.Controller.Settling.{finalized_ready}
use kustomize_controller.Controller.Dispatch.{
  requeue_after, source_failed, dependencies_failed, reconcile_object,
}
use kustomize_controller.Controller.Failures.{source_failed_marks, dependencies_failed_marks}
use kustomize_controller.Controller.Pausing.{reconcile_object_suspended}
use kustomize_controller.Samples.Conditions.{sample_conditions, sample_conditions-IsLawful}
use kustomize_controller.Samples.Objects.{
  sample_reconciler, sample_kustomization, suspended_kustomization, ready_kustomization,
  sample_origin, not_found_error,
}
use kustomize_controller.Samples.Platforms.{sample_platform, sample_build, start_of}

finalizer_should_delete_resources_iff_example :
    (finalizer_should_delete_resources sample_kustomization ≡ true) ↔ (
      (false ≡ false)
      × (has_no_inventory sample_kustomization.status.inventory ≡ false)
      × (((get_deletion_policy sample_kustomization ≡ mirror_prune) × (true ≡ true))
          ⊎ ((get_deletion_policy sample_kustomization ≡ delete_policy)
              ⊎ (get_deletion_policy sample_kustomization ≡ wait_for_termination))))
finalizer_should_delete_resources_iff_example =
    finalizer_should_delete_resources_iff sample_kustomization

finalize_gives_up_example :
    (((finalize sample_platform sample_reconciler (start_of suspended_kustomization)).0
        ≡ ok no_requeue)
      × ((finalize sample_platform sample_reconciler (start_of suspended_kustomization)).1.obj
          ≡ record suspended_kustomization { finalizers = [] }))
    ⊎ ((e : Error) × ((finalize sample_platform sample_reconciler
            (start_of suspended_kustomization)).0
          ≡ err e)
        × ((finalize sample_platform sample_reconciler (start_of suspended_kustomization)).1.obj
            ≡ suspended_kustomization))
finalize_gives_up_example =
    finalize_gives_up sample_platform sample_reconciler (start_of suspended_kustomization)

finalize_deletes_example :
    (deletions (finalize sample_platform sample_reconciler (start_of sample_kustomization)).1.trace
      ≡ [])
    ⊎ (MayDelete sample_kustomization
        × ((set : Option ChangeSet) × (failure : Option Error) × (deletions
                (finalize sample_platform sample_reconciler (start_of sample_kustomization)).1.trace
              ≡ Effect.deleted
                  (inventory_objects sample_platform sample_kustomization.status.inventory)
                  (delete_options sample_platform sample_kustomization)
                  set
                  failure
                ∷ [])))
unfolding deletions
finalize_deletes_example =
    finalize_deletes sample_platform sample_reconciler (start_of sample_kustomization)

finalized_ready_example :
    (status sample_conditions
        (finalized_status sample_platform ready_kustomization).conditions
        reconciling
      ≡ none)
    × ((finalized_status sample_platform ready_kustomization).observed_generation ≡ pos 2)
finalized_ready_example =
    finalized_ready sample_platform sample_conditions-IsLawful ready_kustomization refl

source_failed_marks_example :
    (status sample_conditions
        (source_failed sample_platform not_found_error
          (start_of sample_kustomization)).1.obj.status.conditions
        ready
      ≡ some false_status)
    × (((class_of not_found_error ≡ not_found)
          × ((source_failed sample_platform not_found_error (start_of sample_kustomization)).0
              ≡ ok (requeue_after (get_retry_interval sample_kustomization))))
        ⊎ (((class_of not_found_error ≡ access_denied)
              × ((source_failed sample_platform not_found_error (start_of sample_kustomization)).0
                  ≡ err (terminal not_found_error))
              × (status sample_conditions
                    (source_failed sample_platform not_found_error
                      (start_of sample_kustomization)).1.obj.status.conditions
                    stalled
                  ≡ some true_status))
            ⊎ ((class_of not_found_error ≢ not_found)
                × (class_of not_found_error ≢ access_denied)
                × ((source_failed sample_platform not_found_error (start_of sample_kustomization)).0
                    ≡ err not_found_error))))
source_failed_marks_example =
    source_failed_marks sample_platform sample_conditions-IsLawful not_found_error
      (start_of sample_kustomization)

abbrev bad_expression : Error
bad_expression = terminal (text_error "failed to parse")

dependencies_failed_marks_example :
    (status sample_conditions
        (dependencies_failed sample_platform sample_reconciler sample_origin bad_expression
          (start_of sample_kustomization)).1.obj.status.conditions
        ready
      ≡ some false_status)
    × (((is_terminal bad_expression ≡ true)
          × ((dependencies_failed sample_platform sample_reconciler sample_origin bad_expression
                (start_of sample_kustomization)).0
              ≡ err bad_expression)
          × ((dependencies_failed sample_platform sample_reconciler sample_origin bad_expression
                (start_of sample_kustomization)).1.obj.status.observed_generation
              ≡ pos 2))
        ⊎ ((is_terminal bad_expression ≡ false)
            × ((dependencies_failed sample_platform sample_reconciler sample_origin bad_expression
                  (start_of sample_kustomization)).0
                ≡ ok (requeue_after (pos 30000000000)))))
dependencies_failed_marks_example =
    dependencies_failed_marks sample_platform sample_conditions-IsLawful sample_reconciler
      sample_origin bad_expression (start_of sample_kustomization)

-- The suspended object with its final status.
abbrev paused : Kustomization
paused = record suspended_kustomization {
  status = finalized_status sample_platform suspended_kustomization;
}

reconcile_object_suspended_example :
    ((reconcile_object sample_platform sample_build sample_reconciler
        (pos 0)
        (start_of suspended_kustomization)).0
      ≡ no_requeue)
    × ((reconcile_object sample_platform sample_build sample_reconciler
          (pos 0)
          (start_of suspended_kustomization)).2.obj
        ≡ paused)
    × ((reconcile_object sample_platform sample_build sample_reconciler
          (pos 0)
          (start_of suspended_kustomization)).2.trace
        ≡ patched paused ∷ [])
reconcile_object_suspended_example =
    reconcile_object_suspended sample_platform sample_build sample_reconciler (pos 0)
      (start_of suspended_kustomization) refl refl refl
