-- ===== src/Controller/Applying/Options.antt =====
-- The apply options that `apply` of internal/controller/kustomization_controller.go sets up.
use kustomize_controller.Base.{String, ◌<>◌, Bool, true, false, List, [], ◌∷◌, ◌++◌}
use kustomize_controller.Api.Object.{
  Kustomization, group, disabled_value, ignore_value, if_not_present_value, enabled_value,
  merge_value,
}
use kustomize_controller.Platform.Values.{
  ApplyOptions, FieldManager, ManagedOperation, apply_operation, update_operation,
}
use kustomize_controller.Controller.Config.{KustomizationReconciler}

abbrev manager : String → ManagedOperation → Bool → FieldManager
manager name operation exact = record { name = name; operation = operation; exact_match = exact }

-- Both operations of each manager of a list.
unfoldable pub both_operations : Bool → List String → List FieldManager
both_operations exact [] = []
both_operations exact (name ∷ names) =
    manager name apply_operation exact
    ∷ manager name update_operation exact
    ∷ both_operations exact names

-- `fieldManagers`
unfoldable pub field_managers : KustomizationReconciler → List FieldManager
unfolding both_operations
field_managers r =
    (manager "kubectl" apply_operation false
      ∷ manager "kubectl" update_operation false
      ∷ manager "before-first-apply" update_operation false
      ∷ manager r.controller_name update_operation false
      ∷ [])
    ++ both_operations false r.disallowed_field_managers

unfoldable pub apply_options : KustomizationReconciler → Kustomization → ApplyOptions
unfolding field_managers both_operations
apply_options r k = record {
  force = k.spec.force;
  exclusion_selector =
      (group <> "/reconcile", disabled_value) ∷ (group <> "/ssa", ignore_value) ∷ [];
  if_not_present_selector = (group <> "/ssa", if_not_present_value) ∷ [];
  force_selector = (group <> "/force", enabled_value) ∷ [];
  custom_stage_kinds = r.custom_stage_kinds;
  migrate_api_version = r.migrate_api_version;
  drift_ignore_rules = k.spec.ignore;
  cleanup = record {
    annotations =
        "kubectl.kubernetes.io/last-applied-configuration" ∷ "kustomize.toolkit.fluxcd.io/checksum"
        ∷ "fluxcd.io/sync-checksum" ∷ [];
    labels = "fluxcd.io/sync-gc-mark" ∷ [];
    field_managers = field_managers r;
    field_managers_before_dry_run = both_operations true r.override_managers_before_dry_run;
    exclusions = (group <> "/ssa", merge_value) ∷ [];
  };
}
