-- ===== src/Api/Object.antt =====
-- The status and the object of api/v1/kustomization_types.go.
use kustomize_controller.Base.{String, Option, List}
use kustomize_controller.Base.Int.{ℤ}
use kustomize_controller.Api.Inventory.{ResourceInventory}
use kustomize_controller.Api.Spec.{KustomizationSpec}

-- `metav1.ConditionStatus`
pub data ConditionStatus : Type 0 where
  true_status false_status unknown_status : ConditionStatus

-- `metav1.Condition`, less the times and the generation that the conditions package keeps itself.
pub record Condition : Type 0 where
  pub type : String
  pub status : ConditionStatus
  pub reason : String
  pub message : String

-- An entry of `meta.History`: one attempt, with the clock readings between which it ran.
pub record Snapshot : Type 0 where
  pub digest : String
  pub taken_at : ℤ
  pub started : ℤ
  pub finished : ℤ
  pub status : String
  pub metadata : List (String × String)

pub record KustomizationStatus : Type 0 where
  pub last_handled_reconcile_at : String
  pub observed_generation : ℤ
  pub conditions : List Condition
  pub last_applied_revision : String
  pub last_applied_origin_revision : String
  pub last_attempted_revision : String
  pub inventory : Option ResourceInventory
  pub history : List Snapshot

-- The metadata that the controller reads stands beside the spec and the status.
pub record Kustomization : Type 0 where
  pub name : String
  pub namespace : String
  pub generation : ℤ
  pub deletion_timestamp : Option ℤ
  pub finalizers : List String
  pub annotations : List (String × String)
  pub spec : KustomizationSpec
  pub status : KustomizationStatus

-- The constants of api/v1/kustomization_types.go.
abbrev pub kustomization_kind : String
kustomization_kind = "Kustomization"

abbrev pub kustomization_finalizer : String
kustomization_finalizer = "finalizers.fluxcd.io"

abbrev pub group : String
group = "kustomize.toolkit.fluxcd.io"

abbrev pub enabled_value : String
enabled_value = "enabled"

abbrev pub disabled_value : String
disabled_value = "disabled"

abbrev pub merge_value : String
merge_value = "Merge"

abbrev pub if_not_present_value : String
if_not_present_value = "IfNotPresent"

abbrev pub ignore_value : String
ignore_value = "Ignore"

abbrev pub mirror_prune : String
mirror_prune = "MirrorPrune"

abbrev pub delete_policy : String
delete_policy = "Delete"

abbrev pub wait_for_termination : String
wait_for_termination = "WaitForTermination"

abbrev pub orphan : String
orphan = "Orphan"
