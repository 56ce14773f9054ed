-- ===== src/Platform/Services.antt =====
-- The functions that the controller calls. A call that reads or changes the world outside takes the
-- world and returns it; one that is a function of its arguments does not.
use kustomize_controller.Base.{String, Bool, Option, List}
use kustomize_controller.Base.Int.{ℤ}
use kustomize_controller.Errors.{Error, Result}
use kustomize_controller.Api.References.{NamespacedName}
use kustomize_controller.Api.Spec.{CustomHealthCheck}
use kustomize_controller.Api.Object.{Kustomization, Snapshot}
use kustomize_controller.Inventory.Packages.{
  ObjectPackages, ObjMetadata, Unstructured, ChangeSet, ChangeSetEntry,
}
use kustomize_controller.Platform.Values.{
  Artifact, Source, FetchOptions, ImpersonatorOptions, PollerOptions, ApplyOptions, DeleteOptions,
  WaitOptions,
}
use kustomize_controller.Platform.Conditions.{ConditionPackage}

pub record Platform : Type 1 where
  pub World : Type 0
  pub objects : ObjectPackages
  pub conditions : ConditionPackage
  -- values that the controller only hands on
  pub StatusReader : Type 0
  pub StructMap : Type 0
  pub Expression : Type 0
  pub Client : Type 0
  pub Poller : Type 0
  -- time, durations and the environment
  pub now : World → ℤ × World
  pub duration_string : ℤ → String
  -- `finish.Sub(start).String()`
  pub since_string : ℤ → ℤ → String
  pub jittered : ℤ → World → ℤ × World
  pub getenv : String → World → String
  -- the API server
  pub get_kustomization : NamespacedName → World → Result Kustomization × World
  pub get_dependency : NamespacedName → World → Result Kustomization × World
  pub get_source_object : Bool → String → NamespacedName → World → Result Source × World
  pub patch_object : Kustomization → World → Option Error × World
  -- `kerrors.NewAggregate` of the errors given, and `kerrors.FilterOut(err, IsNotFound)`
  pub new_aggregate : Option Error → Option Error → Option Error
  pub filter_out_not_found : Error → Option Error
  -- `controllerutil`, `meta.ReconcileAnnotationValue`, `Artifact.HasRevision`, `History.Upsert`
  pub contains_finalizer : List String → String → Bool
  pub add_finalizer : List String → String → List String
  pub remove_finalizer : List String → String → List String
  pub reconcile_annotation_value : List (String × String) → Option String
  pub has_revision : Artifact → String → Bool
  pub upsert_history : List Snapshot → Snapshot → List Snapshot
  -- CEL and the conversion to unstructured maps
  pub new_status_reader : List CustomHealthCheck → Result StatusReader
  pub to_unstructured : Kustomization → Result StructMap
  pub new_expression : String → Result Expression
  pub evaluate_boolean : Expression → StructMap → StructMap → Result Bool
  -- the file system and the source server
  pub mkdir_temp : String → World → Result String × World
  pub eval_symlinks : String → World → Result String × World
  pub remove_all : String → World → Option Error × World
  pub secure_join : String → String → World → Result String × World
  pub stat : String → World → Option Error × World
  pub fetch : FetchOptions → String → String → String → World → Option Error × World
  -- impersonation, clients and status pollers
  pub own_client : Client
  pub new_status_poller : PollerOptions StatusReader → Poller
  pub can_impersonate : ImpersonatorOptions StatusReader → World → Bool × World
  pub impersonated_client :
      ImpersonatorOptions StatusReader → World → Result (Client × Poller) × World
  -- the generator of kustomization.yaml, the digest and the YAML reader
  pub write_kustomization : StructMap → String → String → World → Option Error × World
  pub digest_of : String → String
  pub read_objects : String → Result (List Unstructured)
  -- `normalize.UnstructuredList`, `ssautil` and `masktoken`
  pub normalize : List Unstructured → Result (List Unstructured)
  pub set_owner_labels : List Unstructured → String → String → List Unstructured
  pub owner_labels : String → String → List (String × String)
  pub set_common_metadata :
      List Unstructured → List (String × String) → List (String × String) → List Unstructured
  pub format_object : Unstructured → String
  pub format_objects : List Unstructured → String
  pub jobs_with_ttl : List Unstructured → List ObjMetadata
  pub entry_string : ChangeSetEntry → String
  pub change_set_string : ChangeSet → String
  pub metadata_set : ChangeSet → List ObjMetadata
  pub mask_token : String → String → Result String
  -- the server-side apply manager, under a client and a poller
  pub apply_all_staged :
      Client
      → Poller
      → List Unstructured
      → ApplyOptions
      → World
      → (Option ChangeSet × Option Error) × World
  pub delete_all :
      Client → List Unstructured → DeleteOptions → World → (Option ChangeSet × Option Error) × World
  pub wait_for_set : Client → Poller → List ObjMetadata → WaitOptions → World → Option Error × World
  pub wait_for_termination : Client → ChangeSet → WaitOptions → World → Option Error × World
  pub enqueued_by : World → Option Error
  pub delete_cached_events : String → String → String → String → World → World
