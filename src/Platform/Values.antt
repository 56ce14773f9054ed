-- ===== src/Platform/Values.antt =====
-- The values that the controller passes to the packages and gets from them, as records of the
-- fields that it reads or sets.
use kustomize_controller.Base.{String, Bool, Option, List}
use kustomize_controller.Base.Int.{ℤ}
use kustomize_controller.Errors.{Error}
use kustomize_controller.Api.References.{NamespacedName}
use kustomize_controller.Api.Spec.{IgnoreRule, KubeConfigReference}
use kustomize_controller.Api.Object.{Kustomization}
use kustomize_controller.Inventory.Packages.{GroupKind, ObjMetadata, Unstructured, ChangeSet}

-- `meta.Artifact`, and `sourcev1.Source` as far as the controller looks at it.
pub record Artifact : Type 0 where
  pub url : String
  pub revision : String
  pub digest : String
  pub metadata : List (String × String)

pub record Source : Type 0 where
  pub artifact : Option Artifact

-- `ctrl.Result`
pub record CtrlResult : Type 0 where
  pub requeue : Bool
  pub requeue_after : ℤ

-- `fetch.Option`s, less the logger and the unlimited sizes.
pub record FetchOptions : Type 0 where
  pub retries : ℤ
  pub hostname_overwrite : String
  pub tls_config : Option String

-- The `ProviderRESTConfigFetcher` that `getProviderRESTConfigFetcher` builds.
pub record ProviderOptions : Type 0 where
  pub default_service_account : Option String
  pub cache_operation : Option String

-- `runtimeClient.ImpersonatorOption`s; an option that is not given is `none`. `polling` is whether
-- `WithPolling` was given, with or without a custom status reader.
pub record ImpersonatorOptions (Reader : Type 0) : Type 0 where
  pub service_account : Option (String × String × String)
  pub kube_config : Option (KubeConfigReference × String × Option ProviderOptions)
  pub polling : Option (Bool × Option Reader)

-- `polling.Options`: the custom job reader is always among the readers.
pub record PollerOptions (Reader : Type 0) : Type 0 where
  pub custom_reader : Option Reader
  pub cluster_reader : Bool

-- `ssa.FieldManager`
pub data ManagedOperation : Type 0 where
  apply_operation update_operation : ManagedOperation

pub record FieldManager : Type 0 where
  pub name : String
  pub operation : ManagedOperation
  pub exact_match : Bool

-- `ssa.ApplyCleanupOptions` and the fields of `ssa.ApplyOptions` that the controller sets.
pub record CleanupOptions : Type 0 where
  pub annotations : List String
  pub labels : List String
  pub field_managers : List FieldManager
  pub field_managers_before_dry_run : List FieldManager
  pub exclusions : List (String × String)

pub record ApplyOptions : Type 0 where
  pub force : Bool
  pub exclusion_selector : List (String × String)
  pub if_not_present_selector : List (String × String)
  pub force_selector : List (String × String)
  pub custom_stage_kinds : List GroupKind
  pub migrate_api_version : Bool
  pub drift_ignore_rules : List IgnoreRule
  pub cleanup : CleanupOptions

-- `ssa.DeleteOptions`; the propagation policy is always the background one.
pub record DeleteOptions : Type 0 where
  pub inclusions : List (String × String)
  pub exclusions : List (String × String)

-- `ssa.WaitOptions`
pub record WaitOptions : Type 0 where
  pub interval : ℤ
  pub timeout : ℤ
  pub fail_fast : Bool
  pub jobs_with_ttl : List ObjMetadata

-- The event that the recorder gets.
pub data EventType : Type 0 where
  normal warning : EventType

pub record Event : Type 0 where
  pub source : Option Source
  pub metadata : List (String × String)
  pub type : EventType
  pub reason : String
  pub action : String
  pub note : String

-- What a reconciliation does to the world outside, or asks of it, in the order of the calls.
pub data Effect : Type 0 where
  patched : Kustomization → Effect
  emitted : Event → Effect
  dependency_read : NamespacedName → Effect
  source_read : Bool → String → NamespacedName → Effect
  fetched : String → String → Effect
  applied : List Unstructured → ApplyOptions → Option ChangeSet → Option Error → Effect
  deleted : List Unstructured → DeleteOptions → Option ChangeSet → Option Error → Effect
  waited : List ObjMetadata → WaitOptions → Option Error → Effect
  awaited_termination : ChangeSet → WaitOptions → Option Error → Effect
  cached_events_deleted : String → Effect
  dir_removed : String → Effect
