-- ===== src/Api/Spec.antt =====
-- The spec of api/v1/kustomization_types.go. A Go pointer is an `Option`, a duration is its number
-- of nanoseconds, and a map is a list of bindings.
use kustomize_controller.Base.{String, Bool, Option, List}
use kustomize_controller.Base.Int.{ℤ}
use kustomize_controller.Api.References.{
  CrossNamespaceSourceReference, DependencyReference, NamespacedObjectKindReference,
}

-- `kustomize.Selector`
pub record Selector : Type 0 where
  pub group : String
  pub version : String
  pub kind : String
  pub name : String
  pub namespace : String
  pub annotation_selector : String
  pub label_selector : String

pub record CommonMetadata : Type 0 where
  pub annotations : List (String × String)
  pub labels : List (String × String)

pub record IgnoreRule : Type 0 where
  pub paths : List String
  pub target : Option Selector

-- `secret_ref` holds the name of the Secret.
pub record Decryption : Type 0 where
  pub provider : String
  pub service_account_name : String
  pub secret_ref : Option String

pub record SubstituteReference : Type 0 where
  pub kind : String
  pub name : String
  pub optional : Bool

pub record PostBuild : Type 0 where
  pub substitute_strategy : String
  pub substitute : List (String × String)
  pub substitute_from : List SubstituteReference

-- `meta.KubeConfigReference`: the names of the ConfigMap and of the Secret.
pub record KubeConfigReference : Type 0 where
  pub config_map_ref : Option String
  pub secret_ref : Option String

-- `kustomize.CustomHealthCheck`
pub record CustomHealthCheck : Type 0 where
  pub api_version : String
  pub kind : String
  pub current : String
  pub in_progress : String
  pub failed : String

-- `kustomize.Patch` and `kustomize.Image`, which only the generator reads.
pub record Patch : Type 0 where
  pub patch : String
  pub target : Option Selector

pub record Image : Type 0 where
  pub name : String
  pub new_name : String
  pub new_tag : String
  pub digest : String

pub record KustomizationSpec : Type 0 where
  pub common_metadata : Option CommonMetadata
  pub depends_on : List DependencyReference
  pub decryption : Option Decryption
  pub interval : ℤ
  pub retry_interval : Option ℤ
  pub kube_config : Option KubeConfigReference
  pub path : String
  pub post_build : Option PostBuild
  pub prune : Bool
  pub deletion_policy : String
  pub health_checks : List NamespacedObjectKindReference
  pub name_prefix : String
  pub name_suffix : String
  pub patches : List Patch
  pub images : List Image
  pub service_account_name : String
  pub source_ref : CrossNamespaceSourceReference
  pub suspend : Bool
  pub target_namespace : String
  pub timeout : Option ℤ
  pub force : Bool
  pub wait : Bool
  pub build_metadata : List String
  pub components : List String
  pub ignore_missing_components : Bool
  pub health_check_exprs : List CustomHealthCheck
  pub ignore : List IgnoreRule
