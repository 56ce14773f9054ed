-- ===== src/Api/V1beta2.antt =====
-- api/v1beta2: the earlier Kustomization resource and its getters. The references and the packages'
-- structs that did not change are those of api/v1.
use kustomize_controller.Base.{String, ◌<>◌, ◌==◌, Bool, Option, none, some, List, if◌then◌else◌}
use kustomize_controller.Base.Int.{ℤ, pos, lt_ℤ, sub64}
use kustomize_controller.Api.References.{NamespacedObjectKindReference}
use kustomize_controller.Api.Spec.{Selector, KubeConfigReference, Patch, Image}
use kustomize_controller.Api.Object.{Condition}
use kustomize_controller.Api.Defaults.{thirty_seconds}

pub record CrossNamespaceSourceReference : Type 0 where
  pub api_version : String
  pub kind : String
  pub name : String
  pub namespace : String

-- `(*CrossNamespaceSourceReference).String`
unfoldable pub source_ref_string : CrossNamespaceSourceReference → String
source_ref_string s =
    if s.namespace == ""
    then s.kind <> ("/" <> s.name)
    else s.kind <> ("/" <> (s.namespace <> ("/" <> s.name)))

pub record ResourceRef : Type 0 where
  pub id : String
  pub version : String

pub record ResourceInventory : Type 0 where
  pub entries : List ResourceRef

-- `meta.NamespacedObjectReference`
pub record NamespacedObjectReference : Type 0 where
  pub name : String
  pub namespace : String

pub record CommonMetadata : Type 0 where
  pub annotations : List (String × String)
  pub labels : List (String × String)

-- `secret_ref` holds the name of the Secret.
pub record Decryption : Type 0 where
  pub provider : String
  pub secret_ref : Option String

pub record SubstituteReference : Type 0 where
  pub kind : String
  pub name : String
  pub optional : Bool

pub record PostBuild : Type 0 where
  pub substitute : List (String × String)
  pub substitute_from : List SubstituteReference

-- `kustomize.JSON6902` and `kustomize.JSON6902Patch`; a JSON value is its text.
pub record Json6902 : Type 0 where
  pub op : String
  pub path : String
  pub from : String
  pub value : Option String

pub record Json6902Patch : Type 0 where
  pub patch : List Json6902
  pub target : Selector

pub record KustomizationSpec : Type 0 where
  pub common_metadata : Option CommonMetadata
  pub depends_on : List NamespacedObjectReference
  pub decryption : Option Decryption
  pub interval : ℤ
  pub retry_interval : Option ℤ
  pub kube_config : Option KubeConfigReference
  pub path : String
  pub post_build : Option PostBuild
  pub prune : Bool
  pub health_checks : List NamespacedObjectKindReference
  pub patches : List Patch
  pub patches_strategic_merge : List String
  pub patches_json6902 : List Json6902Patch
  pub images : List Image
  pub service_account_name : String
  pub source_ref : CrossNamespaceSourceReference
  pub suspend : Bool
  pub target_namespace : String
  pub timeout : Option ℤ
  pub force : Bool
  pub wait : Bool
  pub components : List String
  pub validation : String

pub record KustomizationStatus : Type 0 where
  pub last_handled_reconcile_at : String
  pub observed_generation : ℤ
  pub conditions : List Condition
  pub last_applied_revision : String
  pub last_attempted_revision : String
  pub inventory : Option ResourceInventory

-- The name and the namespace stand for the metadata.
pub record Kustomization : Type 0 where
  pub name : String
  pub namespace : String
  pub spec : KustomizationSpec
  pub status : KustomizationStatus

-- The timeout of the spec, or the interval less 30 seconds.
unfoldable pub requested_timeout : Kustomization → ℤ
requested_timeout k = elim k.spec.timeout [
  | none ↦ sub64 k.spec.interval thirty_seconds
  | some t ↦ t
]

unfoldable pub get_timeout : Kustomization → ℤ
unfolding requested_timeout
get_timeout k =
    let duration = requested_timeout k in
    if lt_ℤ duration (pos thirty_seconds) then pos thirty_seconds else duration

unfoldable pub get_requeue_after : Kustomization → ℤ
get_requeue_after k = k.spec.interval

unfoldable pub get_retry_interval : Kustomization → ℤ
unfolding get_requeue_after
get_retry_interval k = elim k.spec.retry_interval [ some d ↦ d | none ↦ get_requeue_after k ]

unfoldable pub get_depends_on : Kustomization → List NamespacedObjectReference
get_depends_on k = k.spec.depends_on

unfoldable pub get_conditions : Kustomization → List Condition
get_conditions k = k.status.conditions

-- `SetConditions`, as the object that it leaves
unfoldable pub set_conditions : Kustomization → List Condition → Kustomization
set_conditions k cs = record k { status = record k.status { conditions = cs } }
