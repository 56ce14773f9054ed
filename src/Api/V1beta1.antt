-- ===== src/Api/V1beta1.antt =====
-- api/v1beta1: the first Kustomization resource and its getters. The structs of the packages and of
-- api/v1beta2 that did not change are shared.
pub mod Snapshots
use kustomize_controller.Base.{
  String, ◌<>◌, ◌==◌, ◌*◌, ◌^◌, Bool, Option, none, some, List, if◌then◌else◌, ℕ,
}
use kustomize_controller.Base.Int.{ℤ, pos, lt_ℤ}
use kustomize_controller.Api.References.{NamespacedName, NamespacedObjectKindReference}
use kustomize_controller.Api.Spec.{Patch, Image}
use kustomize_controller.Api.Object.{Condition}
use kustomize_controller.Api.V1beta2.{NamespacedObjectReference, Json6902Patch}
use Snapshots.{Snapshot}

pub record CrossNamespaceSourceReference : Type 0 where
  pub api_version : String
  pub kind : String
  pub name : String
  pub namespace : String

-- `(*CrossNamespaceSourceReference).String`
unfoldable pub source_ref_string : CrossNamespaceSourceReference → String
source_ref_string s =
    if s.namespace == ""
    then s.kind <> ("/" <> s.name)
    else s.kind <> ("/" <> (s.namespace <> ("/" <> s.name)))

-- `secret_ref` holds the name of the Secret.
pub record Decryption : Type 0 where
  pub provider : String
  pub secret_ref : Option String

pub record KubeConfig : Type 0 where
  pub secret_ref : String

pub record SubstituteReference : Type 0 where
  pub kind : String
  pub name : String

pub record PostBuild : Type 0 where
  pub substitute : List (String × String)
  pub substitute_from : List SubstituteReference

pub record KustomizationSpec : Type 0 where
  pub depends_on : List NamespacedObjectReference
  pub decryption : Option Decryption
  pub interval : ℤ
  pub retry_interval : Option ℤ
  pub kube_config : Option KubeConfig
  pub path : String
  pub post_build : Option PostBuild
  pub prune : Bool
  pub health_checks : List NamespacedObjectKindReference
  pub patches : List Patch
  pub patches_strategic_merge : List String
  pub patches_json6902 : List Json6902Patch
  pub images : List Image
  pub service_account_name : String
  pub source_ref : CrossNamespaceSourceReference
  pub suspend : Bool
  pub target_namespace : String
  pub timeout : Option ℤ
  pub validation : String
  pub force : Bool

pub record KustomizationStatus : Type 0 where
  pub observed_generation : ℤ
  pub conditions : List Condition
  pub last_applied_revision : String
  pub last_attempted_revision : String
  pub last_handled_reconcile_at : String
  pub snapshot : Option Snapshot

-- The name and the namespace stand for the metadata.
pub record Kustomization : Type 0 where
  pub name : String
  pub namespace : String
  pub spec : KustomizationSpec
  pub status : KustomizationStatus

-- `time.Minute`, in nanoseconds
abbrev pub minute : ℕ
minute = 60 * 10 ^ 9

-- The timeout of the spec, or the interval.
unfoldable pub requested_timeout : Kustomization → ℤ
requested_timeout k = elim k.spec.timeout [ none ↦ k.spec.interval | some t ↦ t ]

unfoldable pub get_timeout : Kustomization → ℤ
unfolding requested_timeout
get_timeout k =
    let duration = requested_timeout k in
    if lt_ℤ duration (pos minute) then pos minute else duration

unfoldable pub get_retry_interval : Kustomization → ℤ
get_retry_interval k = elim k.spec.retry_interval [ some d ↦ d | none ↦ k.spec.interval ]

unfoldable pub get_depends_on : Kustomization → NamespacedName × List NamespacedObjectReference
get_depends_on k = (record { namespace = k.namespace; name = k.name }, k.spec.depends_on)

unfoldable pub get_status_conditions : Kustomization → List Condition
get_status_conditions k = k.status.conditions
