-- ===== src/Api/References.antt =====
-- api/v1/reference_types.go, and the reference structs of the packages that the API embeds.
use kustomize_controller.Base.{String, ◌<>◌, ◌==◌, if◌then◌else◌}

pub record CrossNamespaceSourceReference : Type 0 where
  pub api_version : String
  pub kind : String
  pub name : String
  pub namespace : String

-- `(*CrossNamespaceSourceReference).String`
unfoldable pub source_ref_string : CrossNamespaceSourceReference → String
source_ref_string s =
    if s.namespace == ""
    then s.kind <> ("/" <> s.name)
    else s.kind <> ("/" <> (s.namespace <> ("/" <> s.name)))

-- `types.NamespacedName`
pub record NamespacedName : Type 0 where
  pub namespace : String
  pub name : String

-- `meta.DependencyReference`
pub record DependencyReference : Type 0 where
  pub name : String
  pub namespace : String
  pub ready_expr : String

-- `meta.NamespacedObjectKindReference`
pub record NamespacedObjectKindReference : Type 0 where
  pub api_version : String
  pub kind : String
  pub name : String
  pub namespace : String
