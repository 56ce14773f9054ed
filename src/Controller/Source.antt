-- ===== src/Controller/Source.antt =====
-- `getSource` and `getOriginRevision` of internal/controller/kustomization_controller.go.
use kustomize_controller.Base.{
  String, ◌<>◌, ◌==◌, ◌&&◌, ◌||◌, Bool, not, none, some, lookup, text_or_empty, if◌then◌else◌,
}
use kustomize_controller.Errors.{plain, wrapped, access_denied, text_error, is_not_found}
use kustomize_controller.Api.References.{NamespacedName}
use kustomize_controller.Api.Object.{Kustomization}
use kustomize_controller.Platform.Values.{Source, source_read}
use kustomize_controller.Platform.Services.{Platform}
use kustomize_controller.Run.{Act, raise, call, leave, on_error, ◌>>◌}
use kustomize_controller.Controller.Config.{KustomizationReconciler}

-- The kinds of package source-controller/api/v1.
abbrev pub oci_repository_kind : String
oci_repository_kind = "OCIRepository"

abbrev pub git_repository_kind : String
git_repository_kind = "GitRepository"

abbrev pub bucket_kind : String
bucket_kind = "Bucket"

abbrev pub external_artifact_kind : String
external_artifact_kind = "ExternalArtifact"

-- `NamespacedName.String`
abbrev pub name_string : NamespacedName → String
name_string n = n.namespace <> ("/" <> n.name)

-- The namespace of the source, by default that of the object.
unfoldable pub source_namespace : Kustomization → String
source_namespace k =
    if k.spec.source_ref.namespace == "" then k.namespace else k.spec.source_ref.namespace

abbrev pub source_name : Kustomization → NamespacedName
source_name k = record { namespace = source_namespace k; name = k.spec.source_ref.name }

-- The cases of the `switch` over the kind.
unfoldable pub is_supported_kind : String → Bool
is_supported_kind kind =
    kind == oci_repository_kind
    || (kind == git_repository_kind || (kind == bucket_kind || kind == external_artifact_kind))

-- `getOriginRevision`
unfoldable pub get_origin_revision : Source → String
get_origin_revision src = elim src.artifact [
  | none ↦ ""
  | some a ↦ text_or_empty (lookup a.metadata "org.opencontainers.image.revision")
]

module _ (P : Platform) where
  -- `reader.Get` of the object of a kind, and the error that is returned if it fails.
  read_source : Bool → String → NamespacedName → Act P.World Source
  read_source direct kind name = do
    leave (source_read direct kind name)
    on_error (call (P.get_source_object direct kind name)) λ e.
        if is_not_found e
        then raise e
        else raise (wrapped ("unable to get source '" <> (name_string name <> "': ")) e)

  -- `getSource`
  unfoldable pub get_source : KustomizationReconciler → Kustomization → Act P.World Source
  unfolding read_source
  get_source r k =
      let kind = k.spec.source_ref.kind in
      let name = source_name k in
      let target = "can't access '" <> (kind <> ("/" <> name_string name)) in
      if r.no_cross_namespace_refs && not (name.namespace == k.namespace)
      then raise (plain access_denied (target <> "', cross-namespace references have been blocked"))
      else if kind == external_artifact_kind && not r.allow_external_artifact
      then raise (plain access_denied (target <> "', ExternalArtifact feature gate is disabled"))
      else if is_supported_kind kind
      then read_source r.direct_source_fetch kind name
      else raise (
          text_error
            ("source `" <> (k.spec.source_ref.name <> ("` kind '" <> (kind <> "' not supported")))))
