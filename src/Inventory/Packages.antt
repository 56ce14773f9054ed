-- ===== src/Inventory/Packages.antt =====
-- The packages that internal/inventory calls: cli-utils `object`, `ssa`, and the unstructured
-- objects and group versions of apimachinery. Their data are records of the fields that the
-- controller reads; their functions are the fields of `ObjectPackages`.
use kustomize_controller.Base.{String, ◌≡◌, ◌↔◌, Bool, List, In}
use kustomize_controller.Errors.{Result}

pub record GroupKind : Type 0 where
  pub group : String
  pub kind : String

-- `object.ObjMetadata`
pub record ObjMetadata : Type 0 where
  pub namespace : String
  pub name : String
  pub group_kind : GroupKind

-- `schema.GroupVersion`
pub record GroupVersion : Type 0 where
  pub group : String
  pub version : String

-- `unstructured.Unstructured`: what identifies the object, its annotations, whether it has a
-- top-level field `sops`, and the rest of its content.
pub record Unstructured : Type 0 where
  pub group : String
  pub version : String
  pub kind : String
  pub namespace : String
  pub name : String
  pub annotations : List (String × String)
  pub has_sops : Bool
  pub content : String

-- `ssa.Action`
pub data ApplyAction : Type 0 where
  created configured unchanged deleted skipped unknown : ApplyAction

-- `ssa.ChangeSetEntry` and `ssa.ChangeSet`
pub record ChangeSetEntry : Type 0 where
  pub obj_metadata : ObjMetadata
  pub group_version : String
  pub action : ApplyAction

pub record ChangeSet : Type 0 where
  pub entries : List ChangeSetEntry

pub record ObjectPackages : Type 0 where
  -- `ObjMetadata.String` and `object.ParseObjMetadata`
  pub metadata_string : ObjMetadata → String
  pub parse_metadata : String → Result ObjMetadata
  -- `object.UnstructuredToObjMetadata`
  pub to_metadata : Unstructured → ObjMetadata
  -- `ObjMetadataSet.Diff`
  pub set_diff : List ObjMetadata → List ObjMetadata → List ObjMetadata
  -- `sort.Sort(ssa.SortableUnstructureds(objects))`
  pub sort_objects : List Unstructured → List Unstructured
  -- `schema.ParseGroupVersion`
  pub parse_group_version : String → Result GroupVersion

-- What the code relies on: the metadata of an object are its fields, `Diff` is the difference of
-- sets, and sorting keeps the elements.
pub record IsLawful (P : ObjectPackages) : Type 0 where
  pub to_metadata_fields :
      (u : Unstructured)
      → P.to_metadata u ≡ record {
        namespace = u.namespace;
        name = u.name;
        group_kind = record { group = u.group; kind = u.kind };
      }
  pub In-set_diff :
      (m : ObjMetadata) (a b : List ObjMetadata) → In m (P.set_diff a b) ↔ (In m a × ¬ In m b)
  pub In-sort_objects :
      (u : Unstructured) (us : List Unstructured) → In u (P.sort_objects us) ↔ In u us
