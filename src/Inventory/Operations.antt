-- ===== src/Inventory/Operations.antt =====
-- internal/inventory/inventory.go. An inventory that Go mutates is passed in and returned.
use kustomize_controller.Base.{
  String, false, ◌==◌, Option, none, some, List, [], ◌∷◌, ◌++◌, map, is_empty, contains, lookup,
  put, text_or_empty, if◌then◌else◌,
}
use kustomize_controller.Errors.{Result, ok, ◌>>=◌}
use kustomize_controller.Api.References.{NamespacedObjectKindReference}
use kustomize_controller.Api.Inventory.{ResourceInventory, ResourceRef, ids}
use kustomize_controller.Inventory.Packages.{
  ObjectPackages, ObjMetadata, Unstructured, ChangeSet, ChangeSetEntry,
}

-- `New`
abbrev pub new : ResourceInventory
new = record { entries = [] }

-- `&unstructured.Unstructured{}`
abbrev empty_object : Unstructured
empty_object = record {
  group = "";
  version = "";
  kind = "";
  namespace = "";
  name = "";
  annotations = [];
  has_sops = false;
  content = "";
}

-- The object that an entry or a reference names: group, kind, version, name and namespace alone.
abbrev pub object_of : ObjMetadata → String → Unstructured
object_of m version = record empty_object {
  group = m.group_kind.group;
  kind = m.group_kind.kind;
  version = version;
  name = m.name;
  namespace = m.namespace;
}

-- `versionMap`
unfoldable pub version_map : List ResourceRef → List (String × String) → List (String × String)
version_map [] m = m
version_map (e ∷ es) m = version_map es (put m e.id e.version)

module _ (P : ObjectPackages) where
  open P use {
    metadata_string, parse_metadata, to_metadata, set_diff, sort_objects, parse_group_version,
  }

  -- The identifier of an object.
  abbrev pub object_id : Unstructured → String
  object_id u = metadata_string (to_metadata u)

  abbrev pub entry_ref : ChangeSetEntry → ResourceRef
  entry_ref e = record { id = metadata_string e.obj_metadata; version = e.group_version }

  unfoldable pub add_change_set : ResourceInventory → Option ChangeSet → ResourceInventory
  add_change_set inv none = inv
  add_change_set inv (some set) = record { entries = inv.entries ++ map entry_ref set.entries }

  -- The loop of `Merge` over the objects; `seen` holds the keys of the map.
  unfoldable pub merge_loop : List Unstructured → List String → List ResourceRef → List ResourceRef
  merge_loop [] seen entries = entries
  merge_loop (u ∷ us) seen entries =
      let id = object_id u in
      let skip = merge_loop us seen entries in
      let add =
        merge_loop us (id ∷ seen) (entries ++ (record { id = id; version = u.version } ∷ [])) in
      if contains seen id then skip else add

  unfoldable pub merge : Option ResourceInventory → List Unstructured → Option ResourceInventory
  unfolding merge_loop
  merge none objects = none
  merge (some inv) objects =
      if is_empty objects
      then some inv
      else some (record { entries = merge_loop objects (ids inv) inv.entries })

  -- The loop of `List`.
  unfoldable pub list_loop : List ResourceRef → Result (List Unstructured)
  list_loop [] = ok []
  list_loop (e ∷ es) = do
    m ← parse_metadata e.id
    us ← list_loop es
    ok (object_of m e.version ∷ us)

  unfoldable pub list : ResourceInventory → Result (List Unstructured)
  unfolding list_loop
  list inv =
      if is_empty inv.entries then ok [] else do us ← list_loop inv.entries; ok (sort_objects us)

  unfoldable pub list_metadata : List ResourceRef → Result (List ObjMetadata)
  list_metadata [] = ok []
  list_metadata (e ∷ es) = do m ← parse_metadata e.id; ms ← list_metadata es; ok (m ∷ ms)

  -- The object that `Diff` builds for stale metadata.
  abbrev pub stale_object : List (String × String) → ObjMetadata → Unstructured
  stale_object versions m = object_of m (text_or_empty (lookup versions (metadata_string m)))

  unfoldable pub diff : ResourceInventory → ResourceInventory → Result (List Unstructured)
  unfolding list_metadata version_map
  diff inv target = do
    let versions = version_map inv.entries []
    old ← list_metadata inv.entries
    current ← list_metadata target.entries
    let stale = set_diff old current
    if is_empty stale then ok [] else ok (sort_objects (map (stale_object versions) stale))

  -- The object that `ReferenceToObjMetadataSet` builds for one reference.
  unfoldable pub reference_metadata : NamespacedObjectKindReference → Result ObjMetadata
  reference_metadata c = do
    gv ← parse_group_version (if c.api_version == "" then "apps/v1" else c.api_version)
    ok (
        to_metadata (record empty_object {
          group = gv.group;
          kind = c.kind;
          version = gv.version;
          name = c.name;
          namespace = c.namespace;
        }))

  unfoldable pub reference_to_obj_metadata_set :
      List NamespacedObjectKindReference → Result (List ObjMetadata)
  unfolding reference_metadata
  reference_to_obj_metadata_set [] = ok []
  reference_to_obj_metadata_set (c ∷ cs) = do
    m ← reference_metadata c
    ms ← reference_to_obj_metadata_set cs
    ok (m ∷ ms)
