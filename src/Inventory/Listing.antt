-- ===== src/Inventory/Listing.antt =====
-- `AddChangeSet` and `List` of internal/inventory/inventory.go.
use kustomize_controller.Base.{◌≡◌, refl, ◌↔◌, some, List, [], ◌∷◌, map, All, In}
use kustomize_controller.Errors.{ok}
use kustomize_controller.Inventory.Packages.{
  ObjectPackages, ChangeSet, ChangeSetEntry, Unstructured, IsLawful,
}
use kustomize_controller.Inventory.Operations.{
  new, object_of, entry_ref, add_change_set, list_loop, list,
}
use kustomize_controller.Inventory.Parsing.{RoundTrips, IsCanonical}

-- The object that a change set entry is about.
abbrev pub entry_object : ChangeSetEntry → Unstructured
entry_object e = object_of e.obj_metadata e.group_version

module _ (P : ObjectPackages) where
  abbrev pub EntryRoundTrips : ChangeSetEntry → Type 0
  EntryRoundTrips e = RoundTrips P e.obj_metadata

  refs-IsCanonical :
      (es : List ChangeSetEntry)
      → All EntryRoundTrips es
      → All (IsCanonical P) (map (entry_ref P) es)
  refs-IsCanonical [] h = tt
  refs-IsCanonical (e ∷ es) (h, hs) = ((e.obj_metadata, refl, h), refs-IsCanonical es hs)

  -- An inventory made of a change set has canonical entries.
  pub add_change_set-IsCanonical :
      (set : ChangeSet)
      → All EntryRoundTrips set.entries
      → All (IsCanonical P) (add_change_set P new (some set)).entries
  unfolding add_change_set
  add_change_set-IsCanonical set h = refs-IsCanonical set.entries h

  list_loop-refs :
      (es : List ChangeSetEntry)
      → All EntryRoundTrips es
      → list_loop P (map (entry_ref P) es) ≡ ok (map entry_object es)
  unfolding list_loop
  list_loop-refs [] h = refl
  list_loop-refs (e ∷ es) (h, hs) = rw (h, list_loop-refs es hs)

  -- The inventory of a change set whose identifiers are read back lists exactly the objects of the
  -- change set, each with its group, kind, name, namespace and version.
  pub list-add_change_set :
      IsLawful P
      → (set : ChangeSet) (u : Unstructured) → All EntryRoundTrips set.entries
      → (us : List Unstructured) × (list P (add_change_set P new (some set)) ≡ ok us)
        × (In u us ↔ In u (map entry_object set.entries))
  unfolding list add_change_set
  list-add_change_set L set u h = go set.entries h
    where
      go :
          (es : List ChangeSetEntry)
          → All EntryRoundTrips es
          → (us : List Unstructured) × (list P (record { entries = map (entry_ref P) es }) ≡ ok us)
            × (In u us ↔ In u (map entry_object es))
      go [] hs = ([], refl, (λ i. i, λ i. i))
      go (e ∷ es) hs = (
        P.sort_objects (map entry_object (e ∷ es)),
        rw (list_loop-refs (e ∷ es) hs),
        L.In-sort_objects u (map entry_object (e ∷ es)),
      )
