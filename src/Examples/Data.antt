-- ===== src/Examples/Data.antt =====
-- The theorems on the API types and the inventory at concrete values.
use kustomize_controller.Base.{
  ℕ, ◌≡◌, ◌≤◌, refl, some, List, [], ◌∷◌, ◌++◌, map, In, contains, ◌||◌, ◌&&◌, not, ◌↔◌,
  NoDuplicates,
}
use kustomize_controller.Base.Int.{pos}
use kustomize_controller.Errors.{ok}
use kustomize_controller.Api.Inventory.{ResourceInventory, ResourceRef, ids}
use kustomize_controller.Api.Defaults.{thirty_seconds, get_timeout}
use kustomize_controller.Api.Durations.{get_timeout_bounds}
use kustomize_controller.Inventory.Packages.{Unstructured}
use kustomize_controller.Inventory.Operations.{new, object_id, add_change_set, merge, list, diff}
use kustomize_controller.Inventory.Merging.{merge_lem, merge-NoDuplicates}
use kustomize_controller.Inventory.Stale.{ref, contains-diff}
use kustomize_controller.Inventory.Listing.{entry_object, list-add_change_set}
use kustomize_controller.Samples.Packages.{sample_packages, sample_packages-IsLawful, config_map}
use kustomize_controller.Samples.Objects.{
  sample_kustomization, old_inventory, new_set, config_object,
}

get_timeout_bounds_example :
    (n : ℕ) × (get_timeout sample_kustomization ≡ pos n) × (thirty_seconds ≤ n)
get_timeout_bounds_example = get_timeout_bounds sample_kustomization

-- Two objects with one identifier, and one that is tracked.
abbrev applied_objects : List Unstructured
applied_objects = config_object "queue" ∷ (config_object "web" ∷ (config_object "queue" ∷ []))

abbrev merged_inventory : ResourceInventory
merged_inventory = record { entries = old_inventory.entries ++ ref "queue" "v1" ∷ [] }

merge_example : merge sample_packages (some old_inventory) applied_objects ≡ some merged_inventory
unfolding merge
merge_example = refl

merge_lem_example :
    (result : ResourceInventory) × (merge sample_packages (some old_inventory) applied_objects
      ≡ some result)
    × ((rest : List ResourceRef) × (result.entries ≡ old_inventory.entries ++ rest))
    × (contains (ids result) "queue" ≡ (
        contains (ids old_inventory) "queue"
        || contains (map (object_id sample_packages) applied_objects) "queue"))
merge_lem_example = merge_lem sample_packages old_inventory applied_objects "queue"

merge-NoDuplicates_example : NoDuplicates (ids merged_inventory)
merge-NoDuplicates_example =
    merge-NoDuplicates sample_packages old_inventory merged_inventory applied_objects merge_example
      (refl, (refl, tt))

abbrev new_inventory : ResourceInventory
new_inventory = record { entries = ref "web" "v1" ∷ (ref "queue" "v1" ∷ []) }

contains-diff_example :
    (us : List Unstructured) × (diff sample_packages old_inventory new_inventory ≡ ok us)
    × (contains (map (object_id sample_packages) us) "cache"
        ≡ (contains (ids old_inventory) "cache" && not (contains (ids new_inventory) "cache")))
contains-diff_example =
    contains-diff sample_packages sample_packages-IsLawful old_inventory new_inventory "cache"
      ((config_map "web", refl, refl), ((config_map "cache", refl, refl), tt))
      ((config_map "web", refl, refl), ((config_map "queue", refl, refl), tt))

-- What is stale: the object, as `Diff` builds it.
abbrev stale_cache : Unstructured
stale_cache = config_object "cache"

diff_example : diff sample_packages old_inventory new_inventory ≡ ok (stale_cache ∷ [])
unfolding diff
diff_example = refl

list-add_change_set_example :
    (us : List Unstructured) × (list sample_packages
        (add_change_set sample_packages new (some new_set))
      ≡ ok us)
    × (In (config_object "web") us ↔ In (config_object "web") (map entry_object new_set.entries))
list-add_change_set_example =
    list-add_change_set sample_packages sample_packages-IsLawful new_set (config_object "web")
      (refl, (refl, tt))
