-- ===== src/Api/Inventory.antt =====
-- api/v1/inventory_types.go
use kustomize_controller.Base.{String, List, map}

-- The identifier of an applied object, `<namespace>_<name>_<group>_<kind>`, and its API version.
pub record ResourceRef : Type 0 where
  pub id : String
  pub version : String

pub record ResourceInventory : Type 0 where
  pub entries : List ResourceRef

-- The identifiers that an inventory tracks.
abbrev pub entry_ids : List ResourceRef → List String
entry_ids = map (λ (e : ResourceRef). e.id)

abbrev pub ids : ResourceInventory → List String
ids inv = entry_ids inv.entries
