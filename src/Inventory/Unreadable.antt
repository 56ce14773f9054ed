-- ===== src/Inventory/Unreadable.antt =====
-- `Diff` of internal/inventory/inventory.go for an inventory with an identifier that cannot be read.
use kustomize_controller.Base.{◌≡◌, refl, inl, inr, List, [], ◌∷◌, In}
use kustomize_controller.Errors.{Error, err, Result-cases}
use kustomize_controller.Api.Inventory.{ResourceInventory, ResourceRef}
use kustomize_controller.Inventory.Packages.{ObjectPackages}
use kustomize_controller.Inventory.Operations.{list_metadata, diff}

module _ (P : ObjectPackages) where
  list_metadata_fails :
      (entries : List ResourceRef) (r : ResourceRef) (e : Error)
      → In r entries
      → P.parse_metadata r.id ≡ err e
      → (e' : Error) × (list_metadata P entries ≡ err e')
  unfolding list_metadata
  list_metadata_fails [] r e i bad = absurd i
  list_metadata_fails (r' ∷ rs) r e (inl same) bad = (e, rw (← same, bad) refl)
  list_metadata_fails (r' ∷ rs) r e (inr i) bad =
      let (e', fails) = list_metadata_fails rs r e i bad in
      elim (Result-cases (P.parse_metadata r'.id)) [
        | inl (m, good) ↦ (e', rw (good, fails) refl)
        | inr (x, wrong) ↦ (x, rw wrong refl)
      ]

  -- One identifier of the old inventory that cannot be read makes `Diff` fail, wherever it stands.
  pub diff_fails :
      (inv target : ResourceInventory) (r : ResourceRef) (e : Error)
      → In r inv.entries
      → P.parse_metadata r.id ≡ err e
      → (e' : Error) × (diff P inv target ≡ err e')
  unfolding diff
  diff_fails inv target r e i bad =
      let (e', fails) = list_metadata_fails inv.entries r e i bad in (e', rw fails refl)
