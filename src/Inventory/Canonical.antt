-- ===== src/Inventory/Canonical.antt =====
-- The objects of `Diff` and the entries of `Merge` of internal/inventory/inventory.go have
-- identifiers that are read back.
use kustomize_controller.Base.{
  String, ◌≡◌, refl, some, Bool-cases, inl, inr, List, [], ◌∷◌, ◌++◌, contains, All, In,
}
use kustomize_controller.Errors.{ok}
use kustomize_controller.Api.Inventory.{ResourceInventory, ResourceRef, ids}
use kustomize_controller.Inventory.Packages.{ObjectPackages, Unstructured, IsLawful}
use kustomize_controller.Inventory.Operations.{object_id, merge_loop, merge, diff}
use kustomize_controller.Inventory.Parsing.{IsCanonical}
use kustomize_controller.Inventory.Stale.{ref, version-diff}

All-at : {A : Type 0} (Q : A → Type 0) (xs : List A) (a : A) → All Q xs → In a xs → Q a
All-at Q [] a h i = absurd i
All-at Q (x ∷ xs) a (h, hs) (inl e) = rw e h
All-at Q (x ∷ xs) a (h, hs) (inr i) = All-at Q xs a hs i

All-append : {A : Type 0} (Q : A → Type 0) (xs ys : List A) → All Q xs → All Q ys → All Q (xs ++ ys)
All-append Q [] ys h g = g
All-append Q (x ∷ xs) ys (h, hs) g = (h, All-append Q xs ys hs g)

module _ (P : ObjectPackages) where
  -- The identifier of the object is read back.
  abbrev pub ObjectIsCanonical : Unstructured → Type 0
  ObjectIsCanonical u = IsCanonical P (ref (object_id P u) u.version)

  -- The stale objects of two inventories with canonical entries.
  pub diff-ObjectIsCanonical :
      IsLawful P
      → (inv target : ResourceInventory) (us : List Unstructured) (u : Unstructured)
      → All (IsCanonical P) inv.entries
      → All (IsCanonical P) target.entries
      → diff P inv target ≡ ok us
      → In u us
      → ObjectIsCanonical u
  diff-ObjectIsCanonical L inv target us u ci ct d i =
      All-at (IsCanonical P) inv.entries _ ci (version-diff P L inv target us u ci ct d i)

  merge_loop-IsCanonical :
      (us : List Unstructured) (seen : List String) (entries : List ResourceRef)
      → ((u : Unstructured) → In u us → ObjectIsCanonical u)
      → All (IsCanonical P) entries
      → All (IsCanonical P) (merge_loop P us seen entries)
  unfolding merge_loop
  merge_loop-IsCanonical [] seen entries h c = c
  merge_loop-IsCanonical (u ∷ us) seen entries h c =
      elim (Bool-cases (contains seen (object_id P u))) [
        | inl old ↦ rw old (merge_loop-IsCanonical us seen entries (λ v i. h v (inr i)) c)
        | inr new ↦ rw new (
            merge_loop-IsCanonical us (object_id P u ∷ seen) _ (λ v i. h v (inr i))
              (All-append (IsCanonical P) entries _ c (h u (inl refl), tt)))
      ]

  -- A merge of objects with such identifiers keeps the entries canonical.
  pub merge-IsCanonical :
      (inv : ResourceInventory) (us : List Unstructured)
      → ((u : Unstructured) → In u us → ObjectIsCanonical u)
      → All (IsCanonical P) inv.entries
      → (result : ResourceInventory) × (merge P (some inv) us ≡ some result)
        × All (IsCanonical P) result.entries
  unfolding merge
  merge-IsCanonical inv [] h c = (inv, refl, c)
  merge-IsCanonical inv (u ∷ us) h c =
      (_, refl, merge_loop-IsCanonical (u ∷ us) (ids inv) inv.entries h c)
