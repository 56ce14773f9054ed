-- ===== src/Inventory/Merging.antt =====
-- `Merge` of internal/inventory/inventory.go is the union of two sets of identifiers.
use mathlib.Core.List.{map-append, append_assoc, append-nil}
use kustomize_controller.Base.{
  String, ◌≡◌, refl, ap, sym, ◌∙◌, true, ◌||◌, some, List, [], ◌∷◌, ◌++◌, map, arith, contains,
  contains-append, NoDuplicates, NoDuplicates-append_one, Bool-cases, inl, inr, eq_iff, eq_refl,
}
use kustomize_controller.Api.Inventory.{ResourceInventory, ResourceRef, entry_ids, ids}
use kustomize_controller.Inventory.Packages.{ObjectPackages, Unstructured}
use kustomize_controller.Inventory.Operations.{object_id, merge_loop, merge}

-- `seen` and the entries hold the same identifiers, as at the start of every round of the loop.
abbrev SameIds : List String → List ResourceRef → Type 0
SameIds seen entries = (k : String) → contains seen k ≡ contains (entry_ids entries) k

SameIds-add :
    (seen : List String) (entries : List ResourceRef) (e : ResourceRef)
    → SameIds seen entries
    → SameIds (e.id ∷ seen) (entries ++ e ∷ [])
SameIds-add seen entries e same k = rw (map-append, contains-append) (ground (arith, same k))

module _ (P : ObjectPackages) where
  -- The entry that a round adds.
  abbrev added : Unstructured → ResourceRef
  added u = record { id = object_id P u; version = u.version }

  contains-merge_loop :
      (us : List Unstructured) (seen : List String) (entries : List ResourceRef) (k : String)
      → SameIds seen entries
      → contains (entry_ids (merge_loop P us seen entries)) k
        ≡ (contains (entry_ids entries) k || contains (map (object_id P) us) k)
  unfolding merge_loop
  contains-merge_loop [] seen entries k same = ground arith
  contains-merge_loop (u ∷ us) seen entries k same =
      elim (Bool-cases (contains seen (object_id P u))) [
        | inl old ↦
            rw (old, contains-merge_loop us seen entries k same)
              (ground (arith, same (object_id P u), eq_iff (object_id P u) k))
        | inr new ↦
            rw
              (
                new,
                contains-merge_loop us (object_id P u ∷ seen) (entries ++ added u ∷ []) k
                    (SameIds-add seen entries (added u) same),
                map-append,
                contains-append,
              )
              (ground arith)
      ]

  merge_loop-NoDuplicates :
      (us : List Unstructured) (seen : List String) (entries : List ResourceRef)
      → SameIds seen entries
      → NoDuplicates (entry_ids entries)
      → NoDuplicates (entry_ids (merge_loop P us seen entries))
  unfolding merge_loop
  merge_loop-NoDuplicates [] seen entries same u = u
  merge_loop-NoDuplicates (o ∷ us) seen entries same u =
      elim (Bool-cases (contains seen (object_id P o))) [
        | inl old ↦ rw old (merge_loop-NoDuplicates us seen entries same u)
        | inr new ↦ rw new (
            merge_loop-NoDuplicates us (object_id P o ∷ seen) (entries ++ added o ∷ [])
              (SameIds-add seen entries (added o) same)
              (rw map-append (
                NoDuplicates-append_one (entry_ids entries) (object_id P o) u
                  (sym (same (object_id P o)) ∙ new))))
      ]

  -- What a round adds stands behind the entries that were there.
  merge_loop-extends :
      (us : List Unstructured) (seen : List String) (entries : List ResourceRef)
      → (rest : List ResourceRef) × (merge_loop P us seen entries ≡ entries ++ rest)
  unfolding merge_loop
  merge_loop-extends [] seen entries = ([], sym (append-nil entries))
  merge_loop-extends (u ∷ us) seen entries = elim (Bool-cases (contains seen (object_id P u))) [
    | inl old ↦ rw old (merge_loop-extends us seen entries)
    | inr new ↦
        let (rest, e) = merge_loop-extends us (object_id P u ∷ seen) (entries ++ added u ∷ []) in
        (added u ∷ rest, rw (new, e, append_assoc))
  ]

  -- Objects that are all tracked add nothing.
  merge_loop-settled :
      (us : List Unstructured) (seen : List String) (entries : List ResourceRef)
      → ((k : String) → contains (map (object_id P) us) k ≡ true → contains seen k ≡ true)
      → merge_loop P us seen entries ≡ entries
  unfolding merge_loop
  merge_loop-settled [] seen entries h = refl
  merge_loop-settled (u ∷ us) seen entries h =
      rw (h (object_id P u) (ground (arith, eq_refl (object_id P u))))
        (merge_loop-settled us seen entries (λ k m. h k (ground arith)))

  abbrev merged_entries : ResourceInventory → List Unstructured → List ResourceRef
  merged_entries inv us = merge_loop P us (ids inv) inv.entries

  -- The test for an empty list of objects is no special case.
  merge-eq-loop :
      (inv : ResourceInventory) (us : List Unstructured)
      → merge P (some inv) us ≡ some (record { entries = merged_entries inv us })
  unfolding merge merge_loop
  merge-eq-loop inv [] = refl
  merge-eq-loop inv (u ∷ us) = refl

  -- A merge into an inventory gives an inventory that begins with the entries of the old one, and
  -- that tracks an identifier exactly when the old one did or one of the objects has it.
  pub merge_lem :
      (inv : ResourceInventory) (us : List Unstructured) (k : String)
      → (result : ResourceInventory) × (merge P (some inv) us ≡ some result)
        × ((rest : List ResourceRef) × (result.entries ≡ inv.entries ++ rest))
        × (contains (ids result) k ≡ (contains (ids inv) k || contains (map (object_id P) us) k))
  merge_lem inv us k = (
    record { entries = merged_entries inv us },
    merge-eq-loop inv us,
    merge_loop-extends us (ids inv) inv.entries,
    contains-merge_loop us (ids inv) inv.entries k (λ j. refl),
  )

  merge-inv :
      (inv result : ResourceInventory) (us : List Unstructured)
      → merge P (some inv) us ≡ some result
      → result ≡ record { entries = merged_entries inv us }
  merge-inv inv result us h = cc (merge-eq-loop inv us)

  -- If no identifier stands twice in the old inventory, none does in the merged one, also where
  -- two of the objects share one.
  pub merge-NoDuplicates :
      (inv result : ResourceInventory) (us : List Unstructured)
      → merge P (some inv) us ≡ some result
      → NoDuplicates (ids inv)
      → NoDuplicates (ids result)
  merge-NoDuplicates inv result us h u =
      rw (merge-inv inv result us h)
        (merge_loop-NoDuplicates us (ids inv) inv.entries (λ j. refl) u)

  merged_settled :
      (inv : ResourceInventory) (us : List Unstructured) (k : String)
      → contains (map (object_id P) us) k ≡ true
      → contains (entry_ids (merged_entries inv us)) k ≡ true
  merged_settled inv us k m =
      rw (contains-merge_loop us (ids inv) inv.entries k (λ j. refl), m) (ground arith)

  -- To merge the same objects again changes nothing.
  merge-merge :
      (inv result : ResourceInventory) (us : List Unstructured)
      → merge P (some inv) us ≡ some result
      → merge P (some result) us ≡ some result
  merge-merge inv result us h = rw (merge-inv inv result us h) (
      merge-eq-loop (record { entries = merged_entries inv us }) us
      ∙ ap (λ es. some (record { entries = es }))
          (merge_loop-settled us (entry_ids (merged_entries inv us)) (merged_entries inv us)
            (merged_settled inv us)))
