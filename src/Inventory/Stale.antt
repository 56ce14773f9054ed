-- ===== src/Inventory/Stale.antt =====
-- `Diff` of internal/inventory/inventory.go: the stale objects are the difference of two sets.
use kustomize_controller.Base.{
  String, ◌≡◌, refl, ap, ◌⊎◌, true, false, some, List, [], ◌∷◌, map, arith, ◌==◌, eq_iff, In,
  In-map, In-map_inv, In-contains, contains-In, contains, All, lookup, put, text_or_empty, inl, inr,
  Bool-cases, is_empty, if◌then◌else◌, ◌↔◌, ◌&&◌, not,
}
use kustomize_controller.Errors.{ok}
use kustomize_controller.Api.Inventory.{ResourceInventory, ResourceRef, entry_ids, ids}
use kustomize_controller.Inventory.Packages.{ObjectPackages, ObjMetadata, Unstructured, IsLawful}
use kustomize_controller.Inventory.Operations.{
  object_id, version_map, stale_object, list_metadata, diff,
}
use kustomize_controller.Inventory.Parsing.{
  RoundTrips, IsCanonical, metadata_string_inj, list_metadata_lem, All-In,
}

abbrev pub ref : String → String → ResourceRef
ref id version = record { id = id; version = version }

-- What `versionMap` holds for an identifier: the version of an entry, or what it held before.
lookup-version_map :
    (es : List ResourceRef) (m : List (String × String)) (k : String)
    → ((v : String) × (lookup (version_map es m) k ≡ some v) × In (ref k v) es)
      ⊎ ((lookup (version_map es m) k ≡ lookup m k) × (contains (entry_ids es) k ≡ false))
unfolding version_map
lookup-version_map [] m k = inr (refl, refl)
lookup-version_map (e ∷ es) m k = elim (lookup-version_map es (put m e.id e.version) k) [
  | inl hit ↦ inl (hit.0, hit.1, inr hit.2)
  | inr miss ↦ elim (Bool-cases (e.id == k)) [
    | inl same ↦ inl (e.version, rw same at (miss.0), inl (ground (arith, eq_iff e.id k)))
    | inr other ↦ inr (rw other at (miss.0), ground arith)
  ]
]

-- The version of a tracked identifier is one that an entry has with it.
version_of_tracked :
    (es : List ResourceRef) (k : String)
    → contains (entry_ids es) k ≡ true
    → In (ref k (text_or_empty (lookup (version_map es []) k))) es
version_of_tracked es k m = elim (lookup-version_map es [] k) [
  | inl hit ↦ rw hit.1 hit.2
  | inr miss ↦ cc
]

module _ (P : ObjectPackages) (L : IsLawful P) where
  object_id-stale_object :
      (versions : List (String × String)) (m : ObjMetadata)
      → object_id P (stale_object P versions m) ≡ P.metadata_string m
  object_id-stale_object versions m = ap P.metadata_string (L.to_metadata_fields _)

  -- The stale objects of two inventories with canonical entries, described by their metadata.
  pub record Difference (inv target : ResourceInventory) (us : List Unstructured) : Type 0 where
    pub computed : diff P inv target ≡ ok us
    -- each is an entry of the old inventory which the new one does not track
    pub sound :
        (u : Unstructured)
        → In u us
        → In (ref (object_id P u) u.version) inv.entries
          × (contains (ids target) (object_id P u) ≡ false)
    -- each identifier that only the old one tracks is that of a stale object
    pub complete :
        (k : String)
        → contains (ids inv) k ≡ true
        → contains (ids target) k ≡ false
        → contains (map (object_id P) us) k ≡ true

  -- The objects that `diff` returns for the stale metadata.
  abbrev objects_of : List (String × String) → List ObjMetadata → List Unstructured
  objects_of versions [] = []
  objects_of versions (m ∷ ms) = P.sort_objects (map (stale_object P versions) (m ∷ ms))

  objects_of_lem :
      (versions : List (String × String)) (ms : List ObjMetadata)
      → (if is_empty ms then ok [] else ok (P.sort_objects (map (stale_object P versions) ms)))
        ≡ ok (objects_of versions ms)
  objects_of_lem versions [] = refl
  objects_of_lem versions (m ∷ ms) = refl

  In-objects_of :
      (versions : List (String × String)) (ms : List ObjMetadata) (u : Unstructured)
      → In u (objects_of versions ms) ↔ In u (map (stale_object P versions) ms)
  In-objects_of versions [] u = (λ i. i, λ i. i)
  In-objects_of versions (m ∷ ms) u = L.In-sort_objects u (map (stale_object P versions) (m ∷ ms))

  diff-eq-objects_of :
      (inv target : ResourceInventory) (old current : List ObjMetadata)
      → list_metadata P inv.entries ≡ ok old
      → list_metadata P target.entries ≡ ok current
      → diff P inv target ≡ ok (objects_of (version_map inv.entries []) (P.set_diff old current))
  unfolding diff
  diff-eq-objects_of inv target old current a b =
      rw (a, b) (objects_of_lem (version_map inv.entries []) (P.set_diff old current))

  module _ (inv target : ResourceInventory) (old current : List ObjMetadata)
      (old_ids : map P.metadata_string old ≡ ids inv)
      (current_ids : map P.metadata_string current ≡ ids target)
      (old_round : All (RoundTrips P) old) (current_round : All (RoundTrips P) current) where
    abbrev versions : List (String × String)
    versions = version_map inv.entries []

    abbrev stale : List ObjMetadata
    stale = P.set_diff old current

    -- Metadata of the difference are not tracked by the new inventory, since their identifiers
    -- determine them.
    untracked :
        (m : ObjMetadata)
        → In m old
        → ¬ In m current
        → contains (ids target) (P.metadata_string m) ≡ false
    untracked m i n = elim (Bool-cases (contains (ids target) (P.metadata_string m))) [
      | inl hit ↦
          let at_id = In-contains (ids target) (P.metadata_string m) hit in
          let at_map : In (P.metadata_string m) (map P.metadata_string current) =
            rw current_ids at_id in
          let (m', i', e) = In-map_inv P.metadata_string (P.metadata_string m) current at_map in
          let same =
            metadata_string_inj P m m' (All-In P old m old_round i)
              (All-In P current m' current_round i') e in
          absurd (n (rw same i'))
      | inr miss ↦ miss
    ]

    tracked : (m : ObjMetadata) → In m old → contains (ids inv) (P.metadata_string m) ≡ true
    tracked m i = contains-In (ids inv) _ (rw (← old_ids) (In-map P.metadata_string m old i))

    objects_sound :
        (u : Unstructured)
        → In u (objects_of versions stale)
        → In (ref (object_id P u) u.version) inv.entries
          × (contains (ids target) (object_id P u) ≡ false)
    objects_sound u i =
        let (m, im, e) =
          In-map_inv (stale_object P versions) u stale ((In-objects_of versions stale u).0 i) in
        let (io, ic) = (L.In-set_diff m old current).0 im in
        rw (e, object_id-stale_object)
          (version_of_tracked inv.entries (P.metadata_string m) (tracked m io), untracked m io ic)

    objects_complete :
        (k : String)
        → contains (ids inv) k ≡ true
        → contains (ids target) k ≡ false
        → contains (map (object_id P) (objects_of versions stale)) k ≡ true
    objects_complete k h g =
        let at_map : In k (map P.metadata_string old) = rw old_ids (In-contains (ids inv) k h) in
        let (m, io, e) = In-map_inv P.metadata_string k old at_map in
        let ic : ¬ In m current = λ i. cc (
          contains-In (ids target) k
            (rw (← current_ids, e) (In-map P.metadata_string m current i))) in
        let im =
          In-map (stale_object P versions) m stale ((L.In-set_diff m old current).1 (io, ic)) in
        contains-In _ k (
          rw (e, ← object_id-stale_object versions m)
            (In-map (object_id P) (stale_object P versions m) (objects_of versions stale)
              ((In-objects_of versions stale _).1 im)))

  -- `Diff` of two inventories with canonical entries.
  pub diff_lem :
      (inv target : ResourceInventory)
      → All (IsCanonical P) inv.entries
      → All (IsCanonical P) target.entries
      → (us : List Unstructured) × Difference inv target us
  diff_lem inv target ci ct =
      let (old, a, old_ids, old_round) = list_metadata_lem P inv.entries ci in
      let (current, b, current_ids, current_round) = list_metadata_lem P target.entries ct in
      (
        objects_of (version_map inv.entries []) (P.set_diff old current),
        record {
          computed = diff-eq-objects_of inv target old current a b;
          sound = objects_sound inv target old current old_ids current_ids old_round current_round;
          complete =
              objects_complete inv target old current old_ids current_ids old_round current_round;
        },
      )

  sound_ids :
      (inv target : ResourceInventory) (us : List Unstructured) (k : String)
      → Difference inv target us
      → contains (map (object_id P) us) k ≡ true
      → (contains (ids inv) k ≡ true) × (contains (ids target) k ≡ false)
  sound_ids inv target us k D h =
      let (u, i, e) = In-map_inv (object_id P) k us (In-contains (map (object_id P) us) k h) in
      let (entry, fresh) = D.sound u i in
      rw e (contains-In (ids inv) _ (In-map (λ (r : ResourceRef). r.id) _ inv.entries entry), fresh)

  -- Of two inventories with canonical entries, `Diff` succeeds, and an identifier is that of a stale
  -- object exactly when the old inventory tracks it and the new one does not.
  pub contains-diff :
      (inv target : ResourceInventory) (k : String)
      → All (IsCanonical P) inv.entries
      → All (IsCanonical P) target.entries
      → (us : List Unstructured) × (diff P inv target ≡ ok us)
        × (contains (map (object_id P) us) k
            ≡ (contains (ids inv) k && not (contains (ids target) k)))
  contains-diff inv target k ci ct =
      let (us, D) = diff_lem inv target ci ct in
      (us, D.computed, ground (arith, sound_ids inv target us k D, D.complete k))

  -- A stale object carries the version that the old inventory has with its identifier.
  pub version-diff :
      (inv target : ResourceInventory) (us : List Unstructured) (u : Unstructured)
      → All (IsCanonical P) inv.entries
      → All (IsCanonical P) target.entries
      → diff P inv target ≡ ok us
      → In u us
      → In (ref (object_id P u) u.version) inv.entries
  version-diff inv target us u ci ct d i =
      let (us', D) = diff_lem inv target ci ct in
      let same : us ≡ us' = cc (D.computed) in (D.sound u (rw same at i)).0
