-- ===== src/Inventory/Parsing.antt =====
-- The identifiers of an inventory that `object.ParseObjMetadata` reads back, in
-- internal/inventory/inventory.go.
use kustomize_controller.Base.{◌≡◌, refl, ap, List, [], ◌∷◌, map, All, In, inl, inr}
use kustomize_controller.Errors.{ok}
use kustomize_controller.Api.Inventory.{ResourceRef, entry_ids}
use kustomize_controller.Inventory.Packages.{ObjectPackages, ObjMetadata}
use kustomize_controller.Inventory.Operations.{list_metadata}

module _ (P : ObjectPackages) where
  -- The identifier of the metadata is read back as the metadata.
  abbrev pub RoundTrips : ObjMetadata → Type 0
  RoundTrips m = P.parse_metadata (P.metadata_string m) ≡ ok m

  -- The entry's identifier is that of some metadata which is read back.
  abbrev pub IsCanonical : ResourceRef → Type 0
  IsCanonical e = (m : ObjMetadata) × (P.metadata_string m ≡ e.id) × RoundTrips m

  pub metadata_string_inj :
      (m n : ObjMetadata)
      → RoundTrips m
      → RoundTrips n
      → P.metadata_string m ≡ P.metadata_string n
      → m ≡ n
  metadata_string_inj m n hm hn e = cc (ap P.parse_metadata e)

  -- The metadata of canonical entries: all are read, and their identifiers are those of the entries.
  pub list_metadata_lem :
      (es : List ResourceRef)
      → All IsCanonical es
      → (ms : List ObjMetadata) × (list_metadata P es ≡ ok ms)
        × (map P.metadata_string ms ≡ entry_ids es)
        × All RoundTrips ms
  unfolding list_metadata
  list_metadata_lem [] h = ([], refl, refl, tt)
  list_metadata_lem (e ∷ es) ((m, at, back), hs) =
      let (ms, read, same, round) = list_metadata_lem es hs in
      (m ∷ ms, rw (← at, back, read), cc, (back, round))

  pub All-In :
      (ms : List ObjMetadata) (m : ObjMetadata) → All RoundTrips ms → In m ms → RoundTrips m
  All-In [] m h i = absurd i
  All-In (n ∷ ms) m (h, hs) (inl e) = rw e h
  All-In (n ∷ ms) m (h, hs) (inr i) = All-In ms m hs i
