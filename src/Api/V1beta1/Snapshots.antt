-- ===== src/Api/V1beta1/Snapshots.antt =====
-- api/v1beta1/snapshot_types.go: the kinds of objects that a revision has, by namespace.
use kustomize_controller.Base.{
  ◌++◌, String, ◌==◌, ◌≡◌, sym, Bool, Bool-cases, inl, inr, ◌&&◌, ◌||◌, if◌then◌else◌, List, [],
  ◌∷◌, map, contains, any, arith, eq_iff,
}
use kustomize_controller.Base.Text.{has_substring}
use kustomize_controller.Base.Cutting.{split_at_char}
use kustomize_controller.Errors.{Result, ok, err, ◌>>=◌}

-- The keys of a snapshot's entry are texts such as "apps/v1, Kind=Deployment".
pub record SnapshotEntry : Type 0 where
  pub namespace : String
  pub kinds : List (String × String)

pub record Snapshot : Type 0 where
  pub checksum : String
  pub entries : List SnapshotEntry

-- `schema.GroupVersionKind`
pub record GroupVersionKind : Type 0 where
  pub group_version : String
  pub kind : String

-- The packages yaml, unstructured and schema.
pub record SnapshotPackages (Object : Type 0) : Type 0 where
  -- what the decoder returns, up to the end of the text
  pub documents : String → List (Result Object)
  pub is_list : Object → Bool
  -- the items of a list, or the error of `EachListItem` for one that is no object
  pub list_items : Object → Result (List Object)
  pub get_namespace : Object → String
  pub get_kind : Object → String
  -- `GroupVersionKind().String()`
  pub gvk_string : Object → String
  -- `schema.ParseGroupVersion`, as its text
  pub parse_group_version : String → Result String

-- `kinds[key] = kind`, on a map with one binding for each key
unfoldable pub set_kind : List (String × String) → String → String → List (String × String)
set_kind [] key kind = (key, kind) ∷ []
set_kind ((j, v) ∷ m) key kind =
    let rest = set_kind m key kind in if j == key then (j, kind) ∷ m else (j, v) ∷ rest

-- The loop of `addEntry`, with the entry that is appended if none is found
unfoldable pub track : List SnapshotEntry → String → String → String → List SnapshotEntry
unfolding set_kind
track [] namespace key kind = record { namespace = namespace; kinds = (key, kind) ∷ [] } ∷ []
track (e ∷ es) namespace key kind =
    let rest = track es namespace key kind in
    if e.namespace == namespace
    then record e { kinds = set_kind e.kinds key kind } ∷ es
    else e ∷ rest

-- `strings.Split(gvk, ",")[0]`
abbrev first_part : List String → String
first_part [] = ""
first_part (p ∷ ps) = p

module _ {Object : Type 0} (P : SnapshotPackages Object) where
  -- `addEntry`
  unfoldable pub add_entry : List SnapshotEntry → Object → List SnapshotEntry
  unfolding track
  add_entry es o = track es (P.get_namespace o) (P.gvk_string o) (P.get_kind o)

  unfoldable pub add_entries : List SnapshotEntry → List Object → List SnapshotEntry
  unfolding add_entry
  add_entries es [] = es
  add_entries es (o ∷ os) = add_entries (add_entry es o) os

  -- The objects of one document
  abbrev objects_of : Object → Result (List Object)
  objects_of o = if P.is_list o then P.list_items o else ok (o ∷ [])

  -- The loop of `NewSnapshot`
  unfoldable pub add_documents :
      List SnapshotEntry → List (Result Object) → Result (List SnapshotEntry)
  unfolding add_entries
  add_documents es [] = ok es
  add_documents es (r ∷ rs) = do o ← r; os ← objects_of o; add_documents (add_entries es os) rs

  -- `NewSnapshot`
  unfoldable pub new_snapshot : String → String → Result Snapshot
  unfolding add_documents
  new_snapshot manifests checksum = do
    entries ← add_documents [] (P.documents manifests)
    ok (record { checksum = checksum; entries = entries })

  -- The loop over the kinds of an entry; those that cannot be parsed are left out.
  unfoldable pub parsed_kinds : List (String × String) → List GroupVersionKind
  parsed_kinds [] = []
  parsed_kinds ((gvk, kind) ∷ m) =
      let rest = parsed_kinds m in
      if has_substring gvk ","
      then (elim (P.parse_group_version (first_part (split_at_char b',' gvk))) [
        | ok gv ↦ record { group_version = gv; kind = kind } ∷ rest
        | err e ↦ rest
      ])
      else rest

  -- `NonNamespacedKinds`
  unfoldable pub non_namespaced_kinds : List SnapshotEntry → List GroupVersionKind
  unfolding parsed_kinds
  non_namespaced_kinds [] = []
  non_namespaced_kinds (e ∷ es) =
      let rest = non_namespaced_kinds es in
      if e.namespace == "" then parsed_kinds e.kinds ++ rest else rest

  -- `NamespacedKinds`, with a binding for each entry in their order
  unfoldable pub namespaced_kinds : List SnapshotEntry → List (String × List GroupVersionKind)
  unfolding parsed_kinds
  namespaced_kinds [] = []
  namespaced_kinds (e ∷ es) =
      let rest = namespaced_kinds es in
      if e.namespace == "" then rest else (e.namespace, parsed_kinds e.kinds) ∷ rest

-- The snapshot has the key for the namespace.
abbrev pub keys : List (String × String) → List String
keys = map (λ (b : String × String). b.0)

abbrev pub has_key : String → String → SnapshotEntry → Bool
has_key namespace key e = e.namespace == namespace && contains (keys e.kinds) key

contains-set_kind :
    (m : List (String × String)) (key kind k : String)
    → contains (keys (set_kind m key kind)) k ≡ (contains (keys m) k || key == k)
unfolding set_kind
contains-set_kind [] key kind k = ground arith
contains-set_kind ((j, v) ∷ m) key kind k =
    ground (arith, contains-set_kind m key kind k, eq_iff j key, eq_iff j k, eq_iff key k)

distribute : (a c d r : Bool) → ((a && (c || d)) || r) ≡ (((a && c) || r) || (a && d))
distribute a c d r = ground arith

regroup : (h r q : Bool) → (h || (r || q)) ≡ ((h || r) || q)
regroup h r q = ground arith

any-track :
    (es : List SnapshotEntry) (namespace key kind n k : String)
    → any (has_key n k) (track es namespace key kind)
      ≡ (any (has_key n k) es || (namespace == n && key == k))
unfolding track
any-track [] namespace key kind n k = ground arith
any-track (e ∷ es) namespace key kind n k = elim (Bool-cases (e.namespace == namespace)) [
  | inl hit ↦
      let same : namespace ≡ e.namespace = ground (arith, eq_iff e.namespace namespace) in
      rw (hit, contains-set_kind e.kinds key kind k)
        (simp (same) (
          distribute (e.namespace == n) (contains (keys e.kinds) k) (key == k)
            (any (has_key n k) es)))
  | inr miss ↦
      rw (miss, any-track es namespace key kind n k)
        (regroup (has_key n k e) (any (has_key n k) es) (namespace == n && key == k))
]

module _ {Object : Type 0} (P : SnapshotPackages Object) where
  -- The object has the key in the namespace.
  abbrev pub is_at : String → String → Object → Bool
  is_at n k o = P.get_namespace o == n && P.gvk_string o == k

  -- The entries record exactly the kinds and namespaces of the objects, and what was there before.
  pub any-add_entries :
      (es : List SnapshotEntry) (os : List Object) (n k : String)
      → any (has_key n k) (add_entries P es os) ≡ (any (has_key n k) es || any (is_at n k) os)
  unfolding add_entries
  any-add_entries es [] n k = ground arith
  any-add_entries es (o ∷ os) n k =
      rw
        (
          any-add_entries (add_entry P es o) os n k,
          any-track es (P.get_namespace o) (P.gvk_string o) (P.get_kind o) n k,
        )
        (sym (regroup (any (has_key n k) es) (is_at n k o) (any (is_at n k) os)))
