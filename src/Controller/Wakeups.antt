-- ===== src/Controller/Wakeups.antt =====
-- Which Kustomizations a change of a source brings to the queue
-- (internal/controller/kustomization_indexers.go).
use kustomize_controller.Base.{
  String, ◌≡◌, ◌↔◌, ap, sym, ◌∙◌, In-map, In-map_inv, false, some, List, [], ◌∷◌, map, In, inl, inr,
  arith, Bool-cases, eq_iff,
}
use mathlib.Core.Path.{subst}
use kustomize_controller.Errors.{ok}
use kustomize_controller.Api.References.{NamespacedName}
use kustomize_controller.Api.Object.{Kustomization}
use kustomize_controller.Platform.Values.{Artifact}
use kustomize_controller.Platform.Services.{Platform}
use kustomize_controller.Controller.Source.{name_string, source_name}
use kustomize_controller.Controller.Triggers.{
  Queue, index_by, is_up_to_date, outdated, requests_for_revision_change_of,
}

abbrev pub name_of : Kustomization → NamespacedName
name_of k = record { namespace = k.namespace; name = k.name }

-- What the code relies on, for a cluster with the given Kustomizations: listing by the index gives
-- those whose index has the value, and sorting, if it succeeds, gives the names of what it is given.
pub record IsLawful (Q : Queue) (index kind : String) (all : List Kustomization) : Type 0 where
  pub In-list_by :
      (key : String) (ks : List Kustomization) (k : Kustomization)
      → Q.list_by index key ≡ ok ks
      → In k ks ↔ (In k all × In key (index_by kind k))
  pub In-sort :
      (ks : List Kustomization) (ns : List NamespacedName) (n : NamespacedName)
      → Q.sort ks ≡ ok ns
      → In n ns ↔ In n (map name_of ks)

module _ (P : Platform) (artifact : Artifact) where
  In-outdated :
      (ks : List Kustomization) (k : Kustomization)
      → In k (outdated P artifact ks) ↔ (In k ks × (is_up_to_date P artifact k ≡ false))
  unfolding outdated
  In-outdated [] k = ground arith
  In-outdated (j ∷ ks) k = elim (Bool-cases (is_up_to_date P artifact j)) [
    | inl current ↦ rw current (
      λ i. let (m, u) = (In-outdated ks k).0 i in (inr m, u),
      λ (i, u). elim i [
        | inl e ↦ ground (arith, current, u, ap (is_up_to_date P artifact) e)
        | inr m ↦ (In-outdated ks k).1 (m, u)
      ],
    )
    | inr old ↦ rw old (
      λ i. elim i [
        | inl e ↦ (inl e, ap (is_up_to_date P artifact) e ∙ old)
        | inr m ↦ let (l, u) = (In-outdated ks k).0 m in (inr l, u)
      ],
      λ (i, u). elim i [ inl e ↦ inl e | inr m ↦ inr ((In-outdated ks k).1 (m, u)) ],
    )
  ]

  In-index_by :
      (kind key : String) (k : Kustomization)
      → In key (index_by kind k)
        ↔ ((k.spec.source_ref.kind ≡ kind) × (key ≡ name_string (source_name k)))
  unfolding index_by
  In-index_by kind key k = ground (arith, eq_iff k.spec.source_ref.kind kind)

module _ (P : Platform) (Q : Queue) (index kind : String) (all : List Kustomization)
    (L : IsLawful Q index kind all) where
  -- A Kustomization that a change of the source with the given key and artifact wakes up.
  pub record IsWoken (key : String) (artifact : Artifact) (k : Kustomization) : Type 0 where
    pub known : In k all
    pub of_kind : k.spec.source_ref.kind ≡ kind
    pub of_key : key ≡ name_string (source_name k)
    pub is_outdated : is_up_to_date P artifact k ≡ false

  requests_lem :
      (key : String) (artifact : Artifact) (ks : List Kustomization) (ns : List NamespacedName)
      → Q.list_by index key ≡ ok ks
      → Q.sort (outdated P artifact ks) ≡ ok ns
      → requests_for_revision_change_of P Q index key (some artifact) ≡ ns
  unfolding requests_for_revision_change_of
  requests_lem key artifact ks ns listed sorted = ground arith

  -- If the Kustomizations of the source are listed and sorted, the requests for a change of the
  -- source are for the names of the Kustomizations that reference it, by kind, namespace and name,
  -- and that are not ready or reconciling at the artifact's revision, and for no others.
  pub requests_for_revision_change_of_iff :
      (key : String) (artifact : Artifact) (ks : List Kustomization) (ns : List NamespacedName)
      (n : NamespacedName)
      → Q.list_by index key ≡ ok ks
      → Q.sort (outdated P artifact ks) ≡ ok ns
      → In n (requests_for_revision_change_of P Q index key (some artifact))
        ↔ ((k : Kustomization) × IsWoken key artifact k × (n ≡ name_of k))
  requests_for_revision_change_of_iff key artifact ks ns n listed sorted =
      rw (requests_lem key artifact ks ns listed sorted) (
        λ i.
            let (k, m, e) =
              In-map_inv name_of n (outdated P artifact ks)
                ((L.In-sort (outdated P artifact ks) ns n sorted).0 i) in
            let (l, u) = (In-outdated P artifact ks k).0 m in
            let (a, x) = (L.In-list_by key ks k listed).0 l in
            let (of_kind, of_key) = (In-index_by P artifact kind key k).0 x in
            (k, record { known = a; of_kind = of_kind; of_key = of_key; is_outdated = u }, e),
        λ (k, w, e). (L.In-sort (outdated P artifact ks) ns n sorted).1 (
            subst (λ x. In x (map name_of (outdated P artifact ks))) (sym e)
              (In-map name_of k (outdated P artifact ks) (
                (In-outdated P artifact ks k).1 (
                  (L.In-list_by key ks k listed).1
                      (w.known, (In-index_by P artifact kind key k).1 (w.of_kind, w.of_key)),
                  w.is_outdated,
                )))),
      )
