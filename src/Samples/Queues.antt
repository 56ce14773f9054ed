-- ===== src/Samples/Queues.antt =====
-- A cluster with one Kustomization, and a queue for it.
use kustomize_controller.Base.{
  String, ◌≡◌, ◌↔◌, sym, ◌==◌, true, List, [], ◌∷◌, map, In, inl, inr, arith, eq_iff, Bool-cases,
  if◌then◌else◌,
}
use mathlib.Core.Path.{subst}
use kustomize_controller.Errors.{ok}
use kustomize_controller.Api.Object.{Kustomization}
use kustomize_controller.Controller.Source.{source_namespace}
use kustomize_controller.Controller.Triggers.{Queue, index_by}
use kustomize_controller.Controller.Wakeups.{name_of, IsLawful}
use kustomize_controller.Samples.Objects.{sample_kustomization}

abbrev pub sample_cluster : List Kustomization
sample_cluster = sample_kustomization ∷ []

-- The Kustomizations of the source with the key.
abbrev of_source : String → List Kustomization
of_source key = if "apps/app" == key then sample_cluster else []

abbrev pub sample_queue : Queue
sample_queue = record {
  list_by = λ index key. ok (of_source key);
  sort = λ ks. ok (map name_of ks);
}

In-index_sample :
    (key : String)
    → In key (index_by "GitRepository" sample_kustomization) ↔ (("apps/app" == key) ≡ true)
unfolding index_by source_namespace
In-index_sample key = ground (arith, eq_iff "apps/app" key)

In-of_source :
    (key : String) (k : Kustomization)
    → In k (of_source key) ↔ (In k sample_cluster × In key (index_by "GitRepository" k))
In-of_source key k = elim (Bool-cases ("apps/app" == key)) [
  | inl same ↦ rw same (
    λ i. elim i [
      | inl e ↦ (
        inl e,
        subst (λ x. In key (index_by "GitRepository" x)) (sym e) ((In-index_sample key).1 same),
      )
      | inr none_left ↦ absurd none_left
    ],
    λ (i, x). i,
  )
  | inr other ↦ rw other (
    λ i. absurd i,
    λ (i, x). elim i [
      | inl e ↦ ground (
        arith,
        other,
        (In-index_sample key).0 (subst (λ y. In key (index_by "GitRepository" y)) e x),
      )
      | inr none_left ↦ absurd none_left
    ],
  )
]

pub sample_queue-IsLawful : IsLawful sample_queue "source" "GitRepository" sample_cluster
sample_queue-IsLawful = record {
  In-list_by = λ key ks k h.
      let same : of_source key ≡ ks = cc in
      subst (λ x. In k x ↔ (In k sample_cluster × In key (index_by "GitRepository" k))) same
        (In-of_source key k);
  In-sort = λ ks ns n h.
      let same : map name_of ks ≡ ns = cc in
      subst (λ x. In n x ↔ In n (map name_of ks)) same (λ i. i, λ i. i);
}
