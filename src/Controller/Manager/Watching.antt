-- ===== src/Controller/Manager/Watching.antt =====
-- The watches of `SetupWithManager` of internal/controller/kustomization_manager.go cover the sources
-- that `getSource` of internal/controller/kustomization_controller.go reads.
use kustomize_controller.Base.{
  sym, String, ◌≡◌, ◌≢◌, refl, ◌∙◌, ◌⊎◌, inl, inr, Bool-cases, true, In, In-append_right, List,
  arith, eq_iff,
}
use kustomize_controller.Errors.{ok}
use kustomize_controller.Api.Object.{Kustomization}
use kustomize_controller.Controller.Source.{
  oci_repository_kind, git_repository_kind, bucket_kind, external_artifact_kind, is_supported_kind,
  name_string, source_name,
}
use kustomize_controller.Controller.Config.{KustomizationReconciler}
use kustomize_controller.Controller.Access.{IsAllowed}
use kustomize_controller.Controller.Triggers.{index_by}
use kustomize_controller.Controller.Manager.{
  KustomizationReconcilerOptions, Index, revision_change_of, Watch, source_revision_change, Builder,
  Manager, Setup, source_index, source_watch, watches_of, setup_with_manager,
  index_external_artifact, index_oci_repository, index_git_repository, index_bucket,
}
use kustomize_controller.Controller.Manager.Indexing.{
  with_external, configs_of, indexes_of, setup_lem,
}

-- A watch for the kind of the source of the Kustomization, whose handler looks the source's key up in
-- an index that has the Kustomization under this key.
pub record IsWatched (k : Kustomization) (watches : List Watch) (indexes : List Index)
    : Type 0 where
  pub watch : Watch
  pub index : Index
  pub is_set : In watch watches
  pub is_created : In index indexes
  pub of_kind : watch.kind ≡ k.spec.source_ref.kind
  pub on_revision : watch.predicate ≡ source_revision_change
  pub by_index : watch.handler ≡ revision_change_of index.name
  pub is_found : In (name_string (source_name k)) (index.values k)

In-own_index :
    (k : Kustomization) (kind : String)
    → k.spec.source_ref.kind ≡ kind
    → In (name_string (source_name k)) (index_by kind k)
unfolding index_by
In-own_index k kind e = ground (arith, eq_iff k.spec.source_ref.kind kind)

watches-IsWatched :
    (k : Kustomization) (watches : List Watch) (indexes : List Index) (name kind : String)
    → k.spec.source_ref.kind ≡ kind
    → In (source_watch kind name) watches
    → In (source_index name kind) indexes
    → IsWatched k watches indexes
watches-IsWatched k watches indexes name kind e w i = record {
  watch = source_watch kind name;
  index = source_index name kind;
  is_set = w;
  is_created = i;
  of_kind = sym e;
  on_revision = refl;
  by_index = refl;
  is_found = In-own_index k kind e;
}

In-with_external :
    (opts : KustomizationReconcilerOptions) (index : Index) (rest : List Index)
    → In index rest
    → In index (with_external opts rest)
In-with_external opts index rest i = elim (Bool-cases opts.watch_external_artifacts) [
  | inl on ↦ simp (on) (inr i)
  | inr off ↦ simp (off) i
]

kind_cases :
    (kind : String)
    → is_supported_kind kind ≡ true
    → (kind ≡ oci_repository_kind)
      ⊎ ((kind ≡ git_repository_kind) ⊎ ((kind ≡ bucket_kind) ⊎ (kind ≡ external_artifact_kind)))
unfolding is_supported_kind
kind_cases kind h = ground (
  arith,
  eq_iff kind oci_repository_kind,
  eq_iff kind git_repository_kind,
  eq_iff kind bucket_kind,
  eq_iff kind external_artifact_kind,
)

In-watches_of :
    (opts : KustomizationReconcilerOptions)
    → opts.watch_external_artifacts ≡ true
    → In (source_watch external_artifact_kind index_external_artifact) (watches_of opts)
unfolding watches_of
In-watches_of opts on =
    simp (on) (inr (inr (inr (In-append_right _ (configs_of opts) _ (inl refl)))))

In-indexes_of :
    (opts : KustomizationReconcilerOptions) (before : List Index)
    → opts.watch_external_artifacts ≡ true
    → In (source_index index_external_artifact external_artifact_kind) (indexes_of opts before)
In-indexes_of opts before on = simp (on) (inr (inr (inl refl)))

options_IsWatched :
    (k : Kustomization) (opts : KustomizationReconcilerOptions) (before : List Index)
    → is_supported_kind k.spec.source_ref.kind ≡ true
    → ((opts.watch_external_artifacts ≡ true) ⊎ (k.spec.source_ref.kind ≢ external_artifact_kind))
    → IsWatched k (watches_of opts) (indexes_of opts before)
unfolding watches_of
options_IsWatched k opts before supported external =
    let on = watches-IsWatched k (watches_of opts) (indexes_of opts before) in
    elim (kind_cases k.spec.source_ref.kind supported) [
      | inl e ↦
          on index_oci_repository oci_repository_kind e (inl refl)
            (inr (inr (In-with_external opts _ _ (inr (inr (inl refl))))))
      | inr (inl e) ↦
          on index_git_repository git_repository_kind e (inr (inl refl))
            (inr (inr (In-with_external opts _ _ (inr (inl refl)))))
      | inr (inr (inl e)) ↦
          on index_bucket bucket_kind e (inr (inr (inl refl)))
            (inr (inr (In-with_external opts _ _ (inl refl))))
      | inr (inr (inr e)) ↦ elim external [
        | inl watched ↦
            on index_external_artifact external_artifact_kind e (In-watches_of opts watched)
              (In-indexes_of opts before watched)
        | inr other ↦ absurd (other e)
      ]
    ]

module _ {W : Type 0} (M : Manager W) where
  -- After a set-up that succeeds, every Kustomization whose source `getSource` can read is found by
  -- the watch for the kind of this source: the handler of the watch looks the key of the source up in
  -- an index that has been created and that has the Kustomization under this key. The set-up watches
  -- ExternalArtifacts if the reconciler allows them.
  pub setup_with_manager_watches :
      (opts : KustomizationReconcilerOptions) (r : KustomizationReconciler) (k : Kustomization)
      (s t : Setup W) (b : Builder)
      → opts.watch_external_artifacts ≡ r.allow_external_artifact
      → setup_with_manager M opts s ≡ (ok b, t)
      → IsAllowed r k
      → IsWatched k b.watches t.indexes
  setup_with_manager_watches opts r k s t b same h allowed =
      let (w, i) = setup_lem M opts s t b h in
      let external : (opts.watch_external_artifacts ≡ true)
          ⊎ (k.spec.source_ref.kind ≢ external_artifact_kind) =
        elim (allowed.external) [ inl on ↦ inl (same ∙ on) | inr other ↦ inr other ] in
      rw (w, i) (options_IsWatched k opts s.indexes (allowed.known_kind) external)
