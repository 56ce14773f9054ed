-- ===== src/Controller/Manager/Indexing.antt =====
-- The indexes that `SetupWithManager` of internal/controller/kustomization_manager.go creates.
use kustomize_controller.Base.{
  ◌≡◌, refl, Bool, ◌∙◌, ap, true, false, Option, none, some, List, [], ◌∷◌, arith, if◌then◌else◌,
}
use kustomize_controller.Errors.{Error, ok}
use kustomize_controller.Io.{when}
use kustomize_controller.Io.Frames.{bind_inv}
use kustomize_controller.Controller.Source.{
  oci_repository_kind, git_repository_kind, bucket_kind, external_artifact_kind,
}
use kustomize_controller.Controller.ConfigIndexes.{index_config_maps, index_secrets}
use kustomize_controller.Controller.Manager.{
  KustomizationReconcilerOptions, Index, Watch, Builder, Manager, Setup, source_index, config_watch,
  watches_of, create, answered, completed, setup_with_manager, index_external_artifact,
  index_oci_repository, index_git_repository, index_bucket, index_config_map, index_secret,
}

-- The index of ExternalArtifacts, if they are watched, before those given.
abbrev pub with_external : KustomizationReconcilerOptions → List Index → List Index
with_external opts rest =
    if opts.watch_external_artifacts
    then source_index index_external_artifact external_artifact_kind ∷ rest
    else rest

abbrev pub configs_of : KustomizationReconcilerOptions → List Watch
configs_of opts =
    if opts.watch_configs
    then config_watch "ConfigMap" index_config_map ∷ (config_watch "Secret" index_secret ∷ [])
    else []

abbrev config_map_index : Index
config_map_index = record { name = index_config_map; values = index_config_maps }

abbrev secret_index : Index
secret_index = record { name = index_secret; values = index_secrets }

abbrev builder_of : KustomizationReconcilerOptions → Builder
builder_of opts = record {
  is_wrapped = opts.cancel_health_check_on_requeue;
  watches = watches_of opts;
}

-- The indexes of a set-up that succeeds, the latest first.
abbrev pub indexes_of : KustomizationReconcilerOptions → List Index → List Index
indexes_of opts before =
    secret_index
    ∷ (config_map_index
        ∷ with_external opts (
            source_index index_bucket bucket_kind
            ∷ (source_index index_git_repository git_repository_kind
                ∷ (source_index index_oci_repository oci_repository_kind ∷ before))))

module _ {W : Type 0} (M : Manager W) where
  answered-indexes :
      (index : Index) (failure : Option Error) (s : Setup W) (u : Unit {0})
      → (answered M index failure s).0 ≡ ok u
      → (answered M index failure s).1.indexes ≡ index ∷ s.indexes
  answered-indexes index none s u h = refl
  answered-indexes index (some e) s u h = cc

  create-indexes :
      (field : Index → W → Option Error × W) (index : Index) (s : Setup W) (u : Unit {0})
      → (create M field index s).0 ≡ ok u
      → (create M field index s).1.indexes ≡ index ∷ s.indexes
  create-indexes field index s u h =
      answered-indexes index (field index s.world).0 (record s { world = (field index s.world).1 })
        u h

  when-create-indexes :
      (on : Bool) (field : Index → W → Option Error × W) (index : Index) (s : Setup W)
      (u : Unit {0})
      → (when on (create M field index) s).0 ≡ ok u
      → (when on (create M field index) s).1.indexes ≡ (if on then index ∷ s.indexes else s.indexes)
  when-create-indexes true field index s u h = create-indexes field index s u h
  when-create-indexes false field index s u h = refl

  completed_inv :
      (b c : Builder) (failure : Option Error) (s t : Setup W)
      → completed M b failure s ≡ (ok c, t)
      → (c ≡ b) × (t ≡ s)
  completed_inv b c none s t h = ground arith
  completed_inv b c (some e) s t h = ground arith

  pub setup_lem :
      (opts : KustomizationReconcilerOptions) (s t : Setup W) (b : Builder)
      → setup_with_manager M opts s ≡ (ok b, t)
      → (b.watches ≡ watches_of opts) × (t.indexes ≡ indexes_of opts s.indexes)
  unfolding setup_with_manager
  setup_lem opts s t b h =
      let m1 =
        create M M.cache_index_field (source_index index_oci_repository oci_repository_kind) in
      let (_, e1, h1) = bind_inv m1 _ s b t h in
      let m2 =
        create M M.cache_index_field (source_index index_git_repository git_repository_kind) in
      let s1 = (m1 s).1 in
      let (_, e2, h2) = bind_inv m2 _ s1 b t h1 in
      let m3 = create M M.cache_index_field (source_index index_bucket bucket_kind) in
      let s2 = (m2 s1).1 in
      let (_, e3, h3) = bind_inv m3 _ s2 b t h2 in
      let s3 = (m3 s2).1 in
      let external = source_index index_external_artifact external_artifact_kind in
      let m4 = when opts.watch_external_artifacts (create M M.cache_index_field external) in
      let (_, e4, h4) = bind_inv m4 _ s3 b t h3 in
      let s4 = (m4 s3).1 in
      let m5 = create M M.index_field config_map_index in
      let (_, e5, h5) = bind_inv m5 _ s4 b t h4 in
      let s5 = (m5 s4).1 in
      let m6 = create M M.index_field secret_index in
      let (_, e6, h6) = bind_inv m6 _ s5 b t h5 in
      let s6 = (m6 s5).1 in
      let last = M.complete (builder_of opts) s6.world in
      let (same, after) =
        completed_inv (builder_of opts) b last.0 (record s6 { world = last.1 }) t h6 in
      (
        ap (λ (c : Builder). c.watches) same,
        ap (λ (v : Setup W). v.indexes) after
            ∙ create-indexes M.index_field secret_index s5 _ e6
            ∙ ap (λ (l : List Index). secret_index ∷ l)
                (create-indexes M.index_field config_map_index s4 _ e5
                  ∙ ap (λ (l : List Index). config_map_index ∷ l)
                      (when-create-indexes opts.watch_external_artifacts M.cache_index_field
                          external s3 _ e4
                        ∙ ap (with_external opts) (
                            create-indexes M.cache_index_field
                              (source_index index_bucket bucket_kind) s2 _ e3
                            ∙ ap (λ (l : List Index). source_index index_bucket bucket_kind ∷ l)
                                (create-indexes M.cache_index_field
                                    (source_index index_git_repository git_repository_kind) s1 _ e2
                                  ∙ ap
                                      (λ (l : List Index).
                                        source_index index_git_repository git_repository_kind ∷ l)
                                      (create-indexes M.cache_index_field
                                        (source_index index_oci_repository oci_repository_kind) s _
                                        e1))))),
      )
