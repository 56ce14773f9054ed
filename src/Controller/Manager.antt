-- ===== src/Controller/Manager.antt =====
-- `SetupWithManager` of internal/controller/kustomization_manager.go: the indexes and the watches.
pub mod Indexing
pub mod Watching
use kustomize_controller.Base.{
  String, ◌<>◌, Bool, true, false, not, if◌then◌else◌, Option, none, some, List, [], ◌∷◌, ◌++◌,
}
use kustomize_controller.Errors.{Error, Result, ok, err, wrapped}
use kustomize_controller.Io.{Io, ◌>>=◌, ◌>>◌, pure, when}
use kustomize_controller.Api.Object.{Kustomization}
use kustomize_controller.Controller.Source.{
  oci_repository_kind, git_repository_kind, bucket_kind, external_artifact_kind,
}
use kustomize_controller.Controller.Triggers.{index_by}
use kustomize_controller.Controller.ConfigIndexes.{index_config_maps, index_secrets}

-- `KustomizationReconcilerOptions`, less the rate limiter and the label predicate of the watches for
-- ConfigMaps and Secrets, which are passed on as they are.
pub record KustomizationReconcilerOptions : Type 0 where
  pub watch_configs : Bool
  pub watch_external_artifacts : Bool
  pub cancel_health_check_on_requeue : Bool

-- An index of the cache: its name, and the values under which it finds an object.
pub record Index : Type 0 where
  pub name : String
  pub values : Kustomization → List String

-- `requestsForRevisionChangeOf` and `requestsForConfigDependency`, with the name of their index
pub data Handler : Type 0 where
  revision_change_of config_dependency : String → Handler

-- `SourceRevisionChangePredicate`, and `ResourceVersionChangedPredicate` with the label predicate
pub data WatchPredicate : Type 0 where
  source_revision_change resource_version_changed : WatchPredicate

pub record Watch : Type 0 where
  pub kind : String
  pub handler : Handler
  pub predicate : WatchPredicate

-- The builder: whether the reconciler is wrapped, so that a new request cancels a health check, and
-- the watches.
pub record Builder : Type 0 where
  pub is_wrapped : Bool
  pub watches : List Watch

-- The manager of controller-runtime: `GetCache().IndexField`, `GetFieldIndexer().IndexField` and
-- `Complete`.
pub record Manager (W : Type 0) : Type 0 where
  pub cache_index_field : Index → W → Option Error × W
  pub index_field : Index → W → Option Error × W
  pub complete : Builder → W → Option Error × W

-- The state outside, and the indexes so far.
pub record Setup (W : Type 0) : Type 0 where
  pub world : W
  pub indexes : List Index

abbrev pub index_external_artifact : String
index_external_artifact = ".metadata.externalArtifact"

abbrev pub index_oci_repository : String
index_oci_repository = ".metadata.ociRepository"

abbrev pub index_git_repository : String
index_git_repository = ".metadata.gitRepository"

abbrev pub index_bucket : String
index_bucket = ".metadata.bucket"

abbrev pub index_config_map : String
index_config_map = ".metadata.configMap"

abbrev pub index_secret : String
index_secret = ".metadata.secret"

abbrev pub source_index : String → String → Index
source_index name kind = record { name = name; values = index_by kind }

abbrev pub source_watch : String → String → Watch
source_watch kind index = record {
  kind = kind;
  handler = revision_change_of index;
  predicate = source_revision_change;
}

abbrev pub config_watch : String → String → Watch
config_watch kind index = record {
  kind = kind;
  handler = config_dependency index;
  predicate = resource_version_changed;
}

-- The watches in the order in which they are set up
unfoldable pub watches_of : KustomizationReconcilerOptions → List Watch
watches_of opts =
    source_watch oci_repository_kind index_oci_repository
    ∷ (source_watch git_repository_kind index_git_repository
        ∷ (source_watch bucket_kind index_bucket
            ∷ ((if opts.watch_configs
                  then config_watch "ConfigMap" index_config_map
                    ∷ (config_watch "Secret" index_secret ∷ [])
                  else [])
                ++ (if opts.watch_external_artifacts
                    then source_watch external_artifact_kind index_external_artifact ∷ []
                    else []))))

module _ {W : Type 0} (M : Manager W) where
  abbrev pub answered : Index → Option Error → Setup W → Result (Unit {0}) × Setup W
  answered index none s = (ok tt, record s { indexes = index ∷ s.indexes })
  answered index (some e) s =
      (err (wrapped ("failed creating index " <> (index.name <> ": ")) e), s)

  -- `if err := …IndexField(…); err != nil { return fmt.Errorf(…) }`
  abbrev pub create : (Index → W → Option Error × W) → Index → Io (Setup W) (Unit {0})
  create field index s =
      let (failure, w) = field index s.world in answered index failure (record s { world = w })

  abbrev pub completed : Builder → Option Error → Setup W → Result Builder × Setup W
  completed b none s = (ok b, s)
  completed b (some e) s = (err e, s)

  abbrev pub complete : Builder → Io (Setup W) Builder
  complete b s =
      let (failure, w) = M.complete b s.world in completed b failure (record s { world = w })

  -- `SetupWithManager`: the builder that was completed
  unfoldable pub setup_with_manager : KustomizationReconcilerOptions → Io (Setup W) Builder
  unfolding watches_of index_by index_config_maps index_secrets
  setup_with_manager opts = do
    create M.cache_index_field (source_index index_oci_repository oci_repository_kind)
    create M.cache_index_field (source_index index_git_repository git_repository_kind)
    create M.cache_index_field (source_index index_bucket bucket_kind)
    when opts.watch_external_artifacts
        (create M.cache_index_field (source_index index_external_artifact external_artifact_kind))
    create M.index_field (record { name = index_config_map; values = index_config_maps })
    create M.index_field (record { name = index_secret; values = index_secrets })
    complete
        (record { is_wrapped = opts.cancel_health_check_on_requeue; watches = watches_of opts })
