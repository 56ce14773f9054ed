-- ===== src/Command.antt =====
-- main.go: from the flags and the feature gates to the reconciler and the options of its set-up.
pub mod Features
pub mod Wiring
use kustomize_controller.Base.{
  String, ◌<>◌, ◌==◌, ◌||◌, not, Bool, true, false, Option, none, some, is_some, List, [], is_empty,
  if◌then◌else◌, ℕ,
}
use kustomize_controller.Base.Int.{ℤ, pos, lt_ℤ}
use kustomize_controller.Errors.{Result, ok, err, ◌>>=◌}
use kustomize_controller.Inventory.Packages.{GroupKind}
use kustomize_controller.Controller.Config.{KustomizationReconciler}
use kustomize_controller.Controller.Manager.{KustomizationReconcilerOptions}
use kustomize_controller.Controller.TempDirs.{Directories, list_stale_temp_dirs, purge_temp_dirs}
use Features.{
  SharedGates, disable_status_poller_cache, disable_fail_fast_behavior,
  strict_post_build_substitutions, group_change_log, cancel_health_check_on_new_revision,
  migrate_api_version, disable_commit_status_event,
}

abbrev pub controller_name : String
controller_name = "kustomize-controller"

-- The flags that reach the reconciler.
pub record Flags : Type 0 where
  pub concurrent_ssa : ℤ
  pub requeue_dependency : ℤ
  pub no_remote_bases : Bool
  pub http_retry : ℤ
  pub default_service_account : String
  pub default_decryption_service_account : String
  pub default_kube_config_service_account : String
  pub sops_age_secret : String
  pub sops_vault_config_map : String
  pub override_manager : List String
  pub override_manager_before_dry_run : List String
  pub custom_apply_stage_kinds : String
  pub authorized_artifact_servers : List String
  pub authorized_event_servers : List String
  pub spiffe_broker_endpoint : String
  pub spiffe_broker_ids : List String
  -- of the options that packages bind: `NoCrossNamespaceRefs` and the size of the token cache
  pub no_cross_namespace_refs : Bool
  pub token_cache_max_size : ℤ

-- The packages: `feathelper.Enabled`, the SPIFFE source, TLS configurations and the broker client,
-- the token cache, and `ParseGroupKindSet`.
pub record Packages : Type 0 where
  pub gates : SharedGates
  pub enabled : String → Result Bool
  pub new_source : Result (Unit {0})
  pub build_tls_config : List String → Result String
  pub new_broker : String → List String → Result (Unit {0})
  pub new_token_cache : ℤ → Result (Unit {0})
  pub parse_group_kind_set : String → Result (List GroupKind)

module _ (P : Packages) where
  -- `if ok, _ := features.Enabled(…); ok`
  abbrev pub enabled_or_off : String → Bool
  enabled_or_off feature = elim (P.enabled feature) [ ok on ↦ on | err e ↦ false ]

  abbrev pub tls_config : List String → Result (Option String)
  tls_config servers =
      if is_empty servers then ok none else do t ← P.build_tls_config servers; ok (some t)

  abbrev pub wants_broker : Flags → Bool
  wants_broker f = not (f.spiffe_broker_endpoint == "") || not (is_empty f.spiffe_broker_ids)

  abbrev pub broker : Flags → Result Bool
  broker f =
      if wants_broker f
      then (do u ← P.new_broker f.spiffe_broker_endpoint f.spiffe_broker_ids; ok true)
      else ok false

  -- The TLS configuration of the artifact fetcher, and whether there is a broker client. That of the
  -- event recorder is made in between.
  unfoldable pub spiffe : Flags → Result (Option String × Bool)
  spiffe f =
      if not (is_empty f.authorized_artifact_servers)
        || (not (is_empty f.authorized_event_servers) || wants_broker f)
      then (do
        source ← P.new_source
        artifact_tls ← tls_config f.authorized_artifact_servers
        event_tls ← tls_config f.authorized_event_servers
        has_broker ← broker f
        ok (artifact_tls, has_broker))
      else ok (none, false)

  abbrev pub token_cache : Flags → Result Bool
  token_cache f =
      if lt_ℤ (pos 0) f.token_cache_max_size
      then (do u ← P.new_token_cache f.token_cache_max_size; ok true)
      else ok false

  -- The reconciler and the options of `SetupWithManager`; an error ends the process.
  unfoldable pub reconciler_of :
      Flags → Result (KustomizationReconciler × KustomizationReconcilerOptions)
  unfolding spiffe
  reconciler_of f = do
    peers ← spiffe f
    let cluster_reader = enabled_or_off disable_status_poller_cache
    let fail_fast = not (enabled_or_off disable_fail_fast_behavior)
    strict_substitutions ← P.enabled strict_post_build_substitutions
    grouped ← P.enabled group_change_log
    additive ← P.enabled P.gates.additive_cel_dependency_check
    allow_external ← P.enabled P.gates.external_artifact
    cancel ← P.enabled cancel_health_check_on_new_revision
    migrate ← P.enabled migrate_api_version
    no_commit_status ← P.enabled disable_commit_status_event
    has_token_cache ← token_cache f
    disable_config_watchers ← P.enabled P.gates.disable_config_watchers
    direct ← P.enabled P.gates.direct_source_fetch
    kinds ← P.parse_group_kind_set f.custom_apply_stage_kinds
    ok (
      record {
        concurrent_ssa = f.concurrent_ssa;
        controller_name = controller_name;
        status_manager = "gotk-" <> controller_name;
        cluster_reader = cluster_reader;
        custom_stage_kinds = kinds;
        default_service_account = f.default_service_account;
        default_decryption_service_account = f.default_decryption_service_account;
        default_kube_config_service_account = f.default_kube_config_service_account;
        disallowed_field_managers = f.override_manager;
        override_managers_before_dry_run = f.override_manager_before_dry_run;
        no_cross_namespace_refs = f.no_cross_namespace_refs;
        no_remote_bases = f.no_remote_bases;
        sops_age_secret = f.sops_age_secret;
        sops_vault_config_map = f.sops_vault_config_map;
        token_cache = has_token_cache;
        spiffe_broker = peers.1;
        artifact_fetch_retries = f.http_retry;
        artifact_server_tls_config = peers.0;
        dependency_requeue_interval = f.requeue_dependency;
        additive_cel_dependency_check = additive;
        allow_external_artifact = allow_external;
        disable_commit_status_event = no_commit_status;
        direct_source_fetch = direct;
        fail_fast = fail_fast;
        group_change_log = grouped;
        migrate_api_version = migrate;
        strict_substitutions = strict_substitutions;
      },
      record {
        watch_configs = not disable_config_watchers;
        watch_external_artifacts = allow_external;
        cancel_health_check_on_requeue = cancel;
      },
    )

-- `purgeStaleTempDirs`, with the removal in the background carried out: the number of removed
-- directories. The context ends after two minutes.
unfoldable pub purge_stale_temp_dirs : {W : Type 0} → Directories W → String → W → ℕ × W
unfolding list_stale_temp_dirs purge_temp_dirs
purge_stale_temp_dirs D root w = elim (list_stale_temp_dirs D root w) [
  | err e ↦ (0, w)
  | ok dirs ↦ if is_empty dirs then (0, w) else purge_temp_dirs D dirs w
]
