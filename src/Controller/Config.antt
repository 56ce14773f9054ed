-- ===== src/Controller/Config.antt =====
-- The fields of `KustomizationReconciler` in internal/controller/kustomization_controller.go. The
-- clients and caches that it embeds are the platform; here stand the options.
use kustomize_controller.Base.{String, Bool, Option, List}
use kustomize_controller.Base.Int.{ℤ}
use kustomize_controller.Inventory.Packages.{GroupKind}

pub record KustomizationReconciler : Type 0 where
  pub concurrent_ssa : ℤ
  pub controller_name : String
  pub status_manager : String
  -- `ClusterReader != nil`
  pub cluster_reader : Bool
  pub custom_stage_kinds : List GroupKind
  pub default_service_account : String
  pub default_decryption_service_account : String
  pub default_kube_config_service_account : String
  pub disallowed_field_managers : List String
  pub override_managers_before_dry_run : List String
  pub no_cross_namespace_refs : Bool
  pub no_remote_bases : Bool
  pub sops_age_secret : String
  pub sops_vault_config_map : String
  -- `TokenCache != nil` and `SPIFFEBroker != nil`
  pub token_cache : Bool
  pub spiffe_broker : Bool
  pub artifact_fetch_retries : ℤ
  pub artifact_server_tls_config : Option String
  pub dependency_requeue_interval : ℤ
  pub additive_cel_dependency_check : Bool
  pub allow_external_artifact : Bool
  pub disable_commit_status_event : Bool
  pub direct_source_fetch : Bool
  pub fail_fast : Bool
  pub group_change_log : Bool
  pub migrate_api_version : Bool
  pub strict_substitutions : Bool
