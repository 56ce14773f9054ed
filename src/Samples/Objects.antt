-- ===== src/Samples/Objects.antt =====
-- A reconciler, a Kustomization and a source.
use kustomize_controller.Base.{String, true, false, none, some, [], ◌∷◌, ◌*◌, ◌^◌}
use kustomize_controller.Base.Int.{pos}
use kustomize_controller.Errors.{Error, plain, ErrorClass}
use kustomize_controller.Api.Inventory.{ResourceInventory, ResourceRef}
use kustomize_controller.Api.Spec.{KustomizationSpec}
use kustomize_controller.Api.Object.{Kustomization, true_status, kustomization_finalizer}
use kustomize_controller.Inventory.Packages.{Unstructured, ChangeSet, created}
use kustomize_controller.Platform.Values.{Artifact, Source}
use kustomize_controller.Controller.Config.{KustomizationReconciler}
use kustomize_controller.Controller.Reconciling.Steps.{Origin}
use kustomize_controller.Samples.Packages.{config_map}

abbrev pub sample_reconciler : KustomizationReconciler
sample_reconciler = record {
  concurrent_ssa = pos 4;
  controller_name = "kustomize-controller";
  status_manager = "gotk-kustomize-controller";
  cluster_reader = false;
  custom_stage_kinds = [];
  default_service_account = "";
  default_decryption_service_account = "";
  default_kube_config_service_account = "";
  disallowed_field_managers = [];
  override_managers_before_dry_run = [];
  no_cross_namespace_refs = true;
  no_remote_bases = false;
  sops_age_secret = "";
  sops_vault_config_map = "";
  token_cache = false;
  spiffe_broker = false;
  artifact_fetch_retries = pos 9;
  artifact_server_tls_config = none;
  dependency_requeue_interval = pos (30 * 10 ^ 9);
  additive_cel_dependency_check = false;
  allow_external_artifact = false;
  disable_commit_status_event = false;
  direct_source_fetch = false;
  fail_fast = false;
  group_change_log = false;
  migrate_api_version = false;
  strict_substitutions = false;
}

abbrev pub sample_spec : KustomizationSpec
sample_spec = record {
  common_metadata = none;
  depends_on = [];
  decryption = none;
  interval = pos (600 * 10 ^ 9);
  retry_interval = none;
  kube_config = none;
  path = "./deploy";
  post_build = none;
  prune = true;
  deletion_policy = "";
  health_checks =
      record { api_version = ""; kind = "Deployment"; name = "web"; namespace = "apps" } ∷ [];
  name_prefix = "";
  name_suffix = "";
  patches = [];
  images = [];
  service_account_name = "";
  source_ref = record { api_version = ""; kind = "GitRepository"; name = "app"; namespace = "" };
  suspend = false;
  target_namespace = "";
  timeout = none;
  force = false;
  wait = false;
  build_metadata = [];
  components = [];
  ignore_missing_components = false;
  health_check_exprs = [];
  ignore = [];
}

abbrev entry : String → ResourceRef
entry id = record { id = id; version = "v1" }

-- Two ConfigMaps that an earlier revision has applied.
abbrev pub old_inventory : ResourceInventory
old_inventory = record { entries = entry "web" ∷ (entry "cache" ∷ []) }

-- The later revision applies one of them, and a new one.
abbrev pub new_set : ChangeSet
new_set = record {
  entries =
      record { obj_metadata = config_map "web"; group_version = "v1"; action = created }
      ∷ (record { obj_metadata = config_map "queue"; group_version = "v1"; action = created } ∷ []);
}

abbrev pub sample_kustomization : Kustomization
sample_kustomization = record {
  name = "app";
  namespace = "apps";
  generation = pos 2;
  deletion_timestamp = none;
  finalizers = kustomization_finalizer ∷ [];
  annotations = [];
  spec = sample_spec;
  status = record {
    last_handled_reconcile_at = "";
    observed_generation = pos 1;
    conditions = [];
    last_applied_revision = "main@sha1:a";
    last_applied_origin_revision = "";
    last_attempted_revision = "main@sha1:a";
    inventory = some old_inventory;
    history = [];
  };
}

abbrev pub suspended_kustomization : Kustomization
suspended_kustomization = record sample_kustomization {
  spec = record sample_spec { suspend = true };
}

abbrev pub unpruned_kustomization : Kustomization
unpruned_kustomization = record sample_kustomization { spec = record sample_spec { prune = false } }

-- A dependency that is ready, and one on it.
abbrev pub ready_kustomization : Kustomization
ready_kustomization = record sample_kustomization {
  name = "base";
  status = record {
    last_handled_reconcile_at = "";
    observed_generation = pos 2;
    conditions =
        record {
          type = "Ready";
          status = true_status;
          reason = "ReconciliationSucceeded";
          message = "";
        }
        ∷ [];
    last_applied_revision = "main@sha1:b";
    last_applied_origin_revision = "";
    last_attempted_revision = "main@sha1:b";
    inventory = none;
    history = [];
  };
}

abbrev pub dependent_kustomization : Kustomization
dependent_kustomization = record sample_kustomization {
  spec = record sample_spec {
    depends_on = record { name = "base"; namespace = ""; ready_expr = "" } ∷ [];
  };
}

abbrev pub sample_artifact : Artifact
sample_artifact = record {
  url = "http://source-controller/app.tar.gz";
  revision = "main@sha1:b";
  digest = "sha256:1";
  metadata = [];
}

abbrev pub sample_source : Source
sample_source = record { artifact = some sample_artifact }

abbrev pub sample_origin : Origin
sample_origin = record {
  source = sample_source;
  artifact = sample_artifact;
  revision = "main@sha1:b";
  origin_revision = "";
}

abbrev pub secret_object : Unstructured
secret_object = record {
  group = "";
  version = "v1";
  kind = "Secret";
  namespace = "apps";
  name = "token";
  annotations = [];
  has_sops = true;
  content = "";
}

abbrev pub config_object : String → Unstructured
config_object name = record secret_object { kind = "ConfigMap"; name = name; has_sops = false }

abbrev pub not_found_error : Error
not_found_error = plain ErrorClass.not_found "not found"
