-- ===== src/Examples/Commands.antt =====
-- The theorems on the set-up and on the earlier API versions at concrete values.
use kustomize_controller.Base.{
  ℕ, suc, Bool, true, false, Option, none, some, [], ◌≡◌, refl, ◌-◌, ◌*◌, ◌^◌, inr, lookup, eq_iff,
  arith,
}
use kustomize_controller.Base.Int.{pos}
use kustomize_controller.Errors.{Result, ok, err, text_error}
use kustomize_controller.Api.Defaults.{thirty_seconds, get_timeout}
use kustomize_controller.Api.V1beta1
use kustomize_controller.Api.Versions.{timeout_of_v1beta1}
use kustomize_controller.Controller.Config.{KustomizationReconciler}
use kustomize_controller.Controller.Source.{source_namespace, is_supported_kind}
use kustomize_controller.Controller.Access.{IsAllowed}
use kustomize_controller.Controller.Manager.{
  KustomizationReconcilerOptions, Builder, Manager, Setup, watches_of, setup_with_manager,
}
use kustomize_controller.Controller.Manager.Watching.{IsWatched}
use kustomize_controller.Command.{Flags, Packages, spiffe, reconciler_of}
use kustomize_controller.Command.Features.{
  SharedGates, features, disable, disable_fail_fast_behavior,
}
use kustomize_controller.Command.Wiring.{IsWired, reconciler_of_watches}
use kustomize_controller.Samples.Objects.{sample_reconciler, sample_kustomization}

abbrev first_kustomization : V1beta1.Kustomization
first_kustomization = record {
  name = "app";
  namespace = "apps";
  spec = record {
    depends_on = [];
    decryption = none;
    interval = pos (600 * 10 ^ 9);
    retry_interval = none;
    kube_config = none;
    path = "./deploy";
    post_build = none;
    prune = true;
    health_checks = [];
    patches = [];
    patches_strategic_merge = [];
    patches_json6902 = [];
    images = [];
    service_account_name = "";
    source_ref = record { api_version = ""; kind = "GitRepository"; name = "app"; namespace = "" };
    suspend = false;
    target_namespace = "";
    timeout = none;
    validation = "";
    force = false;
  };
  status = record {
    observed_generation = pos 1;
    conditions = [];
    last_applied_revision = "";
    last_attempted_revision = "";
    last_handled_reconcile_at = "";
    snapshot = none;
  };
}

timeout_of_v1beta1_example :
    (n : ℕ) × (V1beta1.get_timeout first_kustomization ≡ pos n)
    × (get_timeout sample_kustomization ≡ pos (n - thirty_seconds))
timeout_of_v1beta1_example =
    timeout_of_v1beta1 sample_kustomization first_kustomization (600 * 10 ^ 9) refl refl refl refl
      (omega arith)

abbrev shared_gates : SharedGates
shared_gates = record {
  cache_secrets_and_config_maps = "CacheSecretsAndConfigMaps";
  additive_cel_dependency_check = "AdditiveCELDependencyCheck";
  external_artifact = "ExternalArtifact";
  disable_config_watchers = "DisableConfigWatchers";
  direct_source_fetch = "DirectSourceFetch";
  object_level_workload_identity = "ObjectLevelWorkloadIdentity";
  retirement_reason = "always on";
}

abbrev gate : Option Bool → Result Bool
gate (some on) = ok on
gate none = err (text_error "no such gate")

-- The gates as they are by default, and packages that never fail
abbrev packages : Packages
packages = record {
  gates = shared_gates;
  enabled = λ name. gate (lookup (features shared_gates) name);
  new_source = ok tt;
  build_tls_config = λ ids. ok "tls";
  new_broker = λ endpoint ids. ok tt;
  new_token_cache = λ size. ok tt;
  parse_group_kind_set = λ t. ok [];
}

abbrev flags : Flags
flags = record {
  concurrent_ssa = pos 4;
  requeue_dependency = pos (30 * 10 ^ 9);
  no_remote_bases = false;
  http_retry = pos 9;
  default_service_account = "";
  default_decryption_service_account = "";
  default_kube_config_service_account = "";
  sops_age_secret = "";
  sops_vault_config_map = "";
  override_manager = [];
  override_manager_before_dry_run = [];
  custom_apply_stage_kinds = "";
  authorized_artifact_servers = [];
  authorized_event_servers = [];
  spiffe_broker_endpoint = "";
  spiffe_broker_ids = [];
  no_cross_namespace_refs = true;
  token_cache_max_size = pos 100;
}

-- The reconciler of these flags
abbrev default_reconciler : KustomizationReconciler
default_reconciler = record sample_reconciler {
  cluster_reader = true;
  token_cache = true;
  fail_fast = true;
  strict_substitutions = true;
}

abbrev default_options : KustomizationReconcilerOptions
default_options = record {
  watch_configs = true;
  watch_external_artifacts = false;
  cancel_health_check_on_requeue = false;
}

made : reconciler_of packages flags ≡ ok (default_reconciler, default_options)
unfolding reconciler_of spiffe features
made = refl

disabled :
    lookup (disable (features shared_gates) disable_fail_fast_behavior) "DisableFailFastBehavior"
    ≡ some false
unfolding disable features
disabled = refl

-- A manager that counts the calls
abbrev manager : Manager ℕ
manager = record {
  cache_index_field = λ index n. (none, suc n);
  index_field = λ index n. (none, suc n);
  complete = λ b n. (none, suc n);
}

abbrev start : Setup ℕ
start = record { world = 0; indexes = [] }

abbrev built : Result Builder × Setup ℕ
built = setup_with_manager manager default_options start

abbrev default_builder : Builder
default_builder = record { is_wrapped = false; watches = watches_of default_options }

set_up : setup_with_manager manager default_options start ≡ (ok default_builder, built.1)
unfolding setup_with_manager
set_up = refl

sample-IsAllowed : IsAllowed default_reconciler sample_kustomization
unfolding source_namespace is_supported_kind
sample-IsAllowed = record {
  same_namespace = inr refl;
  external = inr (λ e. ground (arith, eq_iff "GitRepository" "ExternalArtifact"));
  known_kind = refl;
}

reconciler_of_watches_example :
    IsWired packages default_reconciler default_options
    × IsWatched sample_kustomization (watches_of default_options) built.1.indexes
reconciler_of_watches_example =
    reconciler_of_watches packages manager flags default_reconciler default_options
      sample_kustomization start built.1 default_builder made set_up sample-IsAllowed
