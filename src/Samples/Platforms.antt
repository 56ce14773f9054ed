-- ===== src/Samples/Platforms.antt =====
-- A platform with a clock for its world, and a build without changes.
use kustomize_controller.Base.{
  ℕ, suc, String, true, none, some, Option, List, [], ◌∷◌, ◌==◌, contains, if◌then◌else◌,
}
use kustomize_controller.Base.Int.{pos}
use kustomize_controller.Errors.{Error, ok, text_error}
use kustomize_controller.Api.Object.{Kustomization}
use kustomize_controller.Inventory.Packages.{ChangeSet, skipped}
use kustomize_controller.Platform.Services.{Platform}
use kustomize_controller.Run.{State}
use kustomize_controller.Controller.Building.{BuildServices}
use kustomize_controller.Controller.Reconciling.Steps.{Built}
use kustomize_controller.Samples.Packages.{sample_packages, config_map}
use kustomize_controller.Samples.Conditions.{sample_conditions}
use kustomize_controller.Samples.Objects.{
  ready_kustomization, sample_source, sample_kustomization, config_object, new_set,
}

abbrev without_text : List String → String → List String
without_text [] x = []
without_text (y ∷ ys) x = let rest = without_text ys x in if y == x then rest else y ∷ rest

-- The deletion fails, after it has skipped one object.
abbrev pub partly_deleted : Option ChangeSet × Option Error
partly_deleted = (
  some (record {
    entries =
        record { obj_metadata = config_map "cache"; group_version = "v1"; action = skipped } ∷ [];
  }),
  some (text_error "timeout"),
)

abbrev pub sample_platform : Platform
sample_platform = record {
  World = ℕ;
  objects = sample_packages;
  conditions = sample_conditions;
  StatusReader = Unit {0};
  StructMap = Unit {0};
  Expression = Unit {0};
  Client = Unit {0};
  Poller = Unit {0};
  now = λ w. (pos w, suc w);
  duration_string = λ d. "10m0s";
  since_string = λ a b. "1s";
  jittered = λ d w. (d, w);
  getenv = λ n w. "";
  get_kustomization = λ n w. (ok sample_kustomization, w);
  get_dependency = λ n w. (ok ready_kustomization, w);
  get_source_object = λ d k n w. (ok sample_source, w);
  patch_object = λ k w. (none, w);
  new_aggregate = λ a b. b;
  filter_out_not_found = λ e. some e;
  contains_finalizer = contains;
  add_finalizer = λ fs f. f ∷ fs;
  remove_finalizer = without_text;
  reconcile_annotation_value = λ m. none;
  has_revision = λ a revision. a.revision == revision;
  upsert_history = λ h x. x ∷ h;
  new_status_reader = λ exprs. ok tt;
  to_unstructured = λ k. ok tt;
  new_expression = λ e. ok tt;
  evaluate_boolean = λ e a b. ok true;
  mkdir_temp = λ p w. (ok "/tmp/kustomization-1", w);
  eval_symlinks = λ d w. (ok d, w);
  remove_all = λ d w. (none, w);
  secure_join = λ d p w. (ok "/tmp/kustomization-1/deploy", w);
  stat = λ d w. (none, w);
  fetch = λ options url digest d w. (none, w);
  own_client = tt;
  new_status_poller = λ options. tt;
  can_impersonate = λ options w. (true, w);
  impersonated_client = λ options w. (ok (tt, tt), w);
  write_kustomization = λ u d p w. (none, w);
  digest_of = λ text. text;
  read_objects = λ text. ok (config_object "web" ∷ (config_object "queue" ∷ []));
  normalize = λ us. ok us;
  set_owner_labels = λ us n ns. us;
  owner_labels = λ n ns. [];
  set_common_metadata = λ us l a. us;
  format_object = λ u. u.name;
  format_objects = λ us. "";
  jobs_with_ttl = λ us. [];
  entry_string = λ e. e.obj_metadata.name;
  change_set_string = λ set. "";
  metadata_set = λ set. [];
  mask_token = λ msg v. ok "***";
  apply_all_staged = λ c p us options w. ((some new_set, none), w);
  delete_all = λ c us options w. (partly_deleted, w);
  wait_for_set = λ c p ms options w. (none, w);
  wait_for_termination = λ c set options w. (none, w);
  enqueued_by = λ w. none;
  delete_cached_events = λ a b c d w. w;
}

abbrev pub sample_build : BuildServices ℕ (Unit {0})
sample_build = record {
  Resource = String;
  ResMap = List String;
  Decryptor = Unit {0};
  new_decryptor = λ k options w. (ok tt, w);
  cleanup = λ d w. w;
  import_keys = λ d w. (ok d, w);
  set_auth_options = λ d w. (ok d, w);
  decrypt_sources = λ d p w. (none, w);
  decrypt_resource = λ d res w. (ok none, w);
  substitute_variables = λ u res strict dry w. (ok (none, []), w);
  secure_build = λ d p remote w. (ok ("web" ∷ ("queue" ∷ [])), w);
  resources = λ m. m;
  get_name = λ res. res;
  get_kind = λ res. "ConfigMap";
  get_api_version = λ res. "v1";
  get_gvk = λ res. "ConfigMap.v1";
  resource_string = λ res. res;
  replace = λ m res. ok m;
  as_yaml = λ m. ok "kind: ConfigMap";
}

-- A state with an object, at the start.
abbrev pub start_of : Kustomization → State ℕ
start_of k = record { obj = k; world = 0; trace = [] }

abbrev pub sample_built : Built (Unit {0}) (Unit {0})
sample_built = record {
  client = (tt, tt);
  checksum = "sha256:2";
  objects = config_object "web" ∷ (config_object "queue" ∷ []);
  secret_vars = [];
}
