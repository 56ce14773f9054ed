-- ===== src/Controller/Reconciling/Steps.antt =====
-- The steps that the stages of `reconcile` in internal/controller/kustomization_controller.go share,
-- the first stage, and `MkdirTempAbs` of internal/controller/utils.go.
use kustomize_controller.Base.{String, ◌<>◌, ◌==◌, Option, none, some, List, [], ◌∷◌, if◌then◌else◌}
use kustomize_controller.Base.Int.{ℤ}
use kustomize_controller.Base.Text.{has_substring}
use kustomize_controller.Errors.{Error, message}
use kustomize_controller.Api.Inventory.{ResourceInventory}
use kustomize_controller.Api.Defaults.{get_timeout}
use kustomize_controller.Inventory.Packages.{Unstructured}
use kustomize_controller.Inventory.Operations.{new}
use kustomize_controller.Platform.Values.{Artifact, Source, Effect}
use kustomize_controller.Platform.Conditions.{ready}
use kustomize_controller.Platform.Services.{Platform}
use kustomize_controller.Run.{
  Act, pure, raise, leave, ask, call, run, gets, the_obj, modify_status, on_error, wrap_error,
  ◌>>=◌, ◌>>◌,
}
use kustomize_controller.Controller.Config.{KustomizationReconciler}
use kustomize_controller.Controller.Status.{patch, mark_false, mark_reconciling}
use kustomize_controller.Controller.Source.{get_origin_revision}

-- A copy of the inventory of the status, or an empty one.
abbrev pub inventory_or_new : Option ResourceInventory → ResourceInventory
inventory_or_new none = new
inventory_or_new (some inv) = inv

-- `historyMeta`
abbrev history_meta : String → String → List (String × String)
history_meta revision origin =
    ("revision", revision) ∷ (if origin == "" then [] else ("originRevision", origin) ∷ [])

-- The source and its revisions, which all stages share.
pub record Origin : Type 0 where
  pub source : Source
  pub artifact : Artifact
  pub revision : String
  pub origin_revision : String

unfoldable pub origin_of : Source → Artifact → Origin
unfolding get_origin_revision
origin_of src artifact = record {
  source = src;
  artifact = artifact;
  revision = artifact.revision;
  origin_revision = get_origin_revision src;
}

-- What the build hands to the later stages.
pub record Built (Client Poller : Type 0) : Type 0 where
  pub client : Client × Poller
  pub checksum : String
  pub objects : List Unstructured
  pub secret_vars : List (String × String)

module _ (P : Platform) where
  -- `conditions.MarkFalse(obj, meta.ReadyCondition, reason, "%s", err); return err`
  abbrev pub fail_as : {A : Type 0} → String → Error → Act P.World A
  fail_as reason e = mark_false P ready reason (message e) >> raise e

  abbrev pub or_fail : {A : Type 0} → String → Act P.World A → Act P.World A
  or_fail reason m = on_error m (fail_as reason)

  -- The progress message of a stage, and the patch of the status.
  unfoldable pub report_progress : String → Origin → Act P.World (Unit {0})
  unfolding patch
  report_progress stage o = do
    k ← the_obj
    mark_reconciling P "Progressing" (
        stage
        <> (" for revision "
            <> (o.revision <> (" with a timeout of " <> P.duration_string (get_timeout k)))))
    wrap_error "failed to update status: " (patch P)

  -- `obj.Status.History.Upsert`
  unfoldable pub record_attempt : String → ℤ → String → Origin → Act P.World (Unit {0})
  record_attempt checksum start reason o = do
    taken_at ← ask P.now
    finished ← ask P.now
    modify_status λ t. record t {
      history = P.upsert_history t.history (record {
        digest = checksum;
        taken_at = taken_at;
        started = start;
        finished = finished;
        status = reason;
        metadata = history_meta o.revision o.origin_revision;
      });
    }

  -- The attempt is recorded, and the Ready condition set, under the same reason.
  unfoldable pub attempt_failed :
      {A : Type 0} → String → ℤ → String → Origin → Error → Act P.World A
  unfolding record_attempt
  attempt_failed checksum start reason o e =
      record_attempt checksum start reason o >> fail_as reason e

  -- `MkdirTempAbs`
  unfoldable pub mkdir_temp_abs : String → Act P.World String
  mkdir_temp_abs prefix = do
    dir ← call (P.mkdir_temp prefix)
    wrap_error "error evaluating symlink: " (call (P.eval_symlinks dir))

  -- Download of the artifact to the directory; the path of the Kustomization in it.
  unfoldable pub fetch_stage : KustomizationReconciler → Origin → String → Act P.World String
  fetch_stage r o tmp_dir = do
    k ← the_obj
    localhost ← gets λ s.
        P.getenv
          (if has_substring o.artifact.url "//source-watcher"
            then "SOURCE_WATCHER_LOCALHOST"
            else "SOURCE_CONTROLLER_LOCALHOST")
          s.world
    leave (Effect.fetched o.artifact.url o.artifact.digest)
    or_fail "ArtifactFailed" (
        run (
          P.fetch
            (record {
              retries = r.artifact_fetch_retries;
              hostname_overwrite = localhost;
              tls_config = r.artifact_server_tls_config;
            })
            o.artifact.url o.artifact.digest tmp_dir))
    dir_path ← or_fail "ArtifactFailed" (call (P.secure_join tmp_dir k.spec.path))
    or_fail "ArtifactFailed" (wrap_error "kustomization path not found: " (run (P.stat dir_path)))
    pure dir_path
