-- ===== src/Controller/Reconciling/Stages.antt =====
-- The stages of `reconcile` in internal/controller/kustomization_controller.go behind the download,
-- and their composition.
use kustomize_controller.Base.{String, ◌<>◌, Bool, not, Option, none, some, ◌∷◌}
use kustomize_controller.Base.Int.{ℤ}
use kustomize_controller.Errors.{Error, queue_event_of}
use kustomize_controller.Api.Inventory.{ResourceInventory}
use kustomize_controller.Inventory.Packages.{ChangeSet}
use kustomize_controller.Inventory.Operations.{new, add_change_set, diff, merge}
use kustomize_controller.Platform.Values.{Effect}
use kustomize_controller.Platform.Conditions.{ready}
use kustomize_controller.Platform.Services.{Platform}
use kustomize_controller.Run.{
  Act, pure, raise, done, ask, run, lift, the_obj, modify_status, on_error, wrap_error, ◌>>=◌, ◌>>◌,
}
use kustomize_controller.Controller.Config.{KustomizationReconciler}
use kustomize_controller.Controller.Status.{mark_true, mark_unknown}
use kustomize_controller.Controller.Garbage.{Pruned, prune}
use kustomize_controller.Controller.Clients.{reconcile_client}
use kustomize_controller.Controller.Applying.{apply}
use kustomize_controller.Controller.Health.{check_health}
use kustomize_controller.Controller.Building.{BuildServices, build, mask_secret_values}
use kustomize_controller.Controller.Reconciling.Steps.{
  Origin, Built, inventory_or_new, or_fail, attempt_failed, report_progress, record_attempt,
  mkdir_temp_abs, fetch_stage,
}

module _ (P : Platform) where
  abbrev set_inventory : Option ResourceInventory → Act P.World (Unit {0})
  set_inventory inv = modify_status (λ t. record t { inventory = inv })

  -- The branch for the answer of `prune`: survivors are tracked again.
  unfoldable pub retrack : String → ℤ → Origin → Pruned P → Act P.World (Unit {0})
  retrack checksum start o p = elim p.failure [
    | none ↦ done
    | some e ↦ do
      modify_status (λ t. record t { inventory = merge P.objects t.inventory p.survivors })
      attempt_failed P checksum start "PruneFailed" o e
  ]

  -- The new inventory, the stale objects and their garbage collection.
  unfoldable pub garbage_stage :
      Built P.Client P.Poller → Origin → ℤ → ResourceInventory → ChangeSet → Act P.World (Unit {0})
  unfolding retrack
  garbage_stage b o start old set = do
    let tracked = add_change_set P.objects new (some set)
    set_inventory (some tracked)
    stale ←
        on_error (lift (diff P.objects old tracked))
          (attempt_failed P b.checksum start "ReconciliationFailed" o)
    k ← the_obj
    pruned ← prune P k b.client.0 (some o.source) o.revision o.origin_revision stale
    retrack b.checksum start o pruned

  -- The error of the health check: a cancellation is passed on as it is.
  unfoldable pub health_failed : String → ℤ → Origin → Error → Act P.World (Unit {0})
  health_failed checksum start o e = elim (queue_event_of e) [
    | some q ↦ raise e
    | none ↦ attempt_failed P checksum start "HealthCheckFailed" o e
  ]

  -- The health checks, and then the end of a successful reconciliation.
  unfoldable pub health_stage :
      KustomizationReconciler
      → Built P.Client P.Poller
      → Origin
      → ℤ
      → Bool
      → ChangeSet
      → Act P.World (Unit {0})
  unfolding health_failed
  health_stage r b o start drifted set = do
    k ← the_obj
    let is_new_revision = not (P.has_revision o.artifact k.status.last_applied_revision)
    on_error
        (check_health P r k b.client (some o.source) o.revision o.origin_revision is_new_revision
          drifted set (P.jobs_with_ttl b.objects))
        (health_failed b.checksum start o)

  -- The last applied revisions, the Ready condition and the record of the attempt.
  unfoldable pub success_stage : String → Origin → ℤ → Act P.World (Unit {0})
  success_stage checksum o start = do
    modify_status λ t. record t {
      last_applied_revision = o.revision;
      last_applied_origin_revision = o.origin_revision;
    }
    mark_true P ready "ReconciliationSucceeded" ("Applied revision: " <> o.revision)
    record_attempt P checksum start "ReconciliationSucceeded" o

  -- Validation and apply of the objects.
  unfoldable pub apply_stage :
      KustomizationReconciler
      → Built P.Client P.Poller
      → Origin
      → ℤ
      → Act P.World (Bool × ChangeSet)
  apply_stage r b o start = do
    k ← the_obj
    on_error (apply P r k b.client (some o.source) o.revision o.origin_revision b.objects) (λ e.
        attempt_failed P b.checksum start "ReconciliationFailed" o
          (mask_secret_values P e b.secret_vars))

module _ (P : Platform) (B : BuildServices P.World P.StructMap) where
  -- The client, the generated kustomization.yaml, the build and the objects of its result.
  unfoldable pub build_stage :
      KustomizationReconciler
      → P.StatusReader
      → Origin
      → String
      → String
      → Act P.World (Built P.Client P.Poller)
  build_stage r reader o tmp_dir dir_path = do
    modify_status (λ t. record t { last_attempted_revision = o.revision })
    report_progress P "Building manifests" o
    k ← the_obj
    client ←
        wrap_error "failed to build kube client: "
          (or_fail P "ReconciliationFailed" (reconcile_client P r k reader))
    u ← or_fail P "BuildFailed" (lift (P.to_unstructured k))
    or_fail P "BuildFailed" (run (P.write_kustomization u tmp_dir dir_path))
    built ← or_fail P "BuildFailed" (build P B r k u tmp_dir dir_path)
    objects ← or_fail P "BuildFailed" (lift (P.read_objects built.0))
    report_progress P "Detecting drift" o
    pure (record {
      client = client;
      checksum = P.digest_of built.0;
      objects = P.set_owner_labels objects k.name k.namespace;
      secret_vars = built.1;
    })

  -- All that happens while the temporary directory is there.
  unfoldable pub reconcile_in :
      KustomizationReconciler
      → P.StatusReader
      → Origin
      → ℤ
      → ResourceInventory
      → String
      → Act P.World (Unit {0})
  reconcile_in r reader o start old tmp_dir = do
    dir_path ← fetch_stage P r o tmp_dir
    b ← build_stage r reader o tmp_dir dir_path
    applied ← apply_stage P r b o start
    garbage_stage P b o start old applied.1
    health_stage P r b o start applied.0 applied.1
    success_stage P b.checksum o start

  -- The deferred removal of the temporary directory, whose failure is only logged.
  unfoldable pub with_cleanup : String → Act P.World (Unit {0}) → Act P.World (Unit {0})
  with_cleanup dir m s =
      let (answer, t) = m s in
      (
        answer,
        record t { world = (P.remove_all dir t.world).1; trace = Effect.dir_removed dir ∷ t.trace },
      )

  -- `reconcile`, for a source whose artifact is there.
  unfoldable pub reconcile :
      KustomizationReconciler → P.StatusReader → Origin → Act P.World (Unit {0})
  unfolding with_cleanup
  reconcile r reader o = do
    start ← ask P.now
    mark_unknown P ready "Progressing" "Reconciliation in progress"
    report_progress P "Fetching manifests" o
    k ← the_obj
    dir ←
        or_fail P "DirectoryCreationFailed"
          (wrap_error "tmp dir error: " (mkdir_temp_abs P "kustomization-"))
    with_cleanup dir (reconcile_in r reader o start (inventory_or_new k.status.inventory) dir)
