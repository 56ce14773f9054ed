-- ===== src/Controller/Health.antt =====
-- `checkHealth` of internal/controller/kustomization_controller.go.
use kustomize_controller.Base.{
  String, ◌<>◌, ◌==◌, ◌&&◌, ◌||◌, Bool, not, Option, none, some, List, [], ◌∷◌, is_empty, true,
  false, if◌then◌else◌, ◌*◌, ◌^◌,
}
use kustomize_controller.Base.Int.{ℤ, pos}
use kustomize_controller.Errors.{Error, message, wrapped}
use kustomize_controller.Api.Object.{Kustomization, kustomization_kind}
use kustomize_controller.Api.Defaults.{get_timeout}
use kustomize_controller.Api.Actions.{Action}
use kustomize_controller.Inventory.Packages.{
  ObjMetadata, ChangeSet, ChangeSetEntry, ApplyAction, skipped,
}
use kustomize_controller.Inventory.Operations.{reference_to_obj_metadata_set}
use kustomize_controller.Platform.Values.{Source, WaitOptions, Effect}
use kustomize_controller.Platform.Conditions.{ready, healthy}
use kustomize_controller.Platform.Services.{Platform}
use kustomize_controller.Run.{
  Act, leave, pure, raise, done, ask, lift, when, gets, wrap_error, ◌>>=◌, ◌>>◌,
}
use kustomize_controller.Controller.Config.{KustomizationReconciler}
use kustomize_controller.Controller.Status.{
  event, info_severity, patch, mark_true, mark_false, mark_unknown, mark_reconciling,
  delete_condition,
}

unfoldable pub is_skipped : ApplyAction → Bool
is_skipped skipped = true
is_skipped _ = false

-- `changeSetWithoutSkipped`
unfoldable pub without_skipped : List ChangeSetEntry → List ChangeSetEntry
unfolding is_skipped
without_skipped [] = []
without_skipped (e ∷ es) =
    let rest = without_skipped es in if is_skipped e.action then rest else e ∷ rest

-- The metadata of the Kustomization itself, which it must not wait for.
unfoldable pub is_self : Kustomization → ObjMetadata → Bool
is_self k o =
    o.group_kind.kind == kustomization_kind && (o.name == k.name && o.namespace == k.namespace)

-- `toCheck`
unfoldable pub to_check : Kustomization → List ObjMetadata → List ObjMetadata
unfolding is_self
to_check k [] = []
to_check k (o ∷ os) = let rest = to_check k os in if is_self k o then rest else o ∷ rest

module _ (P : Platform) where
  -- What is checked: the applied objects that were not skipped if `wait` is set, and else those of
  -- the references.
  unfoldable pub health_targets : Kustomization → ChangeSet → Act P.World (List ObjMetadata)
  unfolding without_skipped
  health_targets k set =
      if k.spec.wait
      then pure (P.metadata_set (record { entries = without_skipped set.entries }))
      else lift (reference_to_obj_metadata_set P.objects k.spec.health_checks)

  abbrev pub wait_options : KustomizationReconciler → Kustomization → List ObjMetadata → WaitOptions
  wait_options r k jobs = record {
    interval = pos (5 * 10 ^ 9);
    timeout = get_timeout k;
    fail_fast = r.fail_fast;
    jobs_with_ttl = jobs;
  }

  -- The call of `WaitForSetWithContext`: the error that it returns, if any.
  unfoldable pub wait_for :
      P.Client × P.Poller → List ObjMetadata → WaitOptions → Act P.World (Option Error)
  wait_for (client, poller) objects options = do
    answer ← ask (P.wait_for_set client poller objects options)
    leave (Effect.waited objects options answer)
    pure answer

  -- The time since a reading of the clock.
  abbrev pub elapsed_since : ℤ → Act P.World String
  elapsed_since start = do finish ← ask P.now; pure (P.since_string finish start)

  -- The branch for a wait that failed with an error.
  unfoldable pub wait_failed : Error → ℤ → Act P.World (Unit {0})
  wait_failed e start = do
    trigger ← gets (λ s. P.enqueued_by s.world)
    elim trigger [
      | some q ↦ raise q
      | none ↦ do
        mark_false P ready "HealthCheckFailed" (message e)
        mark_false P healthy "HealthCheckFailed" (message e)
        elapsed ← elapsed_since start
        raise (wrapped ("health check failed after " <> (elapsed <> ": ")) e)
    ]

  -- The part of `checkHealth` behind the early returns.
  unfoldable pub wait_for_health :
      KustomizationReconciler
      → Kustomization
      → P.Client × P.Poller
      → Option Source
      → String
      → String
      → Bool
      → Bool
      → List ObjMetadata
      → List ObjMetadata
      → ℤ
      → Act P.World (Unit {0})
  unfolding wait_for wait_failed patch event to_check
  wait_for_health r k client src revision origin is_new_revision drifted jobs objects start = do
    was_healthy ← gets (λ s. P.conditions.is_status_condition_true s.obj.status.conditions healthy)
    let text =
        "Running health checks for revision "
        <> (revision <> (" with a timeout of " <> P.duration_string (get_timeout k)))
    mark_reconciling P "Progressing" text
    mark_unknown P healthy "Progressing" text
    wrap_error "unable to update the healthy status to progressing: " (patch P)
    failure ← wait_for client (to_check k objects) (wait_options r k jobs)
    elim failure [ none ↦ done | some e ↦ wait_failed e start ]
    elapsed ← elapsed_since start
    let passed = "Health check passed in " <> elapsed
    when (not was_healthy || (is_new_revision && drifted))
        (event P src revision origin info_severity Action.health_check passed [])
    mark_true P healthy "Succeeded" passed
    wrap_error "unable to update the healthy status to progressing: " (patch P)

  -- `checkHealth`
  unfoldable pub check_health :
      KustomizationReconciler
      → Kustomization
      → P.Client × P.Poller
      → Option Source
      → String
      → String
      → Bool
      → Bool
      → ChangeSet
      → List ObjMetadata
      → Act P.World (Unit {0})
  unfolding health_targets wait_for_health
  check_health r k client src revision origin is_new_revision drifted set jobs =
      if is_empty k.spec.health_checks && not k.spec.wait then delete_condition P healthy else do
        start ← ask P.now
        objects ← health_targets k set
        if is_empty objects
            then delete_condition P healthy
            else wait_for_health r k client src revision origin is_new_revision drifted jobs objects
                start
