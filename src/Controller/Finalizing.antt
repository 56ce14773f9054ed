-- ===== src/Controller/Finalizing.antt =====
-- `finalize` and `finalizerShouldDeleteResources` of
-- internal/controller/kustomization_controller.go.
use kustomize_controller.Base.{
  String, ◌<>◌, ◌==◌, ◌||◌, Bool, Option, none, some, List, [], ◌∷◌, is_empty, is_some, true, false,
  if◌then◌else◌, ◌*◌, ◌^◌,
}
use kustomize_controller.Base.Int.{pos}
use kustomize_controller.Errors.{Error, ok, err}
use kustomize_controller.Api.Inventory.{ResourceInventory}
use kustomize_controller.Api.Object.{
  Kustomization, kustomization_kind, kustomization_finalizer, mirror_prune, delete_policy,
  wait_for_termination,
}
use kustomize_controller.Api.Defaults.{get_deletion_policy, get_timeout}
use kustomize_controller.Api.Actions.{Action, all_metrics}
use kustomize_controller.Inventory.Packages.{Unstructured, ChangeSet}
use kustomize_controller.Inventory.Operations
use kustomize_controller.Platform.Values.{WaitOptions, CtrlResult, Effect, ImpersonatorOptions}
use kustomize_controller.Platform.Services.{Platform}
use kustomize_controller.Run.{
  Act, pure, raise, done, leave, ask, call, the_obj, modify, when, ◌>>=◌, ◌>>◌,
}
use kustomize_controller.Controller.Config.{KustomizationReconciler}
use kustomize_controller.Controller.Status.{event, Severity, info_severity, error_severity}
use kustomize_controller.Controller.Garbage.{delete_objects}
use kustomize_controller.Controller.Clients.{impersonator_options, must_impersonate}

-- `obj.Status.Inventory == nil || len(obj.Status.Inventory.Entries) == 0`
abbrev pub has_no_inventory : Option ResourceInventory → Bool
has_no_inventory none = true
has_no_inventory (some inv) = is_empty inv.entries

-- `finalizerShouldDeleteResources`
unfoldable pub finalizer_should_delete_resources : Kustomization → Bool
finalizer_should_delete_resources k =
    let policy = get_deletion_policy k in
    if k.spec.suspend
    then false
    else if has_no_inventory k.status.inventory
    then false
    else if policy == mirror_prune
    then k.spec.prune
    else policy == delete_policy || policy == wait_for_termination

-- The result of a reconciliation that is not requeued.
abbrev pub no_requeue : CtrlResult
no_requeue = record { requeue = false; requeue_after = pos 0 }

module _ (P : Platform) where
  -- `inventory.List`, with its error ignored.
  unfoldable pub inventory_objects : Option ResourceInventory → List Unstructured
  inventory_objects none = []
  inventory_objects (some inv) = elim (Operations.list P.objects inv) [ ok us ↦ us | err e ↦ [] ]

  -- An event of the finalization, with the revisions that were applied last.
  unfoldable pub finalize_event :
      Kustomization → Severity → Action → String → Act P.World (Unit {0})
  unfolding event
  finalize_event k severity action msg =
      event P none k.status.last_applied_revision k.status.last_applied_origin_revision severity
        action msg []

  -- The wait for the termination of the deleted resources; a failure is only reported.
  unfoldable pub await_termination : Kustomization → P.Client → ChangeSet → Act P.World (Unit {0})
  unfolding finalize_event
  await_termination k client set = do
    let options : WaitOptions = record {
      interval = pos (2 * 10 ^ 9);
      timeout = get_timeout k;
      fail_fast = false;
      jobs_with_ttl = [];
    }
    failure ← ask (P.wait_for_termination client set options)
    leave (Effect.awaited_termination set options failure)
    when (is_some failure) (
        finalize_event k error_severity Action.wait_for_termination
          "failed to wait for resources termination")

  -- What follows a call of `deleteObjects`.
  unfoldable pub after_delete :
      Kustomization → P.Client → Option ChangeSet × Option Error → Act P.World (Unit {0})
  unfolding await_termination finalize_event
  after_delete k client (set, some e) = do
    finalize_event k error_severity Action.finalize "pruning for deleted resource failed"
    raise e
  after_delete k client (none, none) = done
  after_delete k client (some set, none) = if is_empty set.entries then done else do
    finalize_event k info_severity Action.finalize (P.change_set_string set)
    when (get_deletion_policy k == wait_for_termination) (await_termination k client set)

  abbrev finalize_client :
      KustomizationReconciler
      → Kustomization
      → ImpersonatorOptions P.StatusReader
      → Act P.World P.Client
  finalize_client r k options =
      if must_impersonate r k
      then (do client ← call (P.impersonated_client options); pure client.0)
      else pure P.own_client

  -- The deletion of the objects of the inventory, if the account to impersonate is there.
  unfoldable pub delete_managed : KustomizationReconciler → Kustomization → Act P.World (Unit {0})
  unfolding inventory_objects after_delete delete_objects finalize_event
  delete_managed r k = do
    let objects = inventory_objects k.status.inventory
    let options = impersonator_options P r k (if r.cluster_reader then some (true, none) else none)
    can ← ask (P.can_impersonate options)
    if can
        then (do
          client ← finalize_client r k options
          answer ← delete_objects P k client objects
          after_delete k client answer)
        else finalize_event k error_severity Action.finalize
            ("unable to prune objects: \n" <> P.format_objects objects)

  -- The loop over the metrics.
  unfoldable pub cleanup_caches : Kustomization → List String → Act P.World (Unit {0})
  cleanup_caches k [] = done
  cleanup_caches k (op ∷ ops) = do
    ask (λ w. (tt, P.delete_cached_events kustomization_kind k.name k.namespace op w))
    leave (Effect.cached_events_deleted op)
    cleanup_caches k ops

  -- `finalize`
  unfoldable pub finalize : KustomizationReconciler → Act P.World CtrlResult
  unfolding finalizer_should_delete_resources delete_managed cleanup_caches
  finalize r = do
    k ← the_obj
    when (finalizer_should_delete_resources k) (delete_managed r k)
    modify (λ k. record k { finalizers = P.remove_finalizer k.finalizers kustomization_finalizer })
    cleanup_caches k all_metrics
    pure no_requeue
