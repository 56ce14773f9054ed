-- ===== src/Controller/Garbage.antt =====
-- `deleteObjects`, `prune` and `pruneSurvivors` of internal/controller/kustomization_controller.go.
use kustomize_controller.Base.{
  String, ◌<>◌, Bool, Option, none, some, List, [], ◌∷◌, is_empty, contains, true, false,
  if◌then◌else◌,
}
use kustomize_controller.Errors.{Error}
use kustomize_controller.Api.Object.{Kustomization, group, disabled_value, ignore_value}
use kustomize_controller.Api.Actions.{Action}
use kustomize_controller.Inventory.Packages.{
  ObjectPackages, Unstructured, ChangeSet, ChangeSetEntry, ApplyAction, deleted, skipped,
}
use kustomize_controller.Inventory.Operations.{object_id}
use kustomize_controller.Platform.Values.{Source, DeleteOptions, Effect}
use kustomize_controller.Platform.Services.{Platform}
use kustomize_controller.Run.{Act, leave, pure, ask, ◌>>=◌, ◌>>◌}
use kustomize_controller.Controller.Status.{event, info_severity}

-- The `switch` of `pruneSurvivors`: actions that settle an object.
unfoldable pub is_settled : ApplyAction → Bool
is_settled deleted = true
is_settled skipped = true
is_settled _ = false

module _ (P : ObjectPackages) where
  -- The keys of the map `settled`.
  unfoldable pub settled_entries : List ChangeSetEntry → List String
  settled_entries [] = []
  settled_entries (e ∷ es) =
      let rest = settled_entries es in
      if is_settled e.action then P.metadata_string e.obj_metadata ∷ rest else rest

  unfoldable pub settled_ids : Option ChangeSet → List String
  settled_ids none = []
  settled_ids (some set) = settled_entries set.entries

  -- The loop over the objects.
  unfoldable pub unsettled : List String → List Unstructured → List Unstructured
  unsettled settled [] = []
  unsettled settled (u ∷ us) =
      let rest = unsettled settled us in if contains settled (object_id P u) then rest else u ∷ rest

  -- `pruneSurvivors`
  unfoldable pub prune_survivors : List Unstructured → Option ChangeSet → List Unstructured
  unfolding unsettled settled_ids settled_entries is_settled
  prune_survivors objects set = if is_empty objects then [] else unsettled (settled_ids set) objects

module _ (P : Platform) where
  abbrev pub delete_options : Kustomization → DeleteOptions
  delete_options k = record {
    inclusions = P.owner_labels k.name k.namespace;
    exclusions =
        (group <> "/prune", disabled_value)
        ∷ (group <> "/reconcile", disabled_value)
        ∷ (group <> "/ssa", ignore_value)
        ∷ [];
  }

  -- `deleteObjects`: the change set and the error that the manager returns.
  unfoldable pub delete_objects :
      Kustomization → P.Client → List Unstructured → Act P.World (Option ChangeSet × Option Error)
  delete_objects k client objects = do
    answer ← ask (P.delete_all client objects (delete_options k))
    leave (Effect.deleted objects (delete_options k) answer.0 answer.1)
    pure answer

  -- What `prune` returns: whether something changed, the survivors and the error.
  pub record Pruned : Type 0 where
    pub changed : Bool
    pub survivors : List Unstructured
    pub failure : Option Error

  abbrev nothing_pruned : Pruned
  nothing_pruned = record { changed = false; survivors = []; failure = none }

  -- `prune` after the call of `deleteObjects`.
  unfoldable pub report_pruned :
      Option Source
      → String
      → String
      → List Unstructured
      → Option ChangeSet × Option Error
      → Act P.World Pruned
  unfolding prune_survivors event
  report_pruned src revision origin objects (set, some e) = pure (record {
    changed = false;
    survivors = prune_survivors P.objects objects set;
    failure = some e;
  })
  report_pruned src revision origin objects (none, none) = pure nothing_pruned
  report_pruned src revision origin objects (some set, none) =
      if is_empty set.entries then pure nothing_pruned else do
        event P src revision origin info_severity Action.prune (P.change_set_string set) []
        pure (record { changed = true; survivors = []; failure = none })

  -- `prune`
  unfoldable pub prune :
      Kustomization
      → P.Client
      → Option Source
      → String
      → String
      → List Unstructured
      → Act P.World Pruned
  unfolding report_pruned delete_objects
  prune k client src revision origin objects =
      if k.spec.prune
      then (do
        answer ← delete_objects k client objects
        report_pruned src revision origin objects answer)
      else pure nothing_pruned
