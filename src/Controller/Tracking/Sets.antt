-- ===== src/Controller/Tracking/Sets.antt =====
-- The garbage collection of `reconcile`, `prune` and `pruneSurvivors` of
-- internal/controller/kustomization_controller.go as an operation on sets of identifiers.
use kustomize_controller.Base.{
  Bool, String, ◌≡◌, true, not, ◌&&◌, ◌||◌, Option, none, some, is_some, List, map, arith, contains,
  All,
}
use mathlib.Core.Path.{fun_ext}
use kustomize_controller.Base.Int.{ℤ}
use kustomize_controller.Errors.{Error, ok, ok_inv}
use kustomize_controller.Api.Inventory.{ResourceInventory, ids}
use kustomize_controller.Inventory.Packages.{ObjectPackages, Unstructured, ChangeSet, IsLawful}
use kustomize_controller.Inventory.Operations.{object_id, diff}
use kustomize_controller.Inventory.Parsing.{IsCanonical}
use kustomize_controller.Inventory.Merging.{merge_lem}
use kustomize_controller.Inventory.Stale.{contains-diff}
use kustomize_controller.Inventory.Listing.{EntryRoundTrips, add_change_set-IsCanonical}
use kustomize_controller.Platform.Services.{Platform}
use kustomize_controller.Run.{State}
use kustomize_controller.Controller.Garbage.{settled_ids, prune_survivors}
use kustomize_controller.Controller.Reconciling.Steps.{Built, Origin}
use kustomize_controller.Controller.Reconciling.Stages.{garbage_stage}
use kustomize_controller.Controller.Retracking.{
  tracked_ids, inventory_after, deletion_answer, applied_inventory, garbage_stage-inventory,
  contains-prune_survivors,
}

-- A set of identifiers, and the set that a status tracks.
abbrev pub IdSet : Type 0
IdSet = String → Bool

abbrev pub tracked_set : Option ResourceInventory → IdSet
tracked_set inv k = contains (tracked_ids inv) k

-- The sets that `DeleteAll` reports as settled.
abbrev pub settled_set : ObjectPackages → Option ChangeSet → IdSet
settled_set P set k = contains (settled_ids P set) k

-- The garbage collection on sets: what has been applied is tracked, and so is, if the deletion has
-- failed, what only the old set has and what is not settled.
abbrev pub collect : IdSet → IdSet → Bool → IdSet → IdSet
collect old applied failed settled k =
    applied k || (failed && (old k && (not (applied k) && not (settled k))))

module _ (P : ObjectPackages) where
  inventory_after_collects :
      (tracked : ResourceInventory) (stale : List Unstructured)
      (answer : Option ChangeSet × Option Error) (k : String)
      → contains (tracked_ids (inventory_after P (some tracked) stale answer)) k ≡ (
          contains (ids tracked) k
          || (is_some answer.1
              && (contains (map (object_id P) stale) k
                  && not (contains (settled_ids P answer.0) k))))
  inventory_after_collects tracked stale (set, none) k = ground arith
  inventory_after_collects tracked stale (set, some e) k =
      let (result, merged, _, tracks) = merge_lem P tracked (prune_survivors P stale set) k in
      rw merged (ground (arith, tracks, contains-prune_survivors P stale set k))

module _ (P : Platform) (b : Built P.Client P.Poller) (o : Origin) (start : ℤ)
    (old : ResourceInventory) (set : ChangeSet) (s : State P.World) where
  -- With pruning on and canonical identifiers, the stage implements the garbage collection on sets:
  -- `Diff` gives some stale objects, and the set of identifiers that the inventory tracks afterwards
  -- is the one that `collect` makes of those of the old inventory and of the change set, by the
  -- answer that `DeleteAll` gives for the stale objects.
  pub garbage_stage_refines :
      IsLawful P.objects
      → All (IsCanonical P.objects) old.entries
      → All (EntryRoundTrips P.objects) set.entries
      → s.obj.spec.prune ≡ true
      → (stale : List Unstructured) × (diff P.objects old (applied_inventory P b o start set)
          ≡ ok stale)
        × (tracked_set (garbage_stage P b o start old set s).1.obj.status.inventory
            ≡ collect
                (tracked_set (some old))
                (tracked_set (some (applied_inventory P b o start set)))
                (is_some (deletion_answer P b o start stale s).1)
                (settled_set P.objects (deletion_answer P b o start stale s).0))
  garbage_stage_refines L co cs on =
      let ca = add_change_set-IsCanonical P.objects set cs in
      let (stale, d, _) =
        contains-diff P.objects L old (applied_inventory P b o start set) "" co ca in
      (stale, d, fun_ext (λ (k : String). refined k stale co ca d on))
    where
      refined :
          (k : String) (stale : List Unstructured)
          → All (IsCanonical P.objects) old.entries
          → All (IsCanonical P.objects) (applied_inventory P b o start set).entries
          → diff P.objects old (applied_inventory P b o start set) ≡ ok stale
          → s.obj.spec.prune ≡ true
          → tracked_set (garbage_stage P b o start old set s).1.obj.status.inventory k
            ≡ collect
                (tracked_set (some old))
                (tracked_set (some (applied_inventory P b o start set)))
                (is_some (deletion_answer P b o start stale s).1)
                (settled_set P.objects (deletion_answer P b o start stale s).0)
                k
      refined k stale co ca d on =
          let (us, found, split) =
            contains-diff P.objects L old (applied_inventory P b o start set) k co ca in
          let same : us ≡ stale = ok_inv (cc found) in
          rw
            (
              garbage_stage-inventory P b o start old set s stale d on,
              inventory_after_collects P.objects (applied_inventory P b o start set) stale
                  (deletion_answer P b o start stale s) k,
            )
            (ground (arith, same, split))
