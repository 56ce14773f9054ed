-- ===== src/Controller/Retracking.antt =====
-- No object is lost between the inventories: the new inventory, the deletion of the stale objects
-- and the survivors, in `reconcile`, `prune` and `pruneSurvivors` of
-- internal/controller/kustomization_controller.go.
use kustomize_controller.Base.{
  is_empty, String, ◌≡◌, refl, ◌⊎◌, inl, inr, true, false, not, ◌&&◌, ◌||◌, Option, none, some,
  List, [], ◌∷◌, map, arith, contains, All, any, In, Bool-cases, eq_iff,
}
use kustomize_controller.Base.Int.{ℤ}
use kustomize_controller.Errors.{Error, ok, err, Result-cases}
use kustomize_controller.Api.Inventory.{ResourceRef, ResourceInventory, ids}
use kustomize_controller.Inventory.Packages.{ObjectPackages, Unstructured, ChangeSet, IsLawful}
use kustomize_controller.Inventory.Operations.{new, object_id, add_change_set, diff, merge}
use kustomize_controller.Inventory.Parsing.{IsCanonical}
use kustomize_controller.Inventory.Merging.{merge_lem}
use kustomize_controller.Inventory.Stale.{contains-diff}
use kustomize_controller.Inventory.Unreadable.{diff_fails}
use kustomize_controller.Inventory.Listing.{EntryRoundTrips, add_change_set-IsCanonical}
use kustomize_controller.Platform.Services.{Platform}
use kustomize_controller.Run.{State, ◌>>=◌}
use kustomize_controller.Controller.Garbage.{
  report_pruned, delete_objects, settled_ids, unsettled, prune_survivors, delete_options, prune,
}
use kustomize_controller.Controller.Reconciling.Steps.{
  attempt_failed, Built, Origin, inventory_or_new,
}
use kustomize_controller.Controller.Reconciling.Stages.{retrack, garbage_stage}
use kustomize_controller.Controller.Traces.{is_deletion}

-- The identifiers that a status tracks.
abbrev pub tracked_ids : Option ResourceInventory → List String
tracked_ids inv = ids (inventory_or_new inv)

module _ (P : ObjectPackages) where
  contains-unsettled :
      (settled : List String) (us : List Unstructured) (k : String)
      → contains (map (object_id P) (unsettled P settled us)) k
        ≡ (contains (map (object_id P) us) k && not (contains settled k))
  unfolding unsettled
  contains-unsettled settled [] k = refl
  contains-unsettled settled (u ∷ us) k = elim (Bool-cases (contains settled (object_id P u))) [
    | inl old ↦ rw old (ground (arith, contains-unsettled settled us k, eq_iff (object_id P u) k))
    | inr new ↦ rw new (ground (arith, contains-unsettled settled us k, eq_iff (object_id P u) k))
  ]

  -- The survivors of a failed deletion are the objects that the change set does not report as
  -- deleted or skipped.
  pub contains-prune_survivors :
      (us : List Unstructured) (set : Option ChangeSet) (k : String)
      → contains (map (object_id P) (prune_survivors P us set)) k
        ≡ (contains (map (object_id P) us) k && not (contains (settled_ids P set) k))
  unfolding prune_survivors
  contains-prune_survivors [] set k = refl
  contains-prune_survivors (u ∷ us) set k = contains-unsettled (settled_ids P set) (u ∷ us) k

  -- The inventory after a deletion with the given answer.
  abbrev pub inventory_after :
      Option ResourceInventory
      → List Unstructured
      → Option ChangeSet × Option Error
      → Option ResourceInventory
  inventory_after tracked stale (set, none) = tracked
  inventory_after tracked stale (set, some e) = merge P tracked (prune_survivors P stale set)

  inventory_after_tracks :
      (tracked : ResourceInventory) (stale : List Unstructured)
      (answer : Option ChangeSet × Option Error) (k : String)
      → (contains (ids tracked) k || contains (map (object_id P) stale) k) ≡ true
      → (contains (tracked_ids (inventory_after (some tracked) stale answer)) k ≡ true)
        ⊎ ((contains (map (object_id P) stale) k ≡ true)
            × ((answer.1 ≡ none) ⊎ (contains (settled_ids P answer.0) k ≡ true)))
  inventory_after_tracks tracked stale (set, none) k h = ground arith
  inventory_after_tracks tracked stale (set, some e) k h =
      let (result, merged, _, tracks) = merge_lem P tracked (prune_survivors P stale set) k in
      rw merged (ground (arith, tracks, contains-prune_survivors stale set k))

module _ (P : Platform) (b : Built P.Client P.Poller) (o : Origin) (start : ℤ) where
  -- What `garbage_stage` does with the answer of `deleteObjects`.
  report-inventory :
      (stale : List Unstructured) (answer : Option ChangeSet × Option Error) (t : State P.World)
      → ((report_pruned P (some o.source) o.revision o.origin_revision stale answer
            >>= retrack P b.checksum start o)
          t).1.obj.status.inventory
        ≡ inventory_after P.objects t.obj.status.inventory stale answer
  unfolding report_pruned retrack merge attempt_failed
  report-inventory stale (set, some e) t = refl
  report-inventory stale (none, none) t = refl
  report-inventory stale (some set, none) t = elim (Bool-cases (is_empty set.entries)) [
    | inl nothing ↦ rw nothing refl
    | inr changes ↦ rw changes refl
  ]

  -- What `DeleteAll` answers for the stale objects.
  abbrev pub deletion_answer : List Unstructured → State P.World → Option ChangeSet × Option Error
  deletion_answer stale t = (P.delete_all b.client.0 stale (delete_options P t.obj) t.world).0

  prune-inventory :
      (stale : List Unstructured) (t : State P.World)
      → t.obj.spec.prune ≡ true
      → ((prune P t.obj b.client.0 (some o.source) o.revision o.origin_revision stale
            >>= retrack P b.checksum start o)
          t).1.obj.status.inventory
        ≡ inventory_after P.objects t.obj.status.inventory stale (deletion_answer stale t)
  unfolding prune delete_objects
  prune-inventory stale t on = rw on (report-inventory stale (deletion_answer stale t) _)

  -- The inventory of what was applied.
  abbrev pub applied_inventory : ChangeSet → ResourceInventory
  applied_inventory set = add_change_set P.objects new (some set)

  module _ (old : ResourceInventory) (set : ChangeSet) (s : State P.World) where
    pub garbage_stage-inventory :
        (stale : List Unstructured)
        → diff P.objects old (applied_inventory set) ≡ ok stale
        → s.obj.spec.prune ≡ true
        → (garbage_stage P b o start old set s).1.obj.status.inventory
          ≡ inventory_after P.objects (some (applied_inventory set)) stale (deletion_answer stale s)
    unfolding garbage_stage
    garbage_stage-inventory stale d on = rw d (prune-inventory stale _ on)

    -- With pruning on and canonical identifiers, the garbage collection loses no object: an
    -- identifier that the old inventory tracked is tracked by the new one, or it is that of a stale
    -- object, and `DeleteAll` of the stale objects returned no error or a change set that reports it
    -- as deleted or skipped.
    pub garbage_stage_tracks :
        IsLawful P.objects
        → (k : String) → All (IsCanonical P.objects) old.entries
        → All (EntryRoundTrips P.objects) set.entries
        → s.obj.spec.prune ≡ true
        → contains (ids old) k ≡ true
        → (stale : List Unstructured) × (diff P.objects old (applied_inventory set) ≡ ok stale)
          × ((contains (tracked_ids (garbage_stage P b o start old set s).1.obj.status.inventory) k
                ≡ true)
              ⊎ ((contains (map (object_id P.objects) stale) k ≡ true)
                  × (((deletion_answer stale s).1 ≡ none)
                      ⊎ (contains (settled_ids P.objects (deletion_answer stale s).0) k ≡ true))))
    garbage_stage_tracks L k co cs on m =
        let (stale, d, same) =
          contains-diff P.objects L old (applied_inventory set) k co
            (add_change_set-IsCanonical P.objects set cs) in
        (
          stale,
          d,
          rw (garbage_stage-inventory stale d on) (
              inventory_after_tracks P.objects (applied_inventory set) stale
                (deletion_answer stale s) k (ground (arith, same))),
        )

    unparsed_lem :
        (e : Error)
        → diff P.objects old (applied_inventory set) ≡ err e
        → ((garbage_stage P b o start old set s).0 ≡ err e)
          × ((garbage_stage P b o start old set s).1.obj.status.inventory
              ≡ some (applied_inventory set))
          × ((garbage_stage P b o start old set s).1.trace ≡ s.trace)
    unfolding garbage_stage attempt_failed
    unparsed_lem e d = rw d (refl, refl, refl)

    -- If one identifier of the old inventory cannot be read, wherever it stands, the stage fails and
    -- loses every object that is not in the change set: it is not tracked afterwards, whether the old
    -- inventory tracked it or not, and no object has been deleted.
    pub garbage_stage_orphans :
        (r : ResourceRef) (e : Error) (k : String)
        → In r old.entries
        → P.objects.parse_metadata r.id ≡ err e
        → contains (ids (applied_inventory set)) k ≡ false
        → ((e' : Error) × ((garbage_stage P b o start old set s).0 ≡ err e'))
          × (contains (tracked_ids (garbage_stage P b o start old set s).1.obj.status.inventory) k
              ≡ false)
          × (any is_deletion (garbage_stage P b o start old set s).1.trace
              ≡ any is_deletion s.trace)
    garbage_stage_orphans r e k i bad new_one =
        let (e', d) = diff_fails P.objects old (applied_inventory set) r e i bad in
        let (fails, replaced, quiet) = unparsed_lem e' d in
        ((e', fails), rw replaced new_one, rw quiet refl)

    -- With pruning off, the inventory becomes that of the change set, and the stage makes no
    -- difference to whether objects have been deleted.
    pub garbage_stage_unpruned :
        s.obj.spec.prune ≡ false
        → ((garbage_stage P b o start old set s).1.obj.status.inventory
            ≡ some (applied_inventory set))
          × (any is_deletion (garbage_stage P b o start old set s).1.trace
              ≡ any is_deletion s.trace)
    unfolding garbage_stage prune retrack attempt_failed
    garbage_stage_unpruned off = elim (Result-cases (diff P.objects old (applied_inventory set))) [
      | inl (us, d) ↦ rw (d, off) (refl, refl)
      | inr (e, d) ↦ rw d (refl, refl)
    ]
