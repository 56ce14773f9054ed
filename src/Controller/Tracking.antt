-- ===== src/Controller/Tracking.antt =====
-- No run of `reconcile` of internal/controller/kustomization_controller.go loses an object.
pub mod Accounts
pub mod Changes
pub mod Requests
pub mod Sets
use kustomize_controller.Base.{
  Bool, ◌⊎◌, String, ◌≡◌, refl, ◌∙◌, ap, true, false, Bool-cases, Option, none, some, List, [], ◌∷◌,
  map, arith, contains, In, All, any, inl, inr,
}
use kustomize_controller.Base.Int.{ℤ}
use kustomize_controller.Errors.{Error, Result, ok, err, ok_inv}
use kustomize_controller.Api.Spec.{KustomizationSpec}
use kustomize_controller.Api.Inventory.{ResourceInventory, ids}
use kustomize_controller.Api.Object.{Kustomization}
use kustomize_controller.Inventory.Packages.{ObjectPackages, Unstructured, ChangeSet, IsLawful}
use kustomize_controller.Inventory.Operations.{object_id, diff}
use kustomize_controller.Inventory.Parsing.{IsCanonical}
use kustomize_controller.Inventory.Listing.{EntryRoundTrips, add_change_set-IsCanonical}
use kustomize_controller.Inventory.Stale.{contains-diff}
use kustomize_controller.Inventory.Canonical.{
  ObjectIsCanonical, diff-ObjectIsCanonical, merge-IsCanonical,
}
use kustomize_controller.Platform.Values.{Effect, ApplyOptions}
use kustomize_controller.Platform.Conditions.{ready}
use kustomize_controller.Platform.Services.{Platform}
use kustomize_controller.Run.{Act, State, ask, the_obj, wrap_error}
use kustomize_controller.Run.Frames.{Leads, bind-Leads}
use kustomize_controller.Controller.Config.{KustomizationReconciler}
use kustomize_controller.Controller.Status.{mark_unknown}
use kustomize_controller.Controller.Building.{BuildServices}
use kustomize_controller.Controller.Garbage.{
  unsettled, settled_ids, prune_survivors, delete_options,
}
use kustomize_controller.Controller.Traces.{deletions}
use kustomize_controller.Controller.Retracking.{
  tracked_ids, inventory_after, deletion_answer, applied_inventory, garbage_stage-inventory,
  garbage_stage_tracks,
}
use kustomize_controller.Controller.Framing.Parts.{
  held, held-deletions, held-spec, held-inventory, Holds, report_progress-Holds, fetch_stage-Holds,
  mkdir-Holds, apply_stage-Holds, success_stage-Holds,
}
use kustomize_controller.Controller.Framing.{
  build_stage-Holds, health_stage-Holds, held-with_cleanup,
}
use kustomize_controller.Controller.Reconciling.Steps.{
  Built, Origin, fetch_stage, report_progress, or_fail, mkdir_temp_abs, inventory_or_new,
}
use kustomize_controller.Controller.Reconciling.Stages.{
  garbage_stage, health_stage, apply_stage, build_stage, reconcile_in, with_cleanup, reconcile,
}
use Changes.{releases, any-releases-deletions, garbage_stage-deletions, apply_stage-Trips}
use Accounts.{
  CanonicalStatus, inventory_after-CanonicalStatus, Accounted, Accounted-held, Holds-Accounted,
}

module _ (P : Platform) (o : Origin) (B : BuildServices P.World P.StructMap)
    (L : IsLawful P.objects)
    (trips : (client : P.Client) (poller : P.Poller) (us : List Unstructured)
        (options : ApplyOptions) (w : P.World) (set : ChangeSet)
      → (P.apply_all_staged client poller us options w).0.0 ≡ some set
      → All (EntryRoundTrips P.objects) set.entries)
    (k : String) (s0 : State P.World) (on : s0.obj.spec.prune ≡ true)
    (accounted : Accounted P k s0) where
  -- Nothing has been deleted yet, and the spec and the inventory are those of the start.
  abbrev Unchanged : State P.World → Type 0
  Unchanged t = held P t ≡ held P s0

  Unchanged-Accounted : (t : State P.World) → Unchanged t → Accounted P k t
  Unchanged-Accounted t h = Accounted-held P k s0 t h accounted

  Holds-Unchanged : {A : Type 0} (m : Act P.World A) → Holds P m → Leads Unchanged Unchanged m
  Holds-Unchanged m h = record { leads = λ s same. h.keeps s ∙ same }

  old_inventory :
      (t : State P.World) (obj : Kustomization)
      → Unchanged t
      → Result.ok t.obj ≡ ok obj
      → inventory_or_new obj.status.inventory ≡ inventory_or_new s0.obj.status.inventory
  old_inventory t obj same q =
      rw (ok_inv q)
        (ap (λ (i : Option ResourceInventory). inventory_or_new i) (held-inventory P s0 t same))

  -- The old inventory tracked the identifier, or it has been released before.
  garbage_stage-accounts :
      (b : Built P.Client P.Poller) (start : ℤ) (old : ResourceInventory) (set : ChangeSet)
      (t : State P.World) (stale : List Unstructured)
      → All (IsCanonical P.objects) old.entries
      → All (EntryRoundTrips P.objects) set.entries
      → t.obj.spec.prune ≡ true
      → diff P.objects old (applied_inventory P b o start set) ≡ ok stale
      → (contains (ids old) k ≡ true) ⊎ (any (releases P.objects k) (deletions t.trace) ≡ true)
      → (contains (tracked_ids (garbage_stage P b o start old set t).1.obj.status.inventory) k
          ≡ true)
        ⊎ (any (releases P.objects k) (deletions (garbage_stage P b o start old set t).1.trace)
            ≡ true)
  garbage_stage-accounts b start old set t stale co cs pruning d (inr released) =
      inr (rw (garbage_stage-deletions P b o start old set t stale d pruning) (ground arith))
  garbage_stage-accounts b start old set t stale co cs pruning d (inl m) =
      let (us, found, split) = garbage_stage_tracks P b o start old set t L k co cs pruning m in
      let same : us ≡ stale = ok_inv (cc found) in
      elim split [
        | inl n ↦ inl n
        | inr (n, settled) ↦ inr (
            rw (garbage_stage-deletions P b o start old set t stale d pruning)
              (ground (arith, same)))
      ]

  garbage_stage-Leads :
      (b : Built P.Client P.Poller) (start : ℤ) (old : ResourceInventory) (set : ChangeSet)
      → old ≡ inventory_or_new s0.obj.status.inventory
      → All (EntryRoundTrips P.objects) set.entries
      → Leads Unchanged (Accounted P k) (garbage_stage P b o start old set)
  garbage_stage-Leads b start old set e cs = record {
    leads = λ t h.
        let co : All (IsCanonical P.objects) old.entries = rw e (accounted.1) in
        let cn = add_change_set-IsCanonical P.objects set cs in
        let (stale, d, _) =
          contains-diff P.objects L old (applied_inventory P b o start set) k co cn in
        let pruning : t.obj.spec.prune ≡ true =
          ap (λ (spec : KustomizationSpec). spec.prune) (held-spec P s0 t h) ∙ on in
        (
          rw (← any-releases-deletions P.objects k (garbage_stage P b o start old set t).1.trace) (
              garbage_stage-accounts b start old set t stale co cs pruning d (
                rw (e, held-deletions P s0 t h, any-releases-deletions P.objects k s0.trace)
                  (accounted.0))),
          rw (garbage_stage-inventory P b o start old set t stale d pruning) (
              inventory_after-CanonicalStatus P.objects (applied_inventory P b o start set) stale
                (deletion_answer P b o start stale t)
                (λ u i.
                  diff-ObjectIsCanonical P.objects L old (applied_inventory P b o start set) stale u
                    co cn d i)
                cn),
        );
  }

  reconcile_in-Leads :
      (r : KustomizationReconciler) (reader : P.StatusReader) (start : ℤ) (old : ResourceInventory)
      (dir : String)
      → old ≡ inventory_or_new s0.obj.status.inventory
      → Leads Unchanged (Accounted P k) (reconcile_in P B r reader o start old dir)
  unfolding reconcile_in
  reconcile_in-Leads r reader start old dir e =
      bind-Leads Unchanged Unchanged (Accounted P k) (fetch_stage P r o dir) _
        (Holds-Unchanged _ (fetch_stage-Holds P o r dir)) Unchanged-Accounted
        λ path _ _ _.
          bind-Leads Unchanged Unchanged (Accounted P k) (build_stage P B r reader o dir path) _
            (Holds-Unchanged _ (build_stage-Holds P o B r reader dir path)) Unchanged-Accounted
            λ b _ _ _.
              bind-Leads Unchanged Unchanged (Accounted P k) (apply_stage P r b o start) _
                (Holds-Unchanged _ (apply_stage-Holds P o r b start)) Unchanged-Accounted
                λ applied t _ q.
                  bind-Leads Unchanged (Accounted P k) (Accounted P k)
                    (garbage_stage P b o start old applied.1) _
                    (garbage_stage-Leads b start old applied.1 e
                      (apply_stage-Trips P trips o r b start t applied q))
                    (λ u a. a)
                    λ _ _ _ _.
                      bind-Leads (Accounted P k) (Accounted P k) (Accounted P k)
                        (health_stage P r b o start applied.0 applied.1) _
                        (Holds-Accounted P k _
                          (health_stage-Holds P o B r b start applied.0 applied.1))
                        (λ u a. a)
                        λ _ _ _ _. Holds-Accounted P k _ (success_stage-Holds P o b.checksum start)

  with_cleanup-Leads :
      (dir : String) (m : Act P.World (Unit {0}))
      → Leads Unchanged (Accounted P k) m
      → Leads Unchanged (Accounted P k) (with_cleanup P B dir m)
  with_cleanup-Leads dir m h = record {
    leads = λ t same.
        Accounted-held P k (m t).1 (with_cleanup P B dir m t).1 (held-with_cleanup P o B dir m t)
          (h.leads t same);
  }

  reconcile-Leads :
      (r : KustomizationReconciler) (reader : P.StatusReader)
      → Leads Unchanged (Accounted P k) (reconcile P B r reader o)
  unfolding reconcile
  reconcile-Leads r reader =
      bind-Leads Unchanged Unchanged (Accounted P k) (ask P.now) _
        (Holds-Unchanged _ (record { keeps = λ s. refl })) Unchanged-Accounted
        λ start _ _ _.
          bind-Leads Unchanged Unchanged (Accounted P k)
            (mark_unknown P ready "Progressing" "Reconciliation in progress") _
            (Holds-Unchanged _ (record { keeps = λ s. refl })) Unchanged-Accounted
            λ _ _ _ _.
              bind-Leads Unchanged Unchanged (Accounted P k)
                (report_progress P "Fetching manifests" o) _
                (Holds-Unchanged _ (report_progress-Holds P o _)) Unchanged-Accounted
                λ _ _ _ _.
                  bind-Leads Unchanged Unchanged (Accounted P k) the_obj _
                    (Holds-Unchanged _ (record { keeps = λ s. refl })) Unchanged-Accounted
                    λ obj t same q.
                      bind-Leads Unchanged Unchanged (Accounted P k)
                        (or_fail P "DirectoryCreationFailed"
                          (wrap_error "tmp dir error: " (mkdir_temp_abs P "kustomization-")))
                        _ (Holds-Unchanged _ (mkdir-Holds P o)) Unchanged-Accounted
                        λ dir _ _ _. with_cleanup-Leads dir _ (
                          reconcile_in-Leads r reader start (inventory_or_new obj.status.inventory)
                            dir (old_inventory t obj same q))

module _ (P : Platform) (B : BuildServices P.World P.StructMap) (L : IsLawful P.objects)
    (trips : (client : P.Client) (poller : P.Poller) (us : List Unstructured)
        (options : ApplyOptions) (w : P.World) (set : ChangeSet)
      → (P.apply_all_staged client poller us options w).0.0 ≡ some set
      → All (EntryRoundTrips P.objects) set.entries)
    (k : String) where
  -- With pruning on an identifier that is accounted for stays so, whether `reconcile` succeeds or
  -- fails.
  pub reconcile_accounts :
      (r : KustomizationReconciler) (reader : P.StatusReader) (o : Origin) (s : State P.World)
      → s.obj.spec.prune ≡ true
      → Accounted P k s
      → Accounted P k (reconcile P B r reader o s).1
  reconcile_accounts r reader o s on a =
      (reconcile-Leads P o B L trips k s on a r reader).leads s refl
