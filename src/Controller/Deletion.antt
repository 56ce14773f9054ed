-- ===== src/Controller/Deletion.antt =====
-- What `finalize` of internal/controller/kustomization_controller.go deletes, and when it gives up
-- the finalizer.
use kustomize_controller.Base.{
  ◌≡◌, ◌⊎◌, ◌↔◌, true, false, arith, eq_iff, String, [], ◌∷◌, List, refl, inl, inr, ◌∙◌, Option,
  none, some, Bool-cases, is_empty,
}
use kustomize_controller.Errors.{Error, ok, err, Result-cases}
use kustomize_controller.Api.Actions.{all_metrics}
use kustomize_controller.Api.Object.{
  Kustomization, kustomization_finalizer, mirror_prune, delete_policy, wait_for_termination,
}
use kustomize_controller.Api.Defaults.{get_deletion_policy}
use kustomize_controller.Platform.Services.{Platform}
use kustomize_controller.Run.{State, Act, pure, modify, when, ◌>>◌}
use kustomize_controller.Platform.Values.{CtrlResult, Effect}
use kustomize_controller.Controller.Config.{KustomizationReconciler}
use kustomize_controller.Controller.Finalizing.{
  has_no_inventory, finalizer_should_delete_resources, no_requeue, cleanup_caches, finalize,
  delete_managed, after_delete, await_termination, inventory_objects,
}
use kustomize_controller.Controller.Garbage.{delete_options}
use kustomize_controller.Inventory.Packages.{ChangeSet, Unstructured}
use kustomize_controller.Controller.Traces.{deletions}

-- What the deletion of the managed objects takes: no suspension, an inventory, and a policy for it.
abbrev pub MayDelete : Kustomization → Type 0
MayDelete k =
    (k.spec.suspend ≡ false)
    × (has_no_inventory k.status.inventory ≡ false)
    × (((get_deletion_policy k ≡ mirror_prune) × (k.spec.prune ≡ true))
        ⊎ ((get_deletion_policy k ≡ delete_policy)
            ⊎ (get_deletion_policy k ≡ wait_for_termination)))

-- `finalizerShouldDeleteResources` holds exactly when the Kustomization is not suspended, has an
-- inventory with entries, and its policy is to delete, to wait for the termination, or to mirror
-- `spec.prune` while that is set.
pub finalizer_should_delete_resources_iff :
    (k : Kustomization)
    → (finalizer_should_delete_resources k ≡ true) ↔ (
        (k.spec.suspend ≡ false)
        × (has_no_inventory k.status.inventory ≡ false)
        × (((get_deletion_policy k ≡ mirror_prune) × (k.spec.prune ≡ true))
            ⊎ ((get_deletion_policy k ≡ delete_policy)
                ⊎ (get_deletion_policy k ≡ wait_for_termination))))
unfolding finalizer_should_delete_resources
finalizer_should_delete_resources_iff k = ground (
  arith,
  eq_iff (get_deletion_policy k) mirror_prune,
  eq_iff (get_deletion_policy k) delete_policy,
  eq_iff (get_deletion_policy k) wait_for_termination,
  eq_iff mirror_prune delete_policy,
  eq_iff mirror_prune wait_for_termination,
)

module _ (P : Platform) where
  cleanup_caches-frame :
      (k : Kustomization) (ops : List String) (s : State P.World)
      → ((cleanup_caches P k ops s).0 ≡ ok tt)
        × ((cleanup_caches P k ops s).1.obj ≡ s.obj)
        × (deletions (cleanup_caches P k ops s).1.trace ≡ deletions s.trace)
  unfolding cleanup_caches deletions
  cleanup_caches-frame k [] s = (refl, refl, refl)
  cleanup_caches-frame k (op ∷ ops) s = cleanup_caches-frame k ops _

  delete_managed-frame :
      (r : KustomizationReconciler) (k : Kustomization) (s : State P.World)
      → (delete_managed P r k s).1.obj ≡ s.obj
  unfolding delete_managed
  delete_managed-frame r k s = ground arith

  abbrev without_finalizer : Kustomization → Kustomization
  without_finalizer k = record k {
    finalizers = P.remove_finalizer k.finalizers kustomization_finalizer;
  }

  -- What `finalize` does after the deletion.
  abbrev give_up : Kustomization → Act P.World CtrlResult
  give_up k = do modify without_finalizer; cleanup_caches P k all_metrics; pure no_requeue

  give_up_lem :
      (k : Kustomization) (m : Act P.World (Unit {0})) (s : State P.World)
      → (m s).1.obj ≡ s.obj
      → ((((m >> give_up k) s).0 ≡ ok no_requeue)
          × (((m >> give_up k) s).1.obj ≡ without_finalizer s.obj))
        ⊎ ((e : Error) × (((m >> give_up k) s).0 ≡ err e) × (((m >> give_up k) s).1.obj ≡ s.obj))
  give_up_lem k m s frame = elim (Result-cases (m s).0) [
    | inl (tt, e) ↦
        let (succeeds, kept, _) =
          cleanup_caches-frame k all_metrics (modify without_finalizer (m s).1).1 in
        inl (rw (e, succeeds) refl, rw (e, succeeds, kept, frame) refl)
    | inr (e, bad) ↦ inr (e, rw bad refl, rw bad frame)
  ]

  -- `finalize` gives up the finalizer, and leaves the rest of the object as it is, exactly when it
  -- succeeds; when it fails the object stays as it was.
  pub finalize_gives_up :
      (r : KustomizationReconciler) (s : State P.World)
      → (((finalize P r s).0 ≡ ok no_requeue) × ((finalize P r s).1.obj ≡ without_finalizer s.obj))
        ⊎ ((e : Error) × ((finalize P r s).0 ≡ err e) × ((finalize P r s).1.obj ≡ s.obj))
  unfolding finalize
  finalize_gives_up r s =
      give_up_lem s.obj (when (finalizer_should_delete_resources s.obj) (delete_managed P r s.obj))
        s (ground (arith, delete_managed-frame r s.obj s))

  give_up-deletions :
      (k : Kustomization) (m : Act P.World (Unit {0})) (s : State P.World)
      → deletions ((m >> give_up k) s).1.trace ≡ deletions (m s).1.trace
  give_up-deletions k m s = elim (Result-cases (m s).0) [
    | inl (tt, e) ↦
        let (succeeds, _, same) =
          cleanup_caches-frame k all_metrics (modify without_finalizer (m s).1).1 in
        rw (e, succeeds) same
    | inr (e, bad) ↦ rw bad refl
  ]

  await_termination-deletions :
      (k : Kustomization) (client : P.Client) (set : ChangeSet) (s : State P.World)
      → deletions (await_termination P k client set s).1.trace ≡ deletions s.trace
  unfolding await_termination deletions
  await_termination-deletions k client set s = ground arith

  after_delete-deletions :
      (k : Kustomization) (client : P.Client) (answer : Option ChangeSet × Option Error)
      (s : State P.World)
      → deletions (after_delete P k client answer s).1.trace ≡ deletions s.trace
  unfolding after_delete deletions
  after_delete-deletions k client (set, some e) s = refl
  after_delete-deletions k client (none, none) s = refl
  after_delete-deletions k client (some set, none) s = elim (Bool-cases (is_empty set.entries)) [
    | inl nothing ↦ rw nothing refl
    | inr changes ↦ rw changes (ground (arith, await_termination-deletions k client set))
  ]

  -- `DeleteAll` is called once with these objects, or not at all.
  abbrev pub DeletesAtMost :
      Kustomization → List Unstructured → State P.World → State P.World → Type 0
  DeletesAtMost k objects s t =
      (deletions t.trace ≡ deletions s.trace)
      ⊎ ((set : Option ChangeSet) × (failure : Option Error) × (deletions t.trace
            ≡ Effect.deleted objects (delete_options P k) set failure ∷ deletions s.trace))

  delete_managed-DeletesAtMost :
      (r : KustomizationReconciler) (k : Kustomization) (s : State P.World)
      → DeletesAtMost k (inventory_objects P k.status.inventory) s (delete_managed P r k s).1
  unfolding delete_managed deletions
  delete_managed-DeletesAtMost r k s = ground (
    arith,
    λ (c : P.Client) (a : Option ChangeSet × Option Error) (t : State P.World).
        after_delete-deletions k c a t,
  )

  -- `finalize` makes no call of `DeleteAll`; or the Kustomization is not suspended, has an inventory
  -- with entries and a policy to delete, and there is one call, with the objects that its inventory
  -- lists.
  pub finalize_deletes :
      (r : KustomizationReconciler) (s : State P.World)
      → (deletions (finalize P r s).1.trace ≡ deletions s.trace)
        ⊎ (MayDelete s.obj
            × ((set : Option ChangeSet) × (failure : Option Error) × (deletions
                    (finalize P r s).1.trace
                  ≡ Effect.deleted
                      (inventory_objects P s.obj.status.inventory)
                      (delete_options P s.obj)
                      set
                      failure
                    ∷ deletions s.trace)))
  unfolding finalize
  finalize_deletes r s =
      let act = when (finalizer_should_delete_resources s.obj) (delete_managed P r s.obj) in
      elim (Bool-cases (finalizer_should_delete_resources s.obj)) [
        | inr kept ↦ inl (give_up-deletions s.obj act s ∙ rw kept refl)
        | inl may ↦ elim (delete_managed-DeletesAtMost r s.obj s) [
          | inl none_made ↦ inl (give_up-deletions s.obj act s ∙ rw may none_made)
          | inr (set, failure, made) ↦ inr (
            (finalizer_should_delete_resources_iff s.obj).0 may,
            (set, failure, give_up-deletions s.obj act s ∙ rw may made),
          )
        ]
      ]
