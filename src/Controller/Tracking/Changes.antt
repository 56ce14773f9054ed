-- ===== src/Controller/Tracking/Changes.antt =====
-- What `garbage_stage` leaves in the trace and in the inventory, and the change sets of `apply`, in
-- internal/controller/kustomization_controller.go.
use kustomize_controller.Base.{
  Bool, ◌==◌, Option-cases, ◌||◌, if◌then◌else◌, String, ◌≡◌, refl, ap, true, false, not, ◌&&◌,
  Bool-cases, Option, none, some, is_some, List, [], ◌∷◌, map, arith, contains, All, any, is_empty,
  inl, inr,
}
use kustomize_controller.Base.Int.{ℤ}
use kustomize_controller.Errors.{Error, ok, ok_inv, Result-cases}
use kustomize_controller.Api.Inventory.{ResourceInventory}
use kustomize_controller.Api.Object.{Kustomization}
use kustomize_controller.Inventory.Packages.{
  ObjectPackages, Unstructured, ChangeSet, ChangeSetEntry,
}
use kustomize_controller.Inventory.Operations.{object_id, diff}
use kustomize_controller.Inventory.Listing.{EntryRoundTrips}
use kustomize_controller.Platform.Values.{Effect, Source, ApplyOptions}
use kustomize_controller.Platform.Services.{Platform}
use kustomize_controller.Run.{Act, pure, when, ◌>>◌, State, ◌>>=◌, continue-ok}
use kustomize_controller.Controller.Config.{KustomizationReconciler}
use kustomize_controller.Api.Actions.{Action}
use kustomize_controller.Base.Text.{trim_newline}
use kustomize_controller.Controller.Status.{event, info_severity}
use kustomize_controller.Controller.Garbage.{
  report_pruned, delete_objects, settled_ids, delete_options, prune,
}
use kustomize_controller.Controller.Applying.Options.{apply_options}
use kustomize_controller.Controller.Applying.{
  change_log, check_encrypted, with_common_metadata, apply, apply_objects, entries_of,
}
use kustomize_controller.Controller.Reconciling.Steps.{attempt_failed, Built, Origin}
use kustomize_controller.Controller.Reconciling.Stages.{retrack, garbage_stage, apply_stage}
use kustomize_controller.Controller.Retracking.{deletion_answer, applied_inventory}
use kustomize_controller.Controller.Traces.{deletions, is_deletion}

module _ (P : ObjectPackages) where
  -- A call that deletes an object with the identifier, and that returns no error or reports the
  -- object as deleted or skipped.
  abbrev pub releases : String → Effect → Bool
  releases k e = elim e [
    | Effect.deleted objects options set failure ↦
        contains (map (object_id P) objects) k
        && (not (is_some failure) || contains (settled_ids P set) k)
    | _ ↦ false
  ]

  releases-is_deletion : (k : String) (e : Effect) → releases k e ≡ (is_deletion e && releases k e)
  releases-is_deletion k e = ground arith

  -- Only deletions release.
  pub any-releases-deletions :
      (k : String) (es : List Effect) → any (releases k) (deletions es) ≡ any (releases k) es
  unfolding deletions
  any-releases-deletions k [] = refl
  any-releases-deletions k (e ∷ es) = elim (Bool-cases (is_deletion e)) [
    | inl d ↦ rw d (ap (λ b. releases k e || b) (any-releases-deletions k es))
    | inr d ↦ ground (arith, releases-is_deletion k e, any-releases-deletions k es)
  ]

module _ (P : Platform) (b : Built P.Client P.Poller) (o : Origin) (start : ℤ) where
  report-deletions :
      (stale : List Unstructured) (answer : Option ChangeSet × Option Error) (t : State P.World)
      → deletions
          ((report_pruned P (some o.source) o.revision o.origin_revision stale answer
              >>= retrack P b.checksum start o)
            t).1.trace
        ≡ deletions t.trace
  unfolding report_pruned retrack attempt_failed deletions
  report-deletions stale (set, some e) t = refl
  report-deletions stale (none, none) t = refl
  report-deletions stale (some set, none) t = elim (Bool-cases (is_empty set.entries)) [
    | inl nothing ↦ rw nothing refl
    | inr changes ↦ rw changes refl
  ]

  prune-deletions :
      (stale : List Unstructured) (t : State P.World)
      → t.obj.spec.prune ≡ true
      → deletions
          ((prune P t.obj b.client.0 (some o.source) o.revision o.origin_revision stale
              >>= retrack P b.checksum start o)
            t).1.trace
        ≡ Effect.deleted stale
            (delete_options P t.obj)
            (deletion_answer P b o start stale t).0
            (deletion_answer P b o start stale t).1
          ∷ deletions t.trace
  unfolding prune delete_objects deletions
  prune-deletions stale t on =
      rw on (report-deletions stale (deletion_answer P b o start stale t) _)

  -- With pruning on, the stage adds the deletion of the stale objects to those of the trace.
  pub garbage_stage-deletions :
      (old : ResourceInventory) (set : ChangeSet) (s : State P.World) (stale : List Unstructured)
      → diff P.objects old (applied_inventory P b o start set) ≡ ok stale
      → s.obj.spec.prune ≡ true
      → deletions (garbage_stage P b o start old set s).1.trace
        ≡ Effect.deleted stale
            (delete_options P s.obj)
            (deletion_answer P b o start stale s).0
            (deletion_answer P b o start stale s).1
          ∷ deletions s.trace
  unfolding garbage_stage
  garbage_stage-deletions old set s stale d on = rw d (prune-deletions stale _ on)

module _ (P : Platform)
    (trips : (client : P.Client) (poller : P.Poller) (us : List Unstructured)
        (options : ApplyOptions) (w : P.World) (set : ChangeSet)
      → (P.apply_all_staged client poller us options w).0.0 ≡ some set
      → All (EntryRoundTrips P.objects) set.entries) where
  abbrev Trips : List ChangeSetEntry → Type 0
  Trips es = All (EntryRoundTrips P.objects) es

  entries-Trips :
      (answer : Option ChangeSet)
      → ((set : ChangeSet) → answer ≡ some set → Trips set.entries)
      → Trips (entries_of P answer)
  entries-Trips none h = tt
  entries-Trips (some set) h = h set refl

  apply_objects-Trips :
      (r : KustomizationReconciler) (k : Kustomization) (client : P.Client × P.Poller)
      (objects : List Unstructured) (s : State P.World) (es : List ChangeSetEntry)
      → (apply_objects P r k client objects s).0 ≡ ok es
      → Trips es
  unfolding apply_objects
  apply_objects-Trips r k client objects s es q =
      let answer = (P.apply_all_staged client.0 client.1 objects (apply_options r k) s.world).0 in
      elim (Option-cases answer.1) [
        | inl fine ↦
            let same : es ≡ entries_of P answer.0 = ground arith in
            rw same
              (entries-Trips answer.0 (trips client.0 client.1 objects (apply_options r k) s.world))
        | inr (f, failed) ↦ absurd (ground arith)
      ]

  objects-Trips :
      (r : KustomizationReconciler) (k : Kustomization) (client : P.Client × P.Poller)
      (objects : List Unstructured) (s : State P.World) (es : List ChangeSetEntry)
      → ((if is_empty objects then pure [] else apply_objects P r k client objects) s).0 ≡ ok es
      → Trips es
  objects-Trips r k client [] s es q = rw (ok_inv q) tt
  objects-Trips r k client (u ∷ us) s es q = apply_objects-Trips r k client (u ∷ us) s es q

  -- The end of `apply`: the event, and the answer.
  abbrev report :
      Option Source → String → String → List ChangeSetEntry → Act P.World (Bool × ChangeSet)
  report src revision origin entries = do
    let apply_log = trim_newline (change_log P entries)
    let is_changed = not (apply_log == "")
    when is_changed (event P src revision origin info_severity Action.apply apply_log [])
    pure (is_changed, record { entries = entries })

  report-entries :
      (src : Option Source) (revision origin : String) (entries : List ChangeSetEntry)
      (t : State P.World) (changed : Bool) (set : ChangeSet)
      → (report src revision origin entries t).0 ≡ ok (changed, set)
      → set.entries ≡ entries
  unfolding event
  report-entries src revision origin entries t changed set q =
      elim (Bool-cases (trim_newline (change_log P entries) == "")) [
        | inl quiet ↦ ground arith
        | inr loud ↦ ground arith
      ]

  -- The change set that `apply` answers holds entries of `ApplyAllStaged` only.
  pub apply-Trips :
      (r : KustomizationReconciler) (k : Kustomization) (client : P.Client × P.Poller)
      (src : Option Source) (revision origin : String) (objects : List Unstructured)
      (s : State P.World) (changed : Bool) (set : ChangeSet)
      → (apply P r k client src revision origin objects s).0 ≡ ok (changed, set)
      → Trips set.entries
  unfolding apply
  apply-Trips r k client src revision origin objects s changed set q =
      let (n, _, q1) = continue-ok (P.normalize objects) _ s q in
      let labelled = with_common_metadata P k.spec.common_metadata n in
      let (_, _, q2) = continue-ok (check_encrypted P labelled) _ s q1 in
      let m = if is_empty labelled then pure [] else apply_objects P r k client labelled in
      let (es, e, q3) = continue-ok (m s).0 (report src revision origin) (m s).1 q2 in
      rw (report-entries src revision origin es (m s).1 changed set q3)
        (objects-Trips r k client labelled s es e)

  -- The same for the stage.
  pub apply_stage-Trips :
      (o : Origin) (r : KustomizationReconciler) (b : Built P.Client P.Poller) (start : ℤ)
      (s : State P.World) (applied : Bool × ChangeSet)
      → (apply_stage P r b o start s).0 ≡ ok applied
      → Trips applied.1.entries
  unfolding apply_stage attempt_failed
  apply_stage-Trips o r b start s applied q =
      elim (Result-cases
        (apply P r s.obj b.client (some o.source) o.revision o.origin_revision b.objects s).0) [
          | inl (a, good) ↦
              apply-Trips r s.obj b.client (some o.source) o.revision o.origin_revision b.objects s
                applied.0 applied.1 (ground arith)
          | inr (e, bad) ↦ absurd (ground arith)
        ]
