-- ===== src/Examples/Runs.antt =====
-- The theorems on whole runs of `Reconcile` at concrete values.
use kustomize_controller.Base.{Bool, String, ◌≡◌, refl, false, some, is_some, List, All, inl}
use kustomize_controller.Base.Int.{pos}
use kustomize_controller.Errors.{Error, ok, err, is_terminal}
use kustomize_controller.Api.References.{NamespacedName}
use kustomize_controller.Api.Defaults.{get_retry_interval}
use kustomize_controller.Inventory.Packages.{Unstructured, ChangeSet}
use kustomize_controller.Inventory.Operations.{diff}
use kustomize_controller.Inventory.Listing.{EntryRoundTrips}
use kustomize_controller.Platform.Values.{ApplyOptions}
use kustomize_controller.Run.{State}
use kustomize_controller.Controller.Requeuing.Branches.{GoesOn}
use kustomize_controller.Controller.Requeuing.{reconcile_body-GoesOn}
use kustomize_controller.Controller.Retracking.{deletion_answer, applied_inventory}
use kustomize_controller.Controller.Tracking.Accounts.{Accounted}
use kustomize_controller.Controller.Tracking.Requests.{none_yet, run, runs_account}
use kustomize_controller.Controller.Tracking.Sets.{
  tracked_set, settled_set, collect, garbage_stage_refines,
}
use kustomize_controller.Controller.Reconciling.Stages.{garbage_stage}
use kustomize_controller.Controller.Dispatch.{reconcile_body, reconcile_object}
use kustomize_controller.Samples.Packages.{sample_packages, sample_packages-IsLawful, config_map}
use kustomize_controller.Samples.Conditions.{sample_conditions-IsLawful}
use kustomize_controller.Samples.Objects.{
  sample_reconciler, sample_kustomization, old_inventory, new_set, sample_origin,
}
use kustomize_controller.Samples.Platforms.{sample_platform, sample_build, sample_built, start_of}

sample_retried :
    (direct : Bool) (kind : String) (name : NamespacedName) (w : sample_platform.World) (e : Error)
    → (sample_platform.get_source_object direct kind name w).0 ≡ err e
    → is_terminal e ≡ false
sample_retried direct kind name w e q = cc

sample_trips :
    (client : sample_platform.Client) (poller : sample_platform.Poller) (us : List Unstructured)
    (options : ApplyOptions) (w : sample_platform.World) (set : ChangeSet)
    → (sample_platform.apply_all_staged client poller us options w).0.0 ≡ some set
    → All (EntryRoundTrips sample_packages) set.entries
sample_trips client poller us options w set q =
    let same : set ≡ new_set = cc in rw same (refl, (refl, tt))

reconcile_body-GoesOn_example :
    GoesOn sample_platform
      (reconcile_body sample_platform sample_build sample_reconciler
        (start_of sample_kustomization)).1
      (reconcile_body sample_platform sample_build sample_reconciler
        (start_of sample_kustomization)).2
unfolding get_retry_interval
reconcile_body-GoesOn_example =
    reconcile_body-GoesOn sample_platform sample_build sample_conditions-IsLawful sample_reconciler
      (start_of sample_kustomization) refl (λ d w h. h) sample_retried refl refl refl refl

-- The state after a first run.
abbrev first_run : State sample_platform.World
first_run =
    (reconcile_object sample_platform sample_build sample_reconciler (pos 0)
      (start_of sample_kustomization)).2

-- The object has been read again since, at a later time.
abbrev second_start : State sample_platform.World
second_start = record {
  obj = record sample_kustomization {
    status = record sample_kustomization.status { inventory = first_run.obj.status.inventory };
  };
  world = 20;
  trace = first_run.trace;
}

runs_account_example :
    Accounted sample_platform "cache"
      (reconcile_object sample_platform sample_build sample_reconciler (pos 20) second_start).2
runs_account_example =
    runs_account sample_platform sample_build sample_packages-IsLawful sample_trips "cache"
      {s0 = start_of sample_kustomization}
      (run
        (run none_yet sample_reconciler (pos 0) (start_of sample_kustomization) refl refl refl refl)
        sample_reconciler (pos 20) second_start refl refl refl refl)
      (inl refl, ((config_map "web", refl, refl), ((config_map "cache", refl, refl), tt)))

garbage_stage_refines_example :
    (stale : List Unstructured) × (diff sample_packages old_inventory
        (applied_inventory sample_platform sample_built sample_origin (pos 0) new_set)
      ≡ ok stale)
    × (tracked_set
          (garbage_stage sample_platform sample_built sample_origin
            (pos 0)
            old_inventory
            new_set
            (start_of sample_kustomization)).1.obj.status.inventory
        ≡ collect
            (tracked_set (some old_inventory))
            (tracked_set
              (some (applied_inventory sample_platform sample_built sample_origin (pos 0) new_set)))
            (is_some
              (deletion_answer sample_platform sample_built sample_origin
                (pos 0)
                stale
                (start_of sample_kustomization)).1)
            (settled_set sample_packages
              (deletion_answer sample_platform sample_built sample_origin
                (pos 0)
                stale
                (start_of sample_kustomization)).0))
garbage_stage_refines_example =
    garbage_stage_refines sample_platform sample_built sample_origin (pos 0) old_inventory new_set
      (start_of sample_kustomization) sample_packages-IsLawful
      ((config_map "web", refl, refl), ((config_map "cache", refl, refl), tt)) (refl, (refl, tt))
      refl
