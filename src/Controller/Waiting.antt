-- ===== src/Controller/Waiting.antt =====
-- Which objects `checkHealth` of internal/controller/kustomization_controller.go waits for.
use kustomize_controller.Base.{
  String, ◌≡◌, refl, Bool, false, Option, List, [], ◌∷◌, any, arith, is_empty, ◌&&◌, not, In, ◌↔◌,
}
use kustomize_controller.Base.Int.{ℤ}
use kustomize_controller.Api.Object.{Kustomization}
use kustomize_controller.Inventory.Packages.{ObjMetadata, ChangeSet}
use kustomize_controller.Platform.Values.{Source}
use kustomize_controller.Platform.Services.{Platform}
use kustomize_controller.Run.{State, ask}
use kustomize_controller.Run.Frames.{Keeps, if-Keeps, bind-Keeps}
use kustomize_controller.Platform.Conditions.{healthy}
use kustomize_controller.Controller.Status.{delete_condition}
use kustomize_controller.Controller.Config.{KustomizationReconciler}
use kustomize_controller.Controller.Health.{
  health_targets, is_self, to_check, wait_for_health, check_health,
}
use kustomize_controller.Controller.Traces.{waits_for_self}

any-is_self-to_check :
    (k : Kustomization) (os : List ObjMetadata) → any (is_self k) (to_check k os) ≡ false
unfolding to_check
any-is_self-to_check k [] = refl
any-is_self-to_check k (o ∷ os) = ground (arith, any-is_self-to_check k os)

-- An object is checked exactly when it is one of the objects given and not the Kustomization itself.
pub In-to_check :
    (k : Kustomization) (os : List ObjMetadata) (m : ObjMetadata)
    → In m (to_check k os) ↔ (In m os × (is_self k m ≡ false))
unfolding to_check
In-to_check k [] m = ground arith
In-to_check k (o ∷ os) m = ground (arith, In-to_check k os m)

module _ (P : Platform) (r : KustomizationReconciler) (k : Kustomization)
    (client : P.Client × P.Poller) where
  health_targets-others :
      (set : ChangeSet) (s : State P.World)
      → any (waits_for_self k) (health_targets P k set s).1.trace ≡ any (waits_for_self k) s.trace
  unfolding health_targets
  health_targets-others set s = ground arith

  wait_for_health-others :
      (src : Option Source) (revision origin : String) (is_new_revision drifted : Bool)
      (jobs objects : List ObjMetadata) (start : ℤ) (s : State P.World)
      → any
          (waits_for_self k)
          (wait_for_health P r k client src revision origin is_new_revision drifted jobs objects
            start s).1.trace
        ≡ any (waits_for_self k) s.trace
  unfolding wait_for_health
  wait_for_health-others src revision origin is_new_revision drifted jobs objects start s =
      ground (arith, any-is_self-to_check k objects)

  abbrev waits : State P.World → Bool
  waits s = any (waits_for_self k) s.trace

  check_health-Keeps :
      (src : Option Source) (revision origin : String) (is_new_revision drifted : Bool)
      (set : ChangeSet) (jobs : List ObjMetadata)
      → Keeps waits (check_health P r k client src revision origin is_new_revision drifted set jobs)
  unfolding check_health
  check_health-Keeps src revision origin is_new_revision drifted set jobs =
      if-Keeps waits (is_empty k.spec.health_checks && not k.spec.wait) (delete_condition P healthy)
        _ (record { keeps = λ s. refl })
        (bind-Keeps waits (ask P.now) _ (record { keeps = λ s. refl })
          λ start.
            bind-Keeps waits (health_targets P k set) _
              (record { keeps = health_targets-others set })
              λ objects.
                if-Keeps waits (is_empty objects) (delete_condition P healthy)
                  (wait_for_health P r k client src revision origin is_new_revision drifted jobs
                    objects start)
                  (record { keeps = λ s. refl })
                  (record {
                    keeps =
                        wait_for_health-others src revision origin is_new_revision drifted jobs
                          objects start;
                  }))

  -- `checkHealth` makes no difference to whether the Kustomization itself has been waited for,
  -- whatever the change set and the references of the spec hold.
  pub check_health_others :
      (src : Option Source) (revision origin : String) (is_new_revision drifted : Bool)
      (set : ChangeSet) (jobs : List ObjMetadata) (s : State P.World)
      → any
          (waits_for_self k)
          (check_health P r k client src revision origin is_new_revision drifted set jobs s).1.trace
        ≡ any (waits_for_self k) s.trace
  check_health_others src revision origin is_new_revision drifted set jobs =
      (check_health-Keeps src revision origin is_new_revision drifted set jobs).keeps
