-- ===== src/Controller/Framing.antt =====
-- What the stages of `reconcile` of internal/controller/kustomization_controller.go leave alone:
-- between `apply` and the health checks only `prune` deletes objects and changes the inventory.
pub mod Parts
pub mod Guards
use kustomize_controller.Base.{
  String, ◌≡◌, refl, Bool, Option, List, [], ◌∷◌, any, arith, ◌<>◌, ◌||◌, ◌==◌, is_some, not, ◌++◌,
  if◌then◌else◌,
}
use kustomize_controller.Base.Int.{ℤ}
use kustomize_controller.Errors.{Error}
use kustomize_controller.Api.Object.{Kustomization}
use kustomize_controller.Api.Inventory.{ResourceInventory}
use kustomize_controller.Inventory.Packages.{ChangeSet, ObjMetadata}
use kustomize_controller.Platform.Values.{Source}
use kustomize_controller.Platform.Conditions.{ready}
use kustomize_controller.Platform.Services.{Platform}
use kustomize_controller.Run.{
  Act, pure, State, ask, call, run, lift, gets, modify_status, the_obj, wrap_error,
}
use kustomize_controller.Run.Frames.{Keeps, bind-Keeps, on_error-Keeps, if-Keeps}
use kustomize_controller.Controller.Config.{KustomizationReconciler}
use kustomize_controller.Controller.Status.{mark_unknown}
use kustomize_controller.Controller.Clients.{reconcile_client}
use kustomize_controller.Controller.Garbage.{prune}
use kustomize_controller.Controller.Applying.{apply}
use kustomize_controller.Controller.Health.{check_health, wait_for_health, health_targets}
use kustomize_controller.Controller.Building.{
  collect, with_decryptor, decryptor_options, BuildServices, decrypt_step, substitute_step,
  build_each, build_with, build,
}
use kustomize_controller.Controller.Encryption.{apply_protects}
use kustomize_controller.Controller.Traces.{leaks_secret, deletions}
use kustomize_controller.Controller.Reconciling.Steps.{
  Built, Origin, fetch_stage, report_progress, or_fail, mkdir_temp_abs, inventory_or_new,
  attempt_failed, record_attempt, fail_as,
}
use kustomize_controller.Controller.Reconciling.Stages.{
  retrack, garbage_stage, health_failed, health_stage, success_stage, apply_stage, build_stage,
  reconcile_in, with_cleanup, reconcile,
}
use Parts.{
  held, Holds, report_progress-Holds, or_fail-Holds, fetch_stage-Holds, mkdir_temp_abs-Holds,
  reconcile_client-Holds, wrap_error-Holds, apply_stage-Holds, check_health-Holds,
  success_stage-Holds, attempt_failed-Holds,
}

module _ (P : Platform) (o : Origin) (B : BuildServices P.World P.StructMap) where
  build_each-Holds :
      (r : KustomizationReconciler) (k : Kustomization) (u : P.StructMap) (dec : B.Decryptor)
      (resources : List B.Resource) (m : B.ResMap) (vars : List (String × String))
      → Holds P (build_each P B r k u dec resources m vars)
  unfolding build_each
  build_each-Holds r k u dec [] m vars = record { keeps = λ s. refl }
  build_each-Holds r k u dec (res ∷ rest) m vars =
      if-Keeps (held P)
        (B.get_name res == "" || (B.get_kind res == "" || B.get_api_version res == "")) _ _
        (record { keeps = λ s. refl })
        (bind-Keeps (held P) (decrypt_step P B k dec m res) _ (record { keeps = λ s. ground arith })
          λ d.
            bind-Keeps (held P) (substitute_step P B r k u d.0 d.1) _
              (record { keeps = λ s. ground arith })
              λ answer. build_each-Holds r k u dec rest answer.0 (collect P B vars answer.1))

  build_with-Holds :
      (r : KustomizationReconciler) (k : Kustomization) (u : P.StructMap) (work dir : String)
      (fresh : B.Decryptor)
      → Holds P (build_with P B r k u work dir fresh)
  unfolding build_with
  build_with-Holds r k u work dir fresh =
      bind-Keeps (held P) (call (B.import_keys fresh)) _ (record { keeps = λ s. refl })
        λ keyed.
          bind-Keeps (held P) (call (B.set_auth_options keyed)) _ (record { keeps = λ s. refl })
            λ dec.
              bind-Keeps (held P)
                (wrap_error "error decrypting sources: " (run (B.decrypt_sources dec dir))) _
                (wrap_error-Holds P o _ _ (record { keeps = λ s. refl }))
                λ _.
                  bind-Keeps (held P)
                    (wrap_error "kustomize build failed: "
                      (call (B.secure_build work dir (not r.no_remote_bases))))
                    _ (wrap_error-Holds P o _ _ (record { keeps = λ s. refl }))
                    λ m.
                      bind-Keeps (held P) (build_each P B r k u dec (B.resources m) m []) _
                        (build_each-Holds r k u dec (B.resources m) m [])
                        λ built.
                          bind-Keeps (held P)
                            (wrap_error "kustomize build failed: " (lift (B.as_yaml built.0))) _
                            (wrap_error-Holds P o _ _ (record { keeps = λ s. refl }))
                            λ yaml. record { keeps = λ s. refl }

  with_decryptor-Holds :
      (dec : B.Decryptor) (m : Act P.World (String × List (String × String)))
      → Holds P m
      → Holds P (with_decryptor P B dec m)
  unfolding with_decryptor
  with_decryptor-Holds dec m h = record { keeps = h.keeps }

  build-Holds :
      (r : KustomizationReconciler) (k : Kustomization) (u : P.StructMap) (work dir : String)
      → Holds P (build P B r k u work dir)
  unfolding build
  build-Holds r k u work dir =
      bind-Keeps (held P) (gets (λ s. P.getenv "RUNTIME_NAMESPACE" s.world)) _
        (record { keeps = λ s. refl })
        λ ns.
          bind-Keeps (held P) (call (B.new_decryptor k (decryptor_options P B r work ns))) _
            (record { keeps = λ s. refl })
            λ dec. with_decryptor-Holds dec _ (build_with-Holds r k u work dir dec)

  pub build_stage-Holds :
      (r : KustomizationReconciler) (reader : P.StatusReader) (tmp dir : String)
      → Holds P (build_stage P B r reader o tmp dir)
  unfolding build_stage
  build_stage-Holds r reader tmp dir =
      bind-Keeps (held P) (modify_status (λ t. record t { last_attempted_revision = o.revision })) _
        (record { keeps = λ s. refl })
        λ _.
          bind-Keeps (held P) (report_progress P "Building manifests" o) _
            (report_progress-Holds P o _)
            λ _.
              bind-Keeps (held P) the_obj _ (record { keeps = λ s. refl })
                λ k.
                  bind-Keeps (held P)
                    (wrap_error "failed to build kube client: "
                      (or_fail P "ReconciliationFailed" (reconcile_client P r k reader)))
                    _
                    (wrap_error-Holds P o _ _
                      (or_fail-Holds P o _ _ (reconcile_client-Holds P o r k reader)))
                    λ client.
                      bind-Keeps (held P) (or_fail P "BuildFailed" (lift (P.to_unstructured k))) _
                        (or_fail-Holds P o _ _ (record { keeps = λ s. refl }))
                        λ u.
                          bind-Keeps (held P)
                            (or_fail P "BuildFailed" (run (P.write_kustomization u tmp dir))) _
                            (or_fail-Holds P o _ _ (record { keeps = λ s. refl }))
                            λ _.
                              bind-Keeps (held P)
                                (or_fail P "BuildFailed" (build P B r k u tmp dir)) _
                                (or_fail-Holds P o _ _ (build-Holds r k u tmp dir))
                                λ built.
                                  bind-Keeps (held P)
                                    (or_fail P "BuildFailed" (lift (P.read_objects built.0))) _
                                    (or_fail-Holds P o _ _ (record { keeps = λ s. refl }))
                                    λ objects.
                                      bind-Keeps (held P) (report_progress P "Detecting drift" o)
                                        (λ _. pure (record {
                                          client = client;
                                          checksum = P.digest_of built.0;
                                          objects = P.set_owner_labels objects k.name k.namespace;
                                          secret_vars = built.1;
                                        }))
                                        (report_progress-Holds P o _)
                                        λ _. record { keeps = λ s. refl }

  health_failed-Holds :
      (checksum : String) (start : ℤ) (e : Error) → Holds P (health_failed P checksum start o e)
  unfolding health_failed attempt_failed
  health_failed-Holds checksum start e = record { keeps = λ s. ground arith }

  pub health_stage-Holds :
      (r : KustomizationReconciler) (b : Built P.Client P.Poller) (start : ℤ) (drifted : Bool)
      (set : ChangeSet)
      → Holds P (health_stage P r b o start drifted set)
  unfolding health_stage
  health_stage-Holds r b start drifted set =
      bind-Keeps (held P) the_obj _ (record { keeps = λ s. refl })
        λ k.
          on_error-Keeps (held P) _ _ (check_health-Holds P o r k b _ drifted set _ _)
            (health_failed-Holds b.checksum start)

  -- The removal of the directory comes after everything else.
  pub held-with_cleanup :
      (dir : String) (m : Act P.World (Unit {0})) (s : State P.World)
      → held P (with_cleanup P B dir m s).1 ≡ held P (m s).1
  unfolding with_cleanup deletions
  held-with_cleanup dir m s = refl
