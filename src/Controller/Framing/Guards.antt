-- ===== src/Controller/Framing/Guards.antt =====
-- What `Reconcile` of internal/controller/kustomization_controller.go does before and after
-- `reconcile` leaves alone.
use kustomize_controller.Base.{String, not, ◌&&◌, ◌==◌, ◌<>◌, refl, Option, List, [], ◌∷◌, arith}
use kustomize_controller.Base.Int.{ℤ}
use kustomize_controller.Errors.{Error}
use kustomize_controller.Api.References.{DependencyReference}
use kustomize_controller.Api.Object.{Kustomization}
use kustomize_controller.Api.Actions.{Action}
use kustomize_controller.Platform.Values.{Source, Artifact, dependency_read}
use kustomize_controller.Platform.Services.{Platform}
use kustomize_controller.Run.{wrap_error, lift, leave, call, done}
use kustomize_controller.Run.Frames.{bind-Keeps, if-Keeps}
use kustomize_controller.Controller.Config.{KustomizationReconciler}
use kustomize_controller.Controller.Source.{get_source, name_string}
use kustomize_controller.Controller.Dependencies.{
  check_dependency, check_each, dependency_name, check_dependencies, check_expression,
  check_builtin, eval_ready_expr,
}
use kustomize_controller.Controller.Reconciling.Steps.{Origin}
use kustomize_controller.Controller.Dispatch.{
  report_success, fail_terminally, source_failed, dependencies_failed, reconcile_failed,
}
use kustomize_controller.Controller.Framing.Parts.{held, Holds}
use kustomize_controller.Controller.Status.{finalize_status}
use kustomize_controller.Controller.Building.{BuildServices}
use kustomize_controller.Controller.Traces.{deletions}

module _ (P : Platform) where
  pub get_source-Holds :
      (r : KustomizationReconciler) (k : Kustomization) → Holds P (get_source P r k)
  unfolding get_source deletions
  get_source-Holds r k = record { keeps = λ s. ground arith }

  check_expression-Holds :
      (d : DependencyReference) (self : P.StructMap) (name : String) (dep : Kustomization)
      → Holds P (check_expression P d self name dep)
  unfolding check_expression eval_ready_expr deletions
  check_expression-Holds d self name dep = record { keeps = λ s. ground arith }

  check_builtin-Holds :
      (k : Kustomization) (a : Artifact) (name : String) (dep : Kustomization)
      → Holds P (check_builtin P k a name dep)
  unfolding check_builtin deletions
  check_builtin-Holds k a name dep = record { keeps = λ s. ground arith }

  check_dependency-Holds :
      (r : KustomizationReconciler) (k : Kustomization) (a : Artifact) (self : P.StructMap)
      (d : DependencyReference)
      → Holds P (check_dependency P r k a self d)
  unfolding check_dependency deletions
  check_dependency-Holds r k a self d =
      let name = dependency_name k d in
      bind-Keeps (held P) (leave (dependency_read name)) _ (record { keeps = λ s. refl })
        λ _.
          bind-Keeps (held P)
            (wrap_error ("dependency '" <> (name_string name <> "' not found: "))
              (call (P.get_dependency name)))
            _ (record { keeps = λ s. ground arith })
            λ dep.
              bind-Keeps (held P) (check_expression P d self (name_string name) dep) _
                (check_expression-Holds d self (name_string name) dep)
                λ _.
                  if-Keeps (held P)
                    (not (d.ready_expr == "") && not r.additive_cel_dependency_check) done
                    (check_builtin P k a (name_string name) dep) (record { keeps = λ s. refl })
                    (check_builtin-Holds k a (name_string name) dep)

  check_each-Holds :
      (r : KustomizationReconciler) (k : Kustomization) (a : Artifact) (self : P.StructMap)
      (ds : List DependencyReference)
      → Holds P (check_each P r k a self ds)
  unfolding check_each
  check_each-Holds r k a self [] = record { keeps = λ s. refl }
  check_each-Holds r k a self (d ∷ ds) =
      bind-Keeps (held P) (check_dependency P r k a self d) _ (check_dependency-Holds r k a self d)
        (λ _. check_each-Holds r k a self ds)

  pub check_dependencies-Holds :
      (r : KustomizationReconciler) (k : Kustomization) (a : Artifact)
      → Holds P (check_dependencies P r k a)
  unfolding check_dependencies deletions
  check_dependencies-Holds r k a =
      bind-Keeps (held P)
        (wrap_error "failed to convert Kustomization to unstructured: "
          (lift (P.to_unstructured k)))
        _ (record { keeps = λ s. ground arith })
        λ self. check_each-Holds r k a self k.spec.depends_on

  pub fail_terminally-Holds :
      (src : Option Source) (revision origin : String) (action : Action) (cause e : Error)
      → Holds P (fail_terminally P src revision origin action cause e)
  unfolding fail_terminally deletions
  fail_terminally-Holds src revision origin action cause e = record { keeps = λ s. refl }

  pub source_failed-Holds : (e : Error) → Holds P (source_failed P e)
  unfolding source_failed deletions
  source_failed-Holds e = record { keeps = λ s. ground arith }

  pub dependencies_failed-Holds :
      (r : KustomizationReconciler) (o : Origin) (e : Error) → Holds P (dependencies_failed P r o e)
  unfolding dependencies_failed fail_terminally deletions
  dependencies_failed-Holds r o e = record { keeps = λ s. ground arith }

  pub reconcile_failed-Holds :
      (r : KustomizationReconciler) (o : Origin) (e : Error) → Holds P (reconcile_failed P r o e)
  unfolding reconcile_failed deletions
  reconcile_failed-Holds r o e = record { keeps = λ s. ground arith }

  pub finalize_status-Holds : Holds P (finalize_status P)
  unfolding finalize_status deletions
  finalize_status-Holds = record { keeps = λ s. ground arith }

  pub report_success-Holds :
      (B : BuildServices P.World P.StructMap) (r : KustomizationReconciler) (src : Option Source)
      (start : ℤ)
      → Holds P (report_success P B r src start)
  unfolding report_success deletions
  report_success-Holds B r src start = record { keeps = λ s. ground arith }
