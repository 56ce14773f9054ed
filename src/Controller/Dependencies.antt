-- ===== src/Controller/Dependencies.antt =====
-- `checkDependencies` and `evalReadyExpr` of internal/controller/kustomization_controller.go.
use kustomize_controller.Base.{
  String, ◌<>◌, ◌==◌, ◌&&◌, ◌||◌, Bool, not, List, [], ◌∷◌, is_empty, if◌then◌else◌,
}
use kustomize_controller.Base.Int.{eq_ℤ}
use kustomize_controller.Errors.{wrapped, terminal, text_error}
use kustomize_controller.Api.References.{NamespacedName, DependencyReference}
use kustomize_controller.Api.Object.{Kustomization}
use kustomize_controller.Platform.Values.{Artifact, dependency_read}
use kustomize_controller.Platform.Conditions.{ready}
use kustomize_controller.Platform.Services.{Platform}
use kustomize_controller.Run.{
  Act, raise, call, leave, lift, done, on_error, wrap_error, ◌>>=◌, ◌>>◌,
}
use kustomize_controller.Controller.Config.{KustomizationReconciler}
use kustomize_controller.Controller.Source.{name_string, source_namespace}

-- The name of a dependency, in the namespace of the object if the reference gives none.
unfoldable pub dependency_name : Kustomization → DependencyReference → NamespacedName
dependency_name k d = record {
  namespace = if d.namespace == "" then k.namespace else d.namespace;
  name = d.name;
}

-- Whether the dependency has the source of the object.
unfoldable pub same_source : Kustomization → Kustomization → Bool
same_source k dep =
    dep.spec.source_ref.name == k.spec.source_ref.name
    && (source_namespace dep == source_namespace k
        && dep.spec.source_ref.kind == k.spec.source_ref.kind)

module _ (P : Platform) where
  -- `evalReadyExpr`
  unfoldable pub eval_ready_expr : String → P.StructMap → Kustomization → Act P.World Bool
  eval_ready_expr expr self dep = do
    compiled ←
        on_error (lift (P.new_expression expr))
          λ e. raise (terminal (wrapped ("failed to evaluate dependency " <> (dep.name <> ": ")) e))
    dep_map ← wrap_error "failed to convert dep object to map: " (lift (P.to_unstructured dep))
    lift (P.evaluate_boolean compiled self dep_map)

  -- The built-in check of a dependency: its conditions, its generation and its revision.
  unfoldable pub check_builtin :
      Kustomization → Artifact → String → Kustomization → Act P.World (Unit {0})
  unfolding same_source
  check_builtin k artifact name dep =
      if is_empty dep.status.conditions || not (eq_ℤ dep.generation dep.status.observed_generation)
      then raise (text_error ("dependency '" <> (name <> "' is not ready")))
      else if not (P.conditions.is_status_condition_true dep.status.conditions ready)
      then raise (text_error ("dependency '" <> (name <> "' is not ready")))
      else if same_source k dep && not (P.has_revision artifact dep.status.last_applied_revision)
      then raise (text_error ("dependency '" <> (name <> "' revision is not up to date")))
      else done

  -- The check of the CEL expression, if there is one.
  unfoldable pub check_expression :
      DependencyReference → P.StructMap → String → Kustomization → Act P.World (Unit {0})
  unfolding eval_ready_expr
  check_expression d self name dep = if d.ready_expr == "" then done else do
    is_ready ← eval_ready_expr d.ready_expr self dep
    if is_ready
        then done
        else raise
            (text_error ("dependency '" <> (name <> "' is not ready according to readyExpr eval")))

  -- One round of the loop.
  unfoldable pub check_dependency :
      KustomizationReconciler
      → Kustomization
      → Artifact
      → P.StructMap
      → DependencyReference
      → Act P.World (Unit {0})
  unfolding check_expression check_builtin
  check_dependency r k artifact self d = do
    let name = dependency_name k d
    leave (dependency_read name)
    dep ←
        wrap_error ("dependency '" <> (name_string name <> "' not found: "))
          (call (P.get_dependency name))
    check_expression d self (name_string name) dep
    if not (d.ready_expr == "") && not r.additive_cel_dependency_check
        then done
        else check_builtin k artifact (name_string name) dep

  unfoldable pub check_each :
      KustomizationReconciler
      → Kustomization
      → Artifact
      → P.StructMap
      → List DependencyReference
      → Act P.World (Unit {0})
  unfolding check_dependency
  check_each r k artifact self [] = done
  check_each r k artifact self (d ∷ ds) =
      check_dependency r k artifact self d >> check_each r k artifact self ds

  -- `checkDependencies`, for a source whose artifact is there.
  unfoldable pub check_dependencies :
      KustomizationReconciler → Kustomization → Artifact → Act P.World (Unit {0})
  unfolding check_each
  check_dependencies r k artifact = do
    self ←
        wrap_error "failed to convert Kustomization to unstructured: " (lift (P.to_unstructured k))
    check_each r k artifact self k.spec.depends_on
