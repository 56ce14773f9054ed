-- ===== src/Controller/Readiness.antt =====
-- When the dependencies pass `checkDependencies` of
-- internal/controller/kustomization_controller.go, and what an expression that does not compile does.
use kustomize_controller.Base.{
  ◌≡◌, ◌≢◌, ◌⊎◌, inl, inr, true, false, not, List, [], ◌∷◌, All, arith, String, eq_iff, Bool-cases,
  ◌==◌, if◌then◌else◌, ◌&&◌,
}
use kustomize_controller.Base.Int.{eq_ℤ-sound}
use kustomize_controller.Errors.{ok, Result-cases}
use kustomize_controller.Api.References.{DependencyReference}
use kustomize_controller.Api.Object.{Kustomization}
use kustomize_controller.Platform.Values.{Artifact}
use kustomize_controller.Platform.Conditions.{ready}
use kustomize_controller.Platform.Services.{Platform}
use kustomize_controller.Run.{State, continue-ok, done}
use kustomize_controller.Controller.Config.{KustomizationReconciler}
use kustomize_controller.Controller.Dependencies.{
  dependency_name, same_source, check_builtin, check_expression, check_dependency, check_each,
  check_dependencies,
}

module _ (P : Platform) (r : KustomizationReconciler) (k : Kustomization)
    (artifact : Artifact) where
  -- The built-in criteria: an observed generation that is the current one, a true Ready condition,
  -- and the revision of the artifact, if the sources are the same.
  pub record MeetsBuiltin (dep : Kustomization) : Type 0 where
    pub observed : dep.generation ≡ dep.status.observed_generation
    pub is_ready : P.conditions.is_status_condition_true dep.status.conditions ready ≡ true
    pub up_to_date :
        (same_source k dep ≡ false)
        ⊎ (P.has_revision artifact dep.status.last_applied_revision ≡ true)

  -- The expression of the reference compiles and is true of the dependency.
  pub record MeetsExpression (self : P.StructMap) (expr : String) (dep : Kustomization)
      : Type 0 where
    pub compiled : P.Expression
    pub dep_map : P.StructMap
    pub compiles : P.new_expression expr ≡ ok compiled
    pub converts : P.to_unstructured dep ≡ ok dep_map
    pub holds : P.evaluate_boolean compiled self dep_map ≡ ok true

  -- A dependency that was read, and that meets the criteria for its reference: the expression if
  -- there is one, and the built-in ones if there is none or if they are to be added.
  pub record MeetsCriteria (self : P.StructMap) (d : DependencyReference) : Type 0 where
    pub dep : Kustomization
    pub read_in : P.World
    pub was_read : (P.get_dependency (dependency_name k d) read_in).0 ≡ ok dep
    pub expression : (d.ready_expr ≡ "") ⊎ MeetsExpression self d.ready_expr dep
    pub builtin :
        ((d.ready_expr ≢ "") × (r.additive_cel_dependency_check ≡ false)) ⊎ MeetsBuiltin dep

  check_builtin_sound :
      (name : String) (dep : Kustomization) (s : State P.World)
      → (check_builtin P k artifact name dep s).0 ≡ ok tt
      → MeetsBuiltin dep
  unfolding check_builtin
  check_builtin_sound name dep s h =
      ground (arith, eq_ℤ-sound dep.generation dep.status.observed_generation)

  check_expression_sound :
      (self : P.StructMap) (d : DependencyReference) (name : String) (dep : Kustomization)
      (s : State P.World)
      → (check_expression P d self name dep s).0 ≡ ok tt
      → (d.ready_expr ≡ "") ⊎ MeetsExpression self d.ready_expr dep
  unfolding check_expression
  check_expression_sound self d name dep s h = elim (Bool-cases (d.ready_expr == "")) [
    | inl none_given ↦ inl ((eq_iff d.ready_expr "").0 none_given)
    | inr given ↦ elim (Result-cases (P.new_expression d.ready_expr)) [
      | inr bad ↦ ground (arith, bad.1)
      | inl (compiled, c) ↦ elim (Result-cases (P.to_unstructured dep)) [
        | inr bad ↦ ground (arith, bad.1)
        | inl (m, e) ↦ inr (record {
          compiled = compiled;
          dep_map = m;
          compiles = c;
          converts = e;
          holds = ground arith;
        })
      ]
    ]
  ]

  skipped-or-builtin :
      (d : DependencyReference) (name : String) (dep : Kustomization) (s : State P.World)
      → ((if not (d.ready_expr == "") && not r.additive_cel_dependency_check
            then done
            else check_builtin P k artifact name dep)
          s).0
        ≡ ok tt
      → ((d.ready_expr ≢ "") × (r.additive_cel_dependency_check ≡ false)) ⊎ MeetsBuiltin dep
  skipped-or-builtin d name dep s h =
      elim (Bool-cases (not (d.ready_expr == "") && not r.additive_cel_dependency_check)) [
        | inl skip ↦ inl (ground (arith, eq_iff d.ready_expr ""))
        | inr checked ↦ inr (check_builtin_sound name dep s (rw checked at h))
      ]

  check_dependency_sound :
      (self : P.StructMap) (d : DependencyReference) (s : State P.World)
      → (check_dependency P r k artifact self d s).0 ≡ ok tt
      → MeetsCriteria self d
  unfolding check_dependency
  check_dependency_sound self d s h =
      elim (Result-cases (P.get_dependency (dependency_name k d) s.world).0) [
        | inr bad ↦ ground (arith, bad.1)
        | inl (dep, found) ↦
            let (_, expr, built) =
              continue-ok (check_expression P d self _ dep _).0 _
                (check_expression P d self _ dep _).1 (rw found at h) in
            record {
              dep = dep;
              read_in = s.world;
              was_read = found;
              expression = check_expression_sound self d _ dep _ expr;
              builtin = skipped-or-builtin d _ dep _ built;
            }
      ]

  check_each_sound :
      (self : P.StructMap) (ds : List DependencyReference) (s : State P.World)
      → (check_each P r k artifact self ds s).0 ≡ ok tt
      → All (MeetsCriteria self) ds
  unfolding check_each
  check_each_sound self [] s h = tt
  check_each_sound self (d ∷ ds) s h =
      let (_, first, rest) =
        continue-ok (check_dependency P r k artifact self d s).0
          (λ _. check_each P r k artifact self ds) (check_dependency P r k artifact self d s).1 h in
      (check_dependency_sound self d s first, check_each_sound self ds _ rest)

  -- If `checkDependencies` succeeds, every dependency was read and meets the criteria of its
  -- reference.
  pub check_dependencies_sound :
      (s : State P.World)
      → (check_dependencies P r k artifact s).0 ≡ ok tt
      → (self : P.StructMap) × (P.to_unstructured k ≡ ok self)
        × All (MeetsCriteria self) k.spec.depends_on
  unfolding check_dependencies
  check_dependencies_sound s h = elim (Result-cases (P.to_unstructured k)) [
    | inr bad ↦ ground (arith, bad.1)
    | inl (self, e) ↦ (self, e, check_each_sound self k.spec.depends_on s (rw e at h))
  ]
