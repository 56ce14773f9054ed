-- ===== src/Controller/Settling.antt =====
-- The status that `finalizeStatus` of internal/controller/kustomization_controller.go leaves.
use kustomize_controller.Base.{
  ◌≡◌, ◌≢◌, String, false, none, Bool-cases, Option-cases, inl, inr, arith, if◌then◌else◌, eq_iff,
  some, refl, List, ap, ◌∙◌,
}
use kustomize_controller.Base.Int.{ℤ}
use kustomize_controller.Api.Object.{Kustomization, KustomizationStatus, Condition, true_status}
use kustomize_controller.Platform.Conditions.{IsLawful, status, ready, reconciling}
use kustomize_controller.Platform.Services.{Platform}
use kustomize_controller.Controller.Status.{
  handled_status, settled_status, retried_status, finalized_status,
}

module _ (P : Platform) (k : Kustomization) where
  -- The observed generation becomes the current one exactly when Ready is true; else it stays.
  pub finalized_generation : (finalized_status P k).observed_generation ≡ (
      if P.conditions.is_true k.status.conditions ready
      then k.generation
      else k.status.observed_generation)
  unfolding finalized_status
  finalized_generation = ground arith

  -- What was applied, attempted and tracked stays as it was.
  finalized_frame :
      ((finalized_status P k).inventory ≡ k.status.inventory)
      × ((finalized_status P k).last_applied_revision ≡ k.status.last_applied_revision)
      × ((finalized_status P k).last_attempted_revision ≡ k.status.last_attempted_revision)
      × ((finalized_status P k).history ≡ k.status.history)
  unfolding finalized_status
  finalized_frame = ground arith

module _ (P : Platform) (L : IsLawful P.conditions) where
  handled-conditions : (k : Kustomization) → (handled_status P k).conditions ≡ k.status.conditions
  unfolding handled_status
  handled-conditions k = ground arith

  settled-status :
      (generation : ℤ) (t : KustomizationStatus) (u : String)
      → u ≢ reconciling
      → status P.conditions (settled_status P generation t).conditions u
        ≡ status P.conditions t.conditions u
  unfolding settled_status
  settled-status generation t u other =
      elim (Bool-cases (P.conditions.is_true t.conditions ready)) [
        | inl is_ready ↦
            rw is_ready
              (ground (arith, eq_iff reconciling u, L.status-delete t.conditions reconciling u))
        | inr unready ↦ rw unready refl
      ]

  retry-status :
      (cs : List Condition) (rc : Condition) (reason u : String)
      → P.conditions.get cs reconciling ≡ some rc
      → u ≢ reconciling
      → status P.conditions (P.conditions.set cs (record rc { reason = reason })) u
        ≡ status P.conditions cs u
  retry-status cs rc reason u found other = ground (
    arith,
    L.status-set cs (record rc { reason = reason }) u,
    L.type-get cs reconciling rc found,
    eq_iff rc.type u,
  )

  retried-status :
      (t : KustomizationStatus) (u : String)
      → u ≢ reconciling
      → status P.conditions (retried_status P t).conditions u ≡ status P.conditions t.conditions u
  unfolding retried_status
  retried-status t u other = elim (Option-cases (P.conditions.get t.conditions reconciling)) [
    | inl gone ↦ rw gone (ground arith)
    | inr (rc, found) ↦
        rw found (ground (arith, retry-status t.conditions rc "ProgressingWithRetry" u found other))
  ]

  -- `finalizeStatus` keeps the status of every condition but Reconciling.
  finalized_conditions :
      (k : Kustomization) (t : String)
      → t ≢ reconciling
      → status P.conditions (finalized_status P k).conditions t
        ≡ status P.conditions k.status.conditions t
  unfolding finalized_status
  finalized_conditions k t other =
      retried-status (settled_status P k.generation (handled_status P k)) t other
      ∙ (settled-status k.generation (handled_status P k) t other
          ∙ ap (λ cs. status P.conditions cs t) (handled-conditions k))

  settled-ready :
      (generation : ℤ) (t : KustomizationStatus)
      → status P.conditions t.conditions ready ≡ some true_status
      → settled_status P generation t ≡ record t {
        conditions = P.conditions.delete t.conditions reconciling;
        observed_generation = generation;
      }
  unfolding settled_status
  settled-ready generation t h = rw ((L.is_true_iff t.conditions ready).1 h) refl

  retried-ready :
      (t : KustomizationStatus)
      → status P.conditions t.conditions ready ≡ some true_status
      → retried_status P t ≡ t
  unfolding retried_status
  retried-ready t h =
      let unfailed : P.conditions.is_false t.conditions ready ≡ false =
        ground (arith, L.is_false_iff t.conditions ready) in
      rw unfailed refl

  finalized_ready_lem :
      (generation : ℤ) (t : KustomizationStatus)
      → status P.conditions t.conditions ready ≡ some true_status
      → (status P.conditions
            (retried_status P (settled_status P generation t)).conditions
            reconciling
          ≡ none)
        × ((retried_status P (settled_status P generation t)).observed_generation ≡ generation)
  finalized_ready_lem generation t h =
      rw
        (
          settled-ready generation t h,
          retried-ready
              (record t {
                conditions = P.conditions.delete t.conditions reconciling;
                observed_generation = generation;
              })
              (L.status-delete t.conditions reconciling ready ∙ h),
        )
        (L.status-delete t.conditions reconciling reconciling, refl)

  -- A true Ready condition ends the reconciliation: Reconciling is gone, and the generation is
  -- observed.
  pub finalized_ready :
      (k : Kustomization)
      → status P.conditions k.status.conditions ready ≡ some true_status
      → (status P.conditions (finalized_status P k).conditions reconciling ≡ none)
        × ((finalized_status P k).observed_generation ≡ k.generation)
  unfolding finalized_status
  finalized_ready k h =
      finalized_ready_lem k.generation (handled_status P k)
        (ap (λ cs. status P.conditions cs ready) (handled-conditions k) ∙ h)
