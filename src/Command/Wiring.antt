-- ===== src/Command/Wiring.antt =====
-- What main.go wires together: the gates, the reconciler, and its set-up.
use kustomize_controller.Base.{◌≡◌, ◌∙◌, ap, sym}
use kustomize_controller.Errors.{ok, bind_inv, ok_inv}
use kustomize_controller.Api.Object.{Kustomization}
use kustomize_controller.Controller.Config.{KustomizationReconciler}
use kustomize_controller.Controller.Access.{IsAllowed}
use kustomize_controller.Controller.Manager.{
  KustomizationReconcilerOptions, Builder, Manager, Setup, setup_with_manager,
}
use kustomize_controller.Controller.Manager.Watching.{IsWatched, setup_with_manager_watches}
use kustomize_controller.Command.{Flags, Packages, spiffe, token_cache, reconciler_of}
use kustomize_controller.Command.Features.{
  strict_post_build_substitutions, group_change_log, cancel_health_check_on_new_revision,
  migrate_api_version, disable_commit_status_event,
}

abbrev Pair : Type 0
Pair = KustomizationReconciler × KustomizationReconcilerOptions

module _ (P : Packages) where
  -- The reconciler and the options of its set-up follow the gates.
  pub record IsWired (r : KustomizationReconciler) (opts : KustomizationReconcilerOptions)
      : Type 0 where
    pub strict : P.enabled strict_post_build_substitutions ≡ ok r.strict_substitutions
    pub grouped : P.enabled group_change_log ≡ ok r.group_change_log
    pub additive :
        P.enabled P.gates.additive_cel_dependency_check ≡ ok r.additive_cel_dependency_check
    pub external : P.enabled P.gates.external_artifact ≡ ok r.allow_external_artifact
    pub watched : opts.watch_external_artifacts ≡ r.allow_external_artifact
    pub cancelled :
        P.enabled cancel_health_check_on_new_revision ≡ ok opts.cancel_health_check_on_requeue
    pub migrated : P.enabled migrate_api_version ≡ ok r.migrate_api_version
    pub silent : P.enabled disable_commit_status_event ≡ ok r.disable_commit_status_event
    pub direct : P.enabled P.gates.direct_source_fetch ≡ ok r.direct_source_fetch

  reconciler_of-IsWired :
      (f : Flags) (r : KustomizationReconciler) (opts : KustomizationReconcilerOptions)
      → reconciler_of P f ≡ ok (r, opts)
      → IsWired r opts
  unfolding reconciler_of
  reconciler_of-IsWired f r opts h =
      let out : KustomizationReconciler × KustomizationReconcilerOptions = (r, opts) in
      let (_, _, h0) = bind_inv (spiffe P f) _ out h in
      let (strict, e1, h1) = bind_inv (P.enabled strict_post_build_substitutions) _ out h0 in
      let (grouped, e2, h2) = bind_inv (P.enabled group_change_log) _ out h1 in
      let (additive, e3, h3) =
        bind_inv (P.enabled P.gates.additive_cel_dependency_check) _ out h2 in
      let (external, e4, h4) = bind_inv (P.enabled P.gates.external_artifact) _ out h3 in
      let (cancel, e5, h5) = bind_inv (P.enabled cancel_health_check_on_new_revision) _ out h4 in
      let (migrate, e6, h6) = bind_inv (P.enabled migrate_api_version) _ out h5 in
      let (silent, e7, h7) = bind_inv (P.enabled disable_commit_status_event) _ out h6 in
      let (_, _, h8) = bind_inv (token_cache P f) _ out h7 in
      let (_, _, h9) = bind_inv (P.enabled P.gates.disable_config_watchers) _ out h8 in
      let (direct, e10, h10) = bind_inv (P.enabled P.gates.direct_source_fetch) _ out h9 in
      let (_, _, h11) = bind_inv (P.parse_group_kind_set f.custom_apply_stage_kinds) _ out h10 in
      let same = ok_inv h11 in
      record {
        strict = e1 ∙ ap (λ (o : Pair). ok o.0.strict_substitutions) (sym same);
        grouped = e2 ∙ ap (λ (o : Pair). ok o.0.group_change_log) (sym same);
        additive = e3 ∙ ap (λ (o : Pair). ok o.0.additive_cel_dependency_check) (sym same);
        external = e4 ∙ ap (λ (o : Pair). ok o.0.allow_external_artifact) (sym same);
        watched =
            ap (λ (o : Pair). o.1.watch_external_artifacts) same
            ∙ ap (λ (o : Pair). o.0.allow_external_artifact) (sym same);
        cancelled = e5 ∙ ap (λ (o : Pair). ok o.1.cancel_health_check_on_requeue) (sym same);
        migrated = e6 ∙ ap (λ (o : Pair). ok o.0.migrate_api_version) (sym same);
        silent = e7 ∙ ap (λ (o : Pair). ok o.0.disable_commit_status_event) (sym same);
        direct = e10 ∙ ap (λ (o : Pair). ok o.0.direct_source_fetch) (sym same);
      }

  -- If main.go makes a reconciler and its set-up succeeds, the reconciler follows the feature gates,
  -- and every Kustomization whose source it can read is found by the watch for the kind of this
  -- source: the handler of the watch looks the key of the source up in an index that has been created
  -- and that has the Kustomization under this key.
  pub reconciler_of_watches :
      {W : Type 0} (M : Manager W) (f : Flags) (r : KustomizationReconciler)
      (opts : KustomizationReconcilerOptions) (k : Kustomization) (s t : Setup W) (b : Builder)
      → reconciler_of P f ≡ ok (r, opts)
      → setup_with_manager M opts s ≡ (ok b, t)
      → IsAllowed r k
      → IsWired r opts × IsWatched k b.watches t.indexes
  reconciler_of_watches M f r opts k s t b made set allowed =
      let wired = reconciler_of-IsWired f r opts made in
      (wired, setup_with_manager_watches M opts r k s t b (wired.watched) set allowed)
