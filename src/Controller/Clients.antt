-- ===== src/Controller/Clients.antt =====
-- How the reconciler gets its client: the impersonation options, `getProviderRESTConfigFetcher` and
-- `getClientAndPoller` of internal/controller/kustomization_controller.go.
use kustomize_controller.Base.{
  ◌==◌, ◌&&◌, ◌||◌, Bool, not, Option, none, some, is_empty, is_some, if◌then◌else◌,
}
use kustomize_controller.Api.Object.{Kustomization}
use kustomize_controller.Platform.Values.{ProviderOptions, ImpersonatorOptions}
use kustomize_controller.Platform.Services.{Platform}
use kustomize_controller.Run.{Act, call, pure}
use kustomize_controller.Controller.Config.{KustomizationReconciler}

-- `getProviderRESTConfigFetcher`
unfoldable pub get_provider_rest_config_fetcher :
    KustomizationReconciler → Kustomization → Option ProviderOptions
get_provider_rest_config_fetcher r k = elim k.spec.kube_config [
  | none ↦ none
  | some kc ↦
      if not (is_some kc.secret_ref) && is_some kc.config_map_ref
      then some (record {
        default_service_account =
            if r.default_kube_config_service_account == ""
            then none
            else some r.default_kube_config_service_account;
        cache_operation = if r.token_cache then some "fetch_kubeconfig" else none;
      })
      else none
]

-- `r.DefaultServiceAccount != "" || obj.Spec.ServiceAccountName != ""`
unfoldable pub uses_service_account : KustomizationReconciler → Kustomization → Bool
uses_service_account r k =
    not (r.default_service_account == "") || not (k.spec.service_account_name == "")

-- `mustImpersonate`
unfoldable pub must_impersonate : KustomizationReconciler → Kustomization → Bool
unfolding uses_service_account
must_impersonate r k = uses_service_account r k || is_some k.spec.kube_config

module _ (P : Platform) where
  -- The options for the client under a polling option.
  unfoldable pub impersonator_options :
      KustomizationReconciler
      → Kustomization
      → Option (Bool × Option P.StatusReader)
      → ImpersonatorOptions P.StatusReader
  unfolding get_provider_rest_config_fetcher uses_service_account
  impersonator_options r k polling = record {
    service_account =
        if uses_service_account r k
        then some (r.default_service_account, k.spec.service_account_name, k.namespace)
        else none;
    kube_config = elim k.spec.kube_config [
      | none ↦ none
      | some kc ↦ some (kc, k.namespace, get_provider_rest_config_fetcher r k)
    ];
    polling = polling;
  }

  -- `getClientAndPoller`
  unfoldable pub get_client_and_poller :
      KustomizationReconciler → Kustomization → P.StatusReader → P.Client × P.Poller
  get_client_and_poller r k reader = (
    P.own_client,
    P.new_status_poller (record {
      custom_reader = if is_empty k.spec.health_check_exprs then none else some reader;
      cluster_reader = r.cluster_reader;
    }),
  )

  -- The client of a reconciliation.
  unfoldable pub reconcile_client :
      KustomizationReconciler → Kustomization → P.StatusReader → Act P.World (P.Client × P.Poller)
  unfolding impersonator_options must_impersonate get_client_and_poller
  reconcile_client r k reader =
      let polling : Option (Bool × Option P.StatusReader) =
        if r.cluster_reader || not (is_empty k.spec.health_check_exprs)
        then some (r.cluster_reader, some reader)
        else none in
      if must_impersonate r k
      then call (P.impersonated_client (impersonator_options r k polling))
      else pure (get_client_and_poller r k reader)
