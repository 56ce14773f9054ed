-- ===== src/Api/Actions.antt =====
-- api/v1/action.go and api/v1/metrics.go
use kustomize_controller.Base.{String, List, [], ◌∷◌}

pub data Action : Type 0 where
  reconcile check_dependencies resolve_source decrypt apply prune health_check : Action
  finalize wait_for_termination : Action

-- `Action.String`
unfoldable pub action_string : Action → String
action_string Action.reconcile = "Reconcile"
action_string Action.check_dependencies = "CheckDependencies"
action_string Action.resolve_source = "ResolveSource"
action_string Action.decrypt = "Decrypt"
action_string Action.apply = "Apply"
action_string Action.prune = "Prune"
action_string Action.health_check = "HealthCheck"
action_string Action.finalize = "Finalize"
action_string Action.wait_for_termination = "WaitForTermination"

-- The operations whose events the token cache counts.
abbrev pub all_metrics : List String
all_metrics =
    "fetch_kubeconfig" ∷ "decrypt_with_aws" ∷ "decrypt_with_azure" ∷ "decrypt_with_gcp"
    ∷ "decrypt_with_transit_engine" ∷ []
