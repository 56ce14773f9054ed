-- ===== src/Command/Features.antt =====
-- internal/features/features.go: the feature gates and their defaults.
use kustomize_controller.Base.{
  String, ◌==◌, ◌≡◌, Bool, true, false, none, some, is_some, List, [], ◌∷◌, arith, eq_iff,
  if◌then◌else◌, lookup,
}

abbrev pub disable_status_poller_cache : String
disable_status_poller_cache = "DisableStatusPollerCache"

abbrev pub disable_fail_fast_behavior : String
disable_fail_fast_behavior = "DisableFailFastBehavior"

abbrev pub strict_post_build_substitutions : String
strict_post_build_substitutions = "StrictPostBuildSubstitutions"

abbrev pub group_change_log : String
group_change_log = "GroupChangeLog"

abbrev pub cancel_health_check_on_new_revision : String
cancel_health_check_on_new_revision = "CancelHealthCheckOnNewRevision"

abbrev pub migrate_api_version : String
migrate_api_version = "MigrateAPIVersion"

abbrev pub disable_commit_status_event : String
disable_commit_status_event = "DisableCommitStatusEvent"

-- The gates of fluxcd/pkg/runtime/controller and fluxcd/pkg/auth: their names, and the reason of a
-- retirement.
pub record SharedGates : Type 0 where
  pub cache_secrets_and_config_maps : String
  pub additive_cel_dependency_check : String
  pub external_artifact : String
  pub disable_config_watchers : String
  pub direct_source_fetch : String
  pub object_level_workload_identity : String
  pub retirement_reason : String

module _ (G : SharedGates) where
  -- `features`
  unfoldable pub features : List (String × Bool)
  features =
      (G.cache_secrets_and_config_maps, false)
      ∷ (disable_status_poller_cache, true)
      ∷ (disable_fail_fast_behavior, false)
      ∷ (strict_post_build_substitutions, true)
      ∷ (group_change_log, false)
      ∷ (G.additive_cel_dependency_check, false)
      ∷ (G.external_artifact, false)
      ∷ (cancel_health_check_on_new_revision, false)
      ∷ (G.disable_config_watchers, false)
      ∷ (G.direct_source_fetch, false)
      ∷ (migrate_api_version, false)
      ∷ (disable_commit_status_event, false)
      ∷ []

  -- `retiredFeatures`
  unfoldable pub retired_features : List (String × String)
  retired_features = (G.object_level_workload_identity, G.retirement_reason) ∷ []

  -- `FeatureGates`
  unfoldable pub feature_gates : List (String × Bool) × List (String × String)
  unfolding features retired_features
  feature_gates = (features, retired_features)

-- `Disable`, on the map of the gates: a binding is changed only where there is one.
unfoldable pub disable : List (String × Bool) → String → List (String × Bool)
disable [] feature = []
disable ((name, on) ∷ gates) feature =
    let rest = disable gates feature in
    if name == feature then (name, false) ∷ gates else (name, on) ∷ rest

-- After `Disable` the gate is off if there is one, and all other gates are as before.
pub lookup-disable :
    (gates : List (String × Bool)) (feature name : String)
    → lookup (disable gates feature) name ≡ (
        if feature == name
        then (if is_some (lookup gates feature) then some false else none)
        else lookup gates name)
unfolding disable
lookup-disable [] feature name = ground arith
lookup-disable ((g, on) ∷ gates) feature name =
    ground (
      arith,
      lookup-disable gates feature name,
      eq_iff g feature,
      eq_iff g name,
      eq_iff feature name,
    )
