-- ===== src/Controller/Triggers.antt =====
-- What brings a Kustomization to the queue: internal/controller/source_predicate.go and
-- internal/controller/kustomization_indexers.go.
use kustomize_controller.Base.{
  String, ◌==◌, ◌&&◌, ◌||◌, Bool, not, true, false, Option, none, some, List, [], ◌∷◌,
  if◌then◌else◌,
}
use kustomize_controller.Errors.{Result, ok, err}
use kustomize_controller.Api.References.{NamespacedName}
use kustomize_controller.Api.Object.{Kustomization}
use kustomize_controller.Platform.Values.{Artifact, Source}
use kustomize_controller.Platform.Services.{Platform}
use kustomize_controller.Controller.Source.{name_string, source_name}

-- The cache of the cluster's Kustomizations, and `dependency.Sort`, which gives the names.
pub record Queue : Type 0 where
  -- `List` with the matching field: the index and the value
  pub list_by : String → String → Result (List Kustomization)
  pub sort : List Kustomization → Result (List NamespacedName)

-- `indexBy`
unfoldable pub index_by : String → Kustomization → List String
index_by kind k = if k.spec.source_ref.kind == kind then name_string (source_name k) ∷ [] else []

-- What a handler returns when an error is only logged.
abbrev or_none : Result (List NamespacedName) → List NamespacedName
or_none (ok reqs) = reqs
or_none (err e) = []

module _ (P : Platform) where
  -- `SourceRevisionChangePredicate.Update`; an object that is nil or no source is `none`.
  unfoldable pub update : Option Source → Option Source → Bool
  update none new = false
  update (some old) none = false
  update (some old) (some new) = elim new.artifact [
    | none ↦ false
    | some artifact ↦ elim old.artifact [
      | none ↦ true
      | some before ↦ not (P.has_revision before artifact.revision)
    ]
  ]

  -- The Kustomization needs no request: it is ready or reconciling, and has attempted the revision.
  unfoldable pub is_up_to_date : Artifact → Kustomization → Bool
  is_up_to_date artifact k =
      (P.conditions.is_ready k.status.conditions || P.conditions.is_reconciling k.status.conditions)
      && P.has_revision artifact k.status.last_attempted_revision

  -- The loop over the Kustomizations that reference the source.
  unfoldable pub outdated : Artifact → List Kustomization → List Kustomization
  unfolding is_up_to_date
  outdated artifact [] = []
  outdated artifact (k ∷ ks) =
      let rest = outdated artifact ks in if is_up_to_date artifact k then rest else k ∷ rest

  -- `requestsForRevisionChangeOf`, for a source with the given key and artifact
  unfoldable pub requests_for_revision_change_of :
      Queue → String → String → Option Artifact → List NamespacedName
  unfolding outdated
  requests_for_revision_change_of Q index key none = []
  requests_for_revision_change_of Q index key (some artifact) = elim (Q.list_by index key) [
    | err e ↦ []
    | ok ks ↦ or_none (Q.sort (outdated artifact ks))
  ]

-- `requestsForConfigDependency`
unfoldable pub requests_for_config_dependency : Queue → String → String → List NamespacedName
requests_for_config_dependency Q index key = elim (Q.list_by index key) [
  | err e ↦ []
  | ok ks ↦ or_none (Q.sort ks)
]
