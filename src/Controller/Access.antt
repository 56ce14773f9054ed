-- ===== src/Controller/Access.antt =====
-- Which sources `getSource` reads (internal/controller/kustomization_controller.go).
use kustomize_controller.Base.{inl, inr, ◌≡◌, ◌≢◌, In, true, false, arith, eq_iff, ◌⊎◌}
use kustomize_controller.Errors.{Result, ErrorClass, Result-cases, ok, err, class_of}
use kustomize_controller.Api.Object.{Kustomization}
use kustomize_controller.Platform.Values.{Source, Effect, source_read}
use kustomize_controller.Platform.Services.{Platform}
use kustomize_controller.Run.{State}
use kustomize_controller.Controller.Config.{KustomizationReconciler}
use kustomize_controller.Controller.Source.{
  get_source, source_namespace, source_name, is_supported_kind, external_artifact_kind,
}

-- What the code checks before it reads a source: a reference across namespaces and one to an
-- ExternalArtifact must be allowed, and the kind must be known.
pub record IsAllowed (r : KustomizationReconciler) (k : Kustomization) : Type 0 where
  pub same_namespace : (r.no_cross_namespace_refs ≡ false) ⊎ (source_namespace k ≡ k.namespace)
  pub external :
      (r.allow_external_artifact ≡ true) ⊎ (k.spec.source_ref.kind ≢ external_artifact_kind)
  pub known_kind : is_supported_kind k.spec.source_ref.kind ≡ true

-- The source, or what the callers can tell of the error.
abbrev pub observed : Result Source → Source ⊎ ErrorClass
observed (ok src) = inl src
observed (err e) = inr (class_of e)

module _ (P : Platform) (r : KustomizationReconciler) (k : Kustomization) (s : State P.World) where
  -- `getSource` leaves the object as it is. The one effect that it can have is to read the source of
  -- the reference, and then the reference is allowed and its kind is known.
  pub get_source_reads :
      (e : Effect)
      → In e (get_source P r k s).1.trace
      → ((get_source P r k s).1.obj ≡ s.obj)
        × (In e s.trace
            ⊎ ((e ≡ source_read r.direct_source_fetch k.spec.source_ref.kind (source_name k))
                × IsAllowed r k))
  unfolding get_source
  get_source_reads e i = ground (
    arith,
    eq_iff (source_namespace k) k.namespace,
    eq_iff k.spec.source_ref.kind external_artifact_kind,
  )

  -- If the reference is allowed and its kind is known, `getSource` returns what the reader returns:
  -- the same source, or an error of the same class.
  pub get_source_allowed :
      IsAllowed r k
      → observed (get_source P r k s).0
        ≡ observed
            (P.get_source_object r.direct_source_fetch k.spec.source_ref.kind
              (source_name k)
              s.world).0
  unfolding get_source class_of
  get_source_allowed h =
      elim (Result-cases
        (P.get_source_object r.direct_source_fetch k.spec.source_ref.kind (source_name k)
          s.world).0) [
            | inl (src, e) ↦ ground (
              arith,
              e,
              eq_iff (source_namespace k) k.namespace,
              eq_iff k.spec.source_ref.kind external_artifact_kind,
            )
            | inr (f, e) ↦ ground (
              arith,
              e,
              eq_iff (source_namespace k) k.namespace,
              eq_iff k.spec.source_ref.kind external_artifact_kind,
            )
          ]
