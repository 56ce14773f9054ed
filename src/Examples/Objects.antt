-- ===== src/Examples/Objects.antt =====
-- The theorems on the source, the dependencies and the health check at concrete values.
use kustomize_controller.Base.{
  ◌≡◌, ◌⊎◌, refl, true, false, some, [], In, inl, inr, any, All, arith, eq_iff,
}
use kustomize_controller.Errors.{ok}
use kustomize_controller.Inventory.Packages.{ObjMetadata}
use kustomize_controller.Platform.Values.{Effect, source_read}
use kustomize_controller.Controller.Source.{
  get_source, source_name, source_namespace, is_supported_kind,
}
use kustomize_controller.Controller.Access.{IsAllowed, get_source_reads}
use kustomize_controller.Controller.Readiness.{MeetsCriteria, check_dependencies_sound}
use kustomize_controller.Controller.Dependencies.{check_dependencies}
use kustomize_controller.Controller.Health.{check_health}
use kustomize_controller.Controller.Waiting.{check_health_others}
use kustomize_controller.Controller.Traces.{waits_for_self}
use kustomize_controller.Samples.Objects.{
  sample_reconciler, sample_kustomization, dependent_kustomization, new_set, sample_artifact,
  sample_source,
}
use kustomize_controller.Samples.Platforms.{sample_platform, start_of}

-- The one effect of `getSource` for the sample.
abbrev the_read : Effect
the_read = source_read false "GitRepository" (source_name sample_kustomization)

the_read_is_made :
    In the_read
      (get_source sample_platform sample_reconciler sample_kustomization
        (start_of sample_kustomization)).1.trace
unfolding get_source source_namespace is_supported_kind
the_read_is_made = inl refl

get_source_reads_example :
    ((get_source sample_platform sample_reconciler sample_kustomization
        (start_of sample_kustomization)).1.obj
      ≡ sample_kustomization)
    × (⊥
        ⊎ ((the_read ≡ source_read false "GitRepository" (source_name sample_kustomization))
            × IsAllowed sample_reconciler sample_kustomization))
get_source_reads_example =
    get_source_reads sample_platform sample_reconciler sample_kustomization
      (start_of sample_kustomization) the_read the_read_is_made

sample-IsAllowed : IsAllowed sample_reconciler sample_kustomization
unfolding source_namespace is_supported_kind
sample-IsAllowed = record {
  same_namespace = inr refl;
  external = inr (λ e. ground (arith, eq_iff "GitRepository" "ExternalArtifact"));
  known_kind = refl;
}

dependencies_run :
    (check_dependencies sample_platform sample_reconciler dependent_kustomization sample_artifact
      (start_of dependent_kustomization)).0
    ≡ ok tt
unfolding check_dependencies source_namespace
dependencies_run = refl

check_dependencies_sound_example :
    (self : Unit {0}) × (ok tt ≡ ok self)
    × All
        (MeetsCriteria sample_platform sample_reconciler dependent_kustomization sample_artifact
          self)
        dependent_kustomization.spec.depends_on
check_dependencies_sound_example =
    check_dependencies_sound sample_platform sample_reconciler dependent_kustomization
      sample_artifact (start_of dependent_kustomization) dependencies_run

-- The Kustomization among the objects of a check.
abbrev self_metadata : ObjMetadata
self_metadata = record {
  namespace = "apps";
  name = "app";
  group_kind = record { group = "kustomize.toolkit.fluxcd.io"; kind = "Kustomization" };
}

check_health_others_example :
    any
      (waits_for_self sample_kustomization)
      (check_health sample_platform sample_reconciler sample_kustomization
        (tt, tt)
        (some sample_source)
        "main@sha1:b"
        ""
        true
        true
        new_set
        []
        (start_of sample_kustomization)).1.trace
    ≡ false
check_health_others_example =
    check_health_others sample_platform sample_reconciler sample_kustomization (tt, tt)
      (some sample_source) "main@sha1:b" "" true true new_set [] (start_of sample_kustomization)
