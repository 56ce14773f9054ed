-- ===== src/Examples/Wakeups.antt =====
-- The theorem on the requests for a change of a source at concrete values.
use kustomize_controller.Base.{◌≡◌, ◌↔◌, refl, some, [], ◌∷◌, In}
use kustomize_controller.Errors.{ok}
use kustomize_controller.Api.Object.{Kustomization}
use kustomize_controller.Controller.Triggers.{outdated, requests_for_revision_change_of}
use kustomize_controller.Controller.Wakeups.{name_of, IsWoken, requests_for_revision_change_of_iff}
use kustomize_controller.Samples.Objects.{sample_kustomization, sample_artifact}
use kustomize_controller.Samples.Platforms.{sample_platform}
use kustomize_controller.Samples.Queues.{sample_cluster, sample_queue, sample_queue-IsLawful}

sample_is_outdated :
    sample_queue.sort (outdated sample_platform sample_artifact sample_cluster)
    ≡ ok (name_of sample_kustomization ∷ [])
unfolding outdated
sample_is_outdated = refl

requests_for_revision_change_of_iff_example :
    In (name_of sample_kustomization) (
      requests_for_revision_change_of sample_platform sample_queue "source" "apps/app"
        (some sample_artifact))
    ↔ ((k : Kustomization) × IsWoken sample_platform sample_queue "source" "GitRepository"
          sample_cluster sample_queue-IsLawful "apps/app" sample_artifact k
        × (name_of sample_kustomization ≡ name_of k))
requests_for_revision_change_of_iff_example =
    requests_for_revision_change_of_iff sample_platform sample_queue "source" "GitRepository"
      sample_cluster sample_queue-IsLawful "apps/app" sample_artifact sample_cluster
      (name_of sample_kustomization ∷ []) (name_of sample_kustomization) refl sample_is_outdated
