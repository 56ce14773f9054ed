-- ===== src/Api/Defaults.antt =====
-- The getters of api/v1/kustomization_types.go, which put defaults in place of fields left empty.
use kustomize_controller.Base.{String, ◌==◌, ◌*◌, ◌^◌, none, some, List, map, if◌then◌else◌, ℕ}
use kustomize_controller.Base.Int.{ℤ, pos, lt_ℤ, sub64}
use kustomize_controller.Api.References.{DependencyReference}
use kustomize_controller.Api.Object.{Kustomization, mirror_prune}

-- `30*time.Second`, in nanoseconds
abbrev pub thirty_seconds : ℕ
thirty_seconds = 30 * 10 ^ 9

-- The timeout of the spec, or the interval less 30 seconds.
unfoldable pub requested_timeout : Kustomization → ℤ
requested_timeout k = elim k.spec.timeout [
  | none ↦ sub64 k.spec.interval thirty_seconds
  | some t ↦ t
]

unfoldable pub get_timeout : Kustomization → ℤ
unfolding requested_timeout
get_timeout k =
    let duration = requested_timeout k in
    if lt_ℤ duration (pos thirty_seconds) then pos thirty_seconds else duration

unfoldable pub get_requeue_after : Kustomization → ℤ
get_requeue_after k = k.spec.interval

unfoldable pub get_retry_interval : Kustomization → ℤ
unfolding get_requeue_after
get_retry_interval k = elim k.spec.retry_interval [ some d ↦ d | none ↦ get_requeue_after k ]

unfoldable pub get_deletion_policy : Kustomization → String
get_deletion_policy k =
    if k.spec.deletion_policy == "" then mirror_prune else k.spec.deletion_policy

-- `meta.DependencyReference` without the expression, as the index of dependents reads it
unfoldable pub get_depends_on : Kustomization → List DependencyReference
get_depends_on k =
    map
      (λ (d : DependencyReference). record {
        name = d.name;
        namespace = d.namespace;
        ready_expr = "";
      })
      k.spec.depends_on

abbrev pub with_variables : String
with_variables = "WithVariables"

abbrev pub always : String
always = "Always"

unfoldable pub get_substitute_strategy : Kustomization → String
get_substitute_strategy k = elim k.spec.post_build [
  | none ↦ with_variables
  | some pb ↦ if pb.substitute_strategy == "" then with_variables else pb.substitute_strategy
]
