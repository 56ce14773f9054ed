-- ===== src/Controller/Status.antt =====
-- `event`, `patch` and `finalizeStatus` of internal/controller/kustomization_controller.go, and the
-- condition marks as actions on the object.
use kustomize_controller.Base.{
  String, ◌<>◌, ◌==◌, ◌&&◌, Option, none, some, List, is_some, put, if◌then◌else◌,
}
use kustomize_controller.Base.Int.{ℤ}
use kustomize_controller.Errors.{Error}
use kustomize_controller.Api.Object.{Kustomization, KustomizationStatus, group}
use kustomize_controller.Api.Actions.{Action, action_string}
use kustomize_controller.Platform.Values.{
  Source, Event, EventType, normal, warning, patched, emitted,
}
use kustomize_controller.Platform.Conditions.{ready, reconciling}
use kustomize_controller.Platform.Services.{Platform}
use kustomize_controller.Run.{
  Act, leave, modify_conditions, modify_status, the_obj, ◌>>=◌, ◌>>◌, outcome, lift, ask,
}

-- `eventv1.EventSeverityInfo` and `eventv1.EventSeverityError`
pub data Severity : Type 0 where
  info_severity error_severity : Severity

abbrev severity_string : Severity → String
severity_string info_severity = "info"
severity_string error_severity = "error"

abbrev type_of_severity : Severity → EventType
type_of_severity info_severity = normal
type_of_severity error_severity = warning

-- `metadata[key] = value` if the value is not empty.
abbrev put_if : String → String → List (String × String) → List (String × String)
put_if key value m = if value == "" then m else put m key value

module _ (P : Platform) where
  -- The event that `event` hands to the recorder, for an object with the given Ready reason.
  unfoldable pub event_of :
      Option Source
      → String
      → String
      → Severity
      → Action
      → String
      → List (String × String)
      → String
      → Event
  event_of src revision origin severity action msg metadata ready_reason = record {
    source = src;
    metadata =
        put_if (group <> "/originRevision") origin
          (put_if (group <> "/revision") revision metadata);
    type = type_of_severity severity;
    reason = if ready_reason == "" then severity_string severity else ready_reason;
    action = action_string action;
    note = msg;
  }

  unfoldable pub event :
      Option Source
      → String
      → String
      → Severity
      → Action
      → String
      → List (String × String)
      → Act P.World (Unit {0})
  unfolding event_of
  event src revision origin severity action msg metadata = do
    k ← the_obj
    leave (
        emitted (
          event_of src revision origin severity action msg metadata
            (P.conditions.get_reason k.status.conditions ready)))

  abbrev pub mark_true : String → String → String → Act P.World (Unit {0})
  mark_true t reason text = modify_conditions (λ cs. P.conditions.mark_true cs t reason text)

  abbrev pub mark_false : String → String → String → Act P.World (Unit {0})
  mark_false t reason text = modify_conditions (λ cs. P.conditions.mark_false cs t reason text)

  abbrev pub mark_unknown : String → String → String → Act P.World (Unit {0})
  mark_unknown t reason text = modify_conditions (λ cs. P.conditions.mark_unknown cs t reason text)

  abbrev pub mark_reconciling : String → String → Act P.World (Unit {0})
  mark_reconciling reason text =
      modify_conditions (λ cs. P.conditions.mark_reconciling cs reason text)

  abbrev pub mark_stalled : String → String → Act P.World (Unit {0})
  mark_stalled reason text = modify_conditions (λ cs. P.conditions.mark_stalled cs reason text)

  abbrev pub delete_condition : String → Act P.World (Unit {0})
  delete_condition t = modify_conditions (λ cs. P.conditions.delete cs t)

  -- The error that `patch` returns for what the patcher returned.
  abbrev patch_error : Kustomization → Option Error → Option Error
  patch_error k none = none
  patch_error k (some e) =
      P.new_aggregate none
        (if is_some k.deletion_timestamp then P.filter_out_not_found e else some e)

  -- `patch`
  unfoldable pub patch : Act P.World (Unit {0})
  patch = do
    k ← the_obj
    leave (patched k)
    failure ← ask (P.patch_object k)
    lift (outcome (patch_error k failure))

  -- `finalizeStatus`: the value of the annotation that asks for a reconciliation.
  unfoldable pub handled_status : Kustomization → KustomizationStatus
  handled_status k = elim (P.reconcile_annotation_value k.annotations) [
    | none ↦ k.status
    | some v ↦ record k.status { last_handled_reconcile_at = v }
  ]

  -- The branch for a true Ready condition.
  unfoldable pub settled_status : ℤ → KustomizationStatus → KustomizationStatus
  settled_status generation t =
      if P.conditions.is_true t.conditions ready
      then record t {
        conditions = P.conditions.delete t.conditions reconciling;
        observed_generation = generation;
      }
      else t

  -- The branch for a reconciliation that failed and is tried again.
  unfoldable pub retried_status : KustomizationStatus → KustomizationStatus
  retried_status t =
      if P.conditions.is_false t.conditions ready && P.conditions.has t.conditions reconciling
      then (elim (P.conditions.get t.conditions reconciling) [
        | none ↦ t
        | some rc ↦ record t {
          conditions =
              P.conditions.set t.conditions (record rc { reason = "ProgressingWithRetry" });
        }
      ])
      else t

  -- The changes of `finalizeStatus` to the status.
  unfoldable pub finalized_status : Kustomization → KustomizationStatus
  unfolding handled_status settled_status retried_status
  finalized_status k = retried_status (settled_status k.generation (handled_status k))

  -- `finalizeStatus`
  unfoldable pub finalize_status : Act P.World (Unit {0})
  unfolding finalized_status patch
  finalize_status = do k ← the_obj; modify_status (λ _. finalized_status k); patch
