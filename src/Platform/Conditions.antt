-- ===== src/Platform/Conditions.antt =====
-- `fluxcd/pkg/runtime/conditions` and the test of `apimachinery/pkg/api/meta`, over the conditions
-- of an object's status.
use kustomize_controller.Base.{
  String, ◌≡◌, ◌≢◌, ◌↔◌, ◌==◌, Bool, true, Option, none, some, List, if◌then◌else◌,
}
use kustomize_controller.Api.Object.{
  Condition, ConditionStatus, true_status, false_status, unknown_status,
}

-- The condition types and reasons that the controller writes (fluxcd/pkg/apis/meta).
abbrev pub ready : String
ready = "Ready"

abbrev pub reconciling : String
reconciling = "Reconciling"

abbrev pub stalled : String
stalled = "Stalled"

abbrev pub healthy : String
healthy = "Healthy"

pub record ConditionPackage : Type 0 where
  -- `Get`, `Set`, `Delete`
  pub get : List Condition → String → Option Condition
  pub set : List Condition → Condition → List Condition
  pub delete : List Condition → String → List Condition
  -- `MarkTrue`, `MarkFalse`, `MarkUnknown`: type, reason and message
  pub mark_true : List Condition → String → String → String → List Condition
  pub mark_false : List Condition → String → String → String → List Condition
  pub mark_unknown : List Condition → String → String → String → List Condition
  -- `MarkReconciling`, `MarkStalled`: reason and message
  pub mark_reconciling : List Condition → String → String → List Condition
  pub mark_stalled : List Condition → String → String → List Condition
  -- `IsReady`, `IsReconciling`
  pub is_ready : List Condition → Bool
  pub is_reconciling : List Condition → Bool
  -- `apimeta.IsStatusConditionTrue`
  pub is_status_condition_true : List Condition → String → Bool
  -- `IsTrue`, `IsFalse`, `Has`, `GetReason`
  pub is_true : List Condition → String → Bool
  pub is_false : List Condition → String → Bool
  pub has : List Condition → String → Bool
  pub get_reason : List Condition → String → String

abbrev pub status_of : Option Condition → Option ConditionStatus
status_of none = none
status_of (some c) = some c.status

-- The status of a type, if the condition is there.
abbrev pub status : ConditionPackage → List Condition → String → Option ConditionStatus
status C cs t = status_of (C.get cs t)

-- What the code relies on. A mark of a type sets its status and leaves those of the other types as
-- they are; those of `Reconciling` and `Stalled` leave all types but these two, and `MarkStalled`
-- makes `Stalled` true.
pub record IsLawful (C : ConditionPackage) : Type 0 where
  pub status-mark_true :
      (cs : List Condition) (t reason text u : String)
      → status C (C.mark_true cs t reason text) u
        ≡ (if t == u then some true_status else status C cs u)
  pub status-mark_false :
      (cs : List Condition) (t reason text u : String)
      → status C (C.mark_false cs t reason text) u
        ≡ (if t == u then some false_status else status C cs u)
  pub status-mark_unknown :
      (cs : List Condition) (t reason text u : String)
      → status C (C.mark_unknown cs t reason text) u
        ≡ (if t == u then some unknown_status else status C cs u)
  pub status-mark_reconciling :
      (cs : List Condition) (reason text u : String)
      → u ≢ reconciling
      → u ≢ stalled
      → status C (C.mark_reconciling cs reason text) u ≡ status C cs u
  pub status-mark_stalled :
      (cs : List Condition) (reason text u : String)
      → u ≢ reconciling
      → u ≢ stalled
      → status C (C.mark_stalled cs reason text) u ≡ status C cs u
  pub mark_stalled_lem :
      (cs : List Condition) (reason text : String)
      → status C (C.mark_stalled cs reason text) stalled ≡ some true_status
  pub status-delete :
      (cs : List Condition) (t u : String)
      → status C (C.delete cs t) u ≡ (if t == u then none else status C cs u)
  pub status-set :
      (cs : List Condition) (c : Condition) (u : String)
      → status C (C.set cs c) u ≡ (if c.type == u then some c.status else status C cs u)
  pub type-get :
      (cs : List Condition) (t : String) (c : Condition) → C.get cs t ≡ some c → c.type ≡ t
  pub is_true_iff :
      (cs : List Condition) (t : String)
      → (C.is_true cs t ≡ true) ↔ (status C cs t ≡ some true_status)
  pub is_false_iff :
      (cs : List Condition) (t : String)
      → (C.is_false cs t ≡ true) ↔ (status C cs t ≡ some false_status)
