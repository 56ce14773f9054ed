-- ===== src/Samples/Conditions.antt =====
-- An instance of the conditions package: a list with one condition of each type.
use kustomize_controller.Base.{
  String, ◌≡◌, sym, ◌==◌, ◌↔◌, Bool, true, false, Option, none, some, is_some, List, [], ◌∷◌, arith,
  eq_iff, if◌then◌else◌,
}
use kustomize_controller.Api.Object.{
  Condition, ConditionStatus, true_status, false_status, unknown_status,
}
use kustomize_controller.Platform.Conditions.{
  ConditionPackage, IsLawful, ready, reconciling, stalled, status_of,
}

abbrev find : List Condition → String → Option Condition
find [] t = none
find (c ∷ cs) t = if c.type == t then some c else find cs t

abbrev remove : List Condition → String → List Condition
remove [] t = []
remove (c ∷ cs) t = let rest = remove cs t in if c.type == t then rest else c ∷ rest

abbrev replace : List Condition → Condition → List Condition
replace cs c = c ∷ remove cs c.type

abbrev mark : ConditionStatus → List Condition → String → String → String → List Condition
mark b cs t reason text =
    replace cs (record { type = t; status = b; reason = reason; message = text })

abbrev test : ConditionStatus → Option Condition → Bool
test true_status (some (c)) = elim c.status [ true_status ↦ true | _ ↦ false ]
test false_status (some c) = elim c.status [ false_status ↦ true | _ ↦ false ]
test unknown_status (some c) = elim c.status [ unknown_status ↦ true | _ ↦ false ]
test b none = false

abbrev reason_of : Option Condition → String
reason_of none = ""
reason_of (some c) = c.reason

abbrev pub sample_conditions : ConditionPackage
sample_conditions = record {
  get = find;
  set = replace;
  delete = remove;
  mark_true = mark true_status;
  mark_false = mark false_status;
  mark_unknown = mark unknown_status;
  mark_reconciling = λ cs reason text. remove (mark true_status cs reconciling reason text) stalled;
  mark_stalled = λ cs reason text. remove (mark true_status cs stalled reason text) reconciling;
  is_ready = λ cs. test true_status (find cs ready);
  is_reconciling = λ cs. test true_status (find cs reconciling);
  is_status_condition_true = λ cs t. test true_status (find cs t);
  is_true = λ cs t. test true_status (find cs t);
  is_false = λ cs t. test false_status (find cs t);
  has = λ cs t. is_some (find cs t);
  get_reason = λ cs t. reason_of (find cs t);
}

find-remove :
    (cs : List Condition) (t u : String)
    → find (remove cs t) u ≡ (if t == u then none else find cs u)
find-remove [] t u = ground arith
find-remove (c ∷ cs) t u =
    ground (arith, find-remove cs t u, eq_iff c.type t, eq_iff c.type u, eq_iff t u)

type-find : (cs : List Condition) (t : String) (c : Condition) → find cs t ≡ some c → c.type ≡ t
type-find [] t c h = ground arith
type-find (d ∷ cs) t c h = ground (arith, type-find cs t c, eq_iff d.type t)

find-replace :
    (cs : List Condition) (c : Condition) (u : String)
    → status_of (find (replace cs c) u)
      ≡ (if c.type == u then some c.status else status_of (find cs u))
find-replace cs c u = ground (arith, find-remove cs c.type u)

find-moved :
    (cs : List Condition) (c : Condition) (t u : String)
    → (c.type ≡ u → ⊥)
    → (t ≡ u → ⊥)
    → status_of (find (remove (replace cs c) t) u) ≡ status_of (find cs u)
find-moved cs c t u a b =
    ground
      (arith, find-remove (replace cs c) t u, find-remove cs c.type u, eq_iff c.type u, eq_iff t u)

test_iff : (b : ConditionStatus) (o : Option Condition) → (test b o ≡ true) ↔ (status_of o ≡ some b)
test_iff true_status none = ground arith
test_iff false_status none = ground arith
test_iff unknown_status none = ground arith
test_iff true_status (some c) = ground arith
test_iff false_status (some c) = ground arith
test_iff unknown_status (some c) = ground arith

pub sample_conditions-IsLawful : IsLawful sample_conditions
sample_conditions-IsLawful = record {
  status-mark_true = λ cs t reason text. find-replace cs _;
  status-mark_false = λ cs t reason text. find-replace cs _;
  status-mark_unknown = λ cs t reason text. find-replace cs _;
  status-mark_reconciling =
      λ cs reason text u a b. find-moved cs _ stalled u (λ e. a (sym e)) (λ e. b (sym e));
  status-mark_stalled =
      λ cs reason text u a b. find-moved cs _ reconciling u (λ e. b (sym e)) (λ e. a (sym e));
  mark_stalled_lem = λ cs reason text. ground (
    arith,
    find-remove (mark true_status cs stalled reason text) reconciling stalled,
    eq_iff reconciling stalled,
    eq_iff stalled stalled,
  );
  status-delete = λ cs t u. ground (arith, find-remove cs t u);
  status-set = λ cs c u. find-replace cs c u;
  type-get = type-find;
  is_true_iff = λ cs t. test_iff true_status (find cs t);
  is_false_iff = λ cs t. test_iff false_status (find cs t);
}
