-- ===== src/Samples/Packages.antt =====
-- An instance of the packages of internal/inventory: all identifiers are those of ConfigMaps in one
-- namespace, and sets are lists.
use kustomize_controller.Base.{
  String, ◌≡◌, refl, sym, ◌==◌, ◌&&◌, ◌↔◌, Bool, true, List, [], ◌∷◌, any, In, inl, inr, arith,
  eq_iff, if◌then◌else◌, Bool-cases,
}
use mathlib.Core.Path.{subst}
use kustomize_controller.Errors.{Result, ok, err, text_error}
use kustomize_controller.Inventory.Packages.{ObjectPackages, ObjMetadata, IsLawful}

abbrev eq_metadata : ObjMetadata → ObjMetadata → Bool
eq_metadata m n =
    m.namespace == n.namespace
    && (m.name == n.name
        && (m.group_kind.group == n.group_kind.group && m.group_kind.kind == n.group_kind.kind))

eq_metadata_iff : (m n : ObjMetadata) → (eq_metadata m n ≡ true) ↔ (m ≡ n)
eq_metadata_iff m n = ground (
  arith,
  eq_iff m.namespace n.namespace,
  eq_iff m.name n.name,
  eq_iff m.group_kind.group n.group_kind.group,
  eq_iff m.group_kind.kind n.group_kind.kind,
)

member_iff : (m : ObjMetadata) (b : List ObjMetadata) → (any (eq_metadata m) b ≡ true) ↔ In m b
member_iff m [] = ground arith
member_iff m (n ∷ b) = ground (arith, eq_metadata_iff m n, member_iff m b)

abbrev difference : List ObjMetadata → List ObjMetadata → List ObjMetadata
difference [] b = []
difference (m ∷ a) b = let rest = difference a b in if any (eq_metadata m) b then rest else m ∷ rest

In-difference :
    (m : ObjMetadata) (a b : List ObjMetadata) → In m (difference a b) ↔ (In m a × ¬ In m b)
In-difference m [] b = (λ i. absurd i, λ i. absurd i.0)
In-difference m (n ∷ a) b = elim (Bool-cases (any (eq_metadata n) b)) [
  | inl old ↦ rw old (
    λ i. let (j, f) = (In-difference m a b).0 i in (inr j, f),
    λ (i, f). elim i [
      | inl e ↦ absurd (f (subst (λ x. In x b) (sym e) ((member_iff n b).0 old)))
      | inr j ↦ (In-difference m a b).1 (j, f)
    ],
  )
  | inr new ↦ rw new (
    λ i. elim i [
      | inl e ↦ (inl e, λ j. ground (arith, new, (member_iff n b).1 (subst (λ x. In x b) e j)))
      | inr j ↦ let (k, f) = (In-difference m a b).0 j in (inr k, f)
    ],
    λ (i, f). elim i [ inl e ↦ inl e | inr j ↦ inr ((In-difference m a b).1 (j, f)) ],
  )
]

-- Only the name is kept: the identifiers are those of ConfigMaps in `apps`.
abbrev pub config_map : String → ObjMetadata
config_map name = record {
  namespace = "apps";
  name = name;
  group_kind = record { group = ""; kind = "ConfigMap" };
}

abbrev parse : String → Result ObjMetadata
parse id = if id == "" then err (text_error "unable to parse") else ok (config_map id)

abbrev pub sample_packages : ObjectPackages
sample_packages = record {
  metadata_string = λ m. m.name;
  parse_metadata = parse;
  to_metadata = λ u. record {
    namespace = u.namespace;
    name = u.name;
    group_kind = record { group = u.group; kind = u.kind };
  };
  set_diff = difference;
  sort_objects = λ us. us;
  parse_group_version = λ v. ok (record { group = v; version = "v1" });
}

pub sample_packages-IsLawful : IsLawful sample_packages
sample_packages-IsLawful = record {
  to_metadata_fields = λ u. refl;
  In-set_diff = In-difference;
  In-sort_objects = λ u us. (λ i. i, λ i. i);
}
