-- ===== src/Controller/Traces.antt =====
-- Tests on what a reconciliation has done (internal/controller/kustomization_controller.go).
use kustomize_controller.Base.{List, [], ◌∷◌, if◌then◌else◌, Bool, true, false, any, ◌&&◌, not}
use kustomize_controller.Api.Object.{Kustomization}
use kustomize_controller.Inventory.Packages.{Unstructured}
use kustomize_controller.Platform.Values.{Effect}
use kustomize_controller.Decryption.Secrets.{is_encrypted_secret, is_decryption_disabled}
use kustomize_controller.Controller.Health.{is_self}

-- A call that deletes objects.
abbrev pub is_deletion : Effect → Bool
is_deletion e = elim e [ Effect.deleted objects options set failure ↦ true | _ ↦ false ]

-- The deletions of a trace.
unfoldable pub deletions : List Effect → List Effect
deletions [] = []
deletions (e ∷ es) = let rest = deletions es in if is_deletion e then e ∷ rest else rest

-- A call that applies objects.
abbrev pub is_apply : Effect → Bool
is_apply e = elim e [ Effect.applied objects options set failure ↦ true | _ ↦ false ]

-- An encrypted Secret that does not ask to be left so.
abbrev pub is_unprotected : Unstructured → Bool
is_unprotected u = is_encrypted_secret u && not (is_decryption_disabled u.annotations)

-- A call that applies such a Secret.
abbrev pub leaks_secret : Effect → Bool
leaks_secret e = elim e [
  | Effect.applied objects options set failure ↦ any is_unprotected objects
  | _ ↦ false
]

-- A call that waits for the Kustomization itself.
abbrev pub waits_for_self : Kustomization → Effect → Bool
waits_for_self k e = elim e [
  | Effect.waited objects options failure ↦ any (is_self k) objects
  | _ ↦ false
]
