-- ===== src/Controller/Tracking/Accounts.antt =====
-- The objects that the inventory of a Kustomization or the calls of `DeleteAll` account for, in runs of
-- internal/controller/kustomization_controller.go.
use kustomize_controller.Base.{
  ◌⊎◌, String, ◌≡◌, true, Option, none, some, List, [], ◌∷◌, arith, contains, In, All, any,
}
use kustomize_controller.Errors.{Error}
use kustomize_controller.Api.Inventory.{ResourceInventory}
use kustomize_controller.Inventory.Packages.{ObjectPackages, Unstructured, ChangeSet}
use kustomize_controller.Inventory.Parsing.{IsCanonical}
use kustomize_controller.Inventory.Canonical.{ObjectIsCanonical, merge-IsCanonical}
use kustomize_controller.Platform.Services.{Platform}
use kustomize_controller.Run.{Act, State}
use kustomize_controller.Run.Frames.{Leads}
use kustomize_controller.Controller.Garbage.{unsettled, settled_ids, prune_survivors}
use kustomize_controller.Controller.Retracking.{tracked_ids, inventory_after}
use kustomize_controller.Controller.Framing.Parts.{held, held-deletions, held-inventory, Holds}
use kustomize_controller.Controller.Reconciling.Steps.{inventory_or_new}
use kustomize_controller.Controller.Tracking.Changes.{releases, any-releases-deletions}

-- The entries of a status.
abbrev pub CanonicalStatus : ObjectPackages → Option ResourceInventory → Type 0
CanonicalStatus P inv = All (IsCanonical P) (inventory_or_new inv).entries

module _ (P : ObjectPackages) where
  In-unsettled :
      (settled : List String) (us : List Unstructured) (u : Unstructured)
      → In u (unsettled P settled us)
      → In u us
  unfolding unsettled
  In-unsettled settled [] u i = i
  In-unsettled settled (v ∷ us) u i = ground (arith, In-unsettled settled us u)

  In-prune_survivors :
      (us : List Unstructured) (set : Option ChangeSet) (u : Unstructured)
      → In u (prune_survivors P us set)
      → In u us
  unfolding prune_survivors
  In-prune_survivors [] set u i = i
  In-prune_survivors (v ∷ us) set u i = In-unsettled (settled_ids P set) (v ∷ us) u i

  pub inventory_after-CanonicalStatus :
      (tracked : ResourceInventory) (stale : List Unstructured)
      (answer : Option ChangeSet × Option Error)
      → ((u : Unstructured) → In u stale → ObjectIsCanonical P u)
      → All (IsCanonical P) tracked.entries
      → CanonicalStatus P (inventory_after P (some tracked) stale answer)
  inventory_after-CanonicalStatus tracked stale (set, none) h c = c
  inventory_after-CanonicalStatus tracked stale (set, some e) h c =
      let (result, e, canonical) =
        merge-IsCanonical P tracked (prune_survivors P stale set)
          (λ u i. h u (In-prune_survivors stale set u i)) c in
      rw e canonical

module _ (P : Platform) (k : String) where
  -- The identifier is tracked, or an object with it has been released, and all identifiers that are
  -- tracked can be read back.
  abbrev pub Accounted : State P.World → Type 0
  Accounted t =
      ((contains (tracked_ids t.obj.status.inventory) k ≡ true)
        ⊎ (any (releases P.objects k) t.trace ≡ true))
      × CanonicalStatus P.objects t.obj.status.inventory

  pub Accounted-held : (s t : State P.World) → held P t ≡ held P s → Accounted s → Accounted t
  Accounted-held s t h (a, c) =
      let traces : any (releases P.objects k) t.trace ≡ any (releases P.objects k) s.trace = rw (
        ← any-releases-deletions P.objects k t.trace,
        ← any-releases-deletions P.objects k s.trace,
        held-deletions P s t h,
      ) in
      rw (held-inventory P s t h, traces) (a, c)

  pub Holds-Accounted : {A : Type 0} (m : Act P.World A) → Holds P m → Leads Accounted Accounted m
  Holds-Accounted m h = record { leads = λ s. Accounted-held s (m s).1 (h.keeps s) }
