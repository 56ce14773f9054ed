-- ===== src/Controller/Applying.antt =====
-- `apply` of internal/controller/kustomization_controller.go and `HasChanged` of
-- internal/controller/utils.go.
pub mod Options
use kustomize_controller.Base.{
  String, ◌<>◌, ◌==◌, ◌&&◌, Bool, not, Option, none, some, List, [], ◌∷◌, ◌++◌, is_empty, lookup,
  text_or_empty, true, false, if◌then◌else◌,
}
use kustomize_controller.Base.Text.{equal_fold, trim_newline}
use kustomize_controller.Errors.{Error, Result, ok, err, followed, text_error, message}
use kustomize_controller.Api.Spec.{CommonMetadata}
use kustomize_controller.Api.Object.{Kustomization, group, disabled_value}
use kustomize_controller.Api.Actions.{Action}
use kustomize_controller.Inventory.Packages.{
  Unstructured, ChangeSet, ChangeSetEntry, ApplyAction, unchanged, skipped,
}
use kustomize_controller.Platform.Values.{Source, Effect}
use kustomize_controller.Platform.Services.{Platform}
use kustomize_controller.Run.{Act, leave, pure, raise, done, ask, lift, when, ◌>>=◌, ◌>>◌}
use kustomize_controller.Controller.Config.{KustomizationReconciler}
use kustomize_controller.Controller.Status.{event, info_severity}
use kustomize_controller.Decryption.Secrets.{is_decryption_disabled, is_encrypted_secret}
use Options.{apply_options}

-- `HasChanged`
unfoldable pub has_changed : ApplyAction → Bool
has_changed skipped = false
has_changed unchanged = false
has_changed _ = true

module _ (P : Platform) where
  -- The loop over the objects that looks for encrypted Secrets.
  unfoldable pub check_encrypted : List Unstructured → Result (Unit {0})
  unfolding is_encrypted_secret is_decryption_disabled
  check_encrypted [] = ok tt
  check_encrypted (u ∷ us) =
      let rest = check_encrypted us in
      if is_encrypted_secret u && not (is_decryption_disabled u.annotations)
      then err (
          text_error (
            P.format_object u
            <> " is SOPS encrypted, configuring decryption is required for this secret to be reconciled"))
      else rest

  -- `changeSetLog`: a line for each entry that has changed.
  unfoldable pub change_log : List ChangeSetEntry → String
  unfolding has_changed
  change_log [] = ""
  change_log (e ∷ es) =
      let rest = change_log es in
      if has_changed e.action then P.entry_string e <> ("\n" <> rest) else rest

  abbrev pub entries_of : Option ChangeSet → List ChangeSetEntry
  entries_of none = []
  entries_of (some set) = set.entries

  abbrev pub with_common_metadata : Option CommonMetadata → List Unstructured → List Unstructured
  with_common_metadata none objects = objects
  with_common_metadata (some m) objects = P.set_common_metadata objects m.labels m.annotations

  -- The branch for a list of objects that is not empty: the entries of the change set.
  unfoldable pub apply_objects :
      KustomizationReconciler
      → Kustomization
      → P.Client × P.Poller
      → List Unstructured
      → Act P.World (List ChangeSetEntry)
  unfolding change_log apply_options
  apply_objects r k (client, poller) objects = do
    let options = apply_options r k
    answer ← ask (P.apply_all_staged client poller objects options)
    leave (Effect.applied objects options answer.0 answer.1)
    elim answer.1 [
      | none ↦ pure (entries_of answer.0)
      | some e ↦ raise (followed e ("\n" <> change_log (entries_of answer.0)))
    ]

  -- `apply`: whether something changed, and the result set.
  unfoldable pub apply :
      KustomizationReconciler
      → Kustomization
      → P.Client × P.Poller
      → Option Source
      → String
      → String
      → List Unstructured
      → Act P.World (Bool × ChangeSet)
  unfolding check_encrypted apply_objects change_log event
  apply r k client src revision origin objects = do
    normalized ← lift (P.normalize objects)
    let labelled = with_common_metadata k.spec.common_metadata normalized
    lift (check_encrypted labelled)
    entries ← if is_empty labelled then pure [] else apply_objects r k client labelled
    let apply_log = trim_newline (change_log entries)
    let is_changed = not (apply_log == "")
    when is_changed (event P src revision origin info_severity Action.apply apply_log [])
    pure (is_changed, record { entries = entries })
