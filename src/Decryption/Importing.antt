-- ===== src/Decryption/Importing.antt =====
-- `ImportKeys` of internal/decryptor/decryptor.go.
pub mod Isolation
use kustomize_controller.Base.{
  String, ◌<>◌, ◌==◌, ◌≡◌, refl, Bool, if◌then◌else◌, Option, none, some, List, [], ◌∷◌, is_some,
  arith,
}
use kustomize_controller.Errors.{Error, Result, ok, err, wrapped, is_not_found, ◌>>=◌ as ◌then◌}
use kustomize_controller.Io.{
  Io, pure, raise, lift, on_error, wrap_error, ◌>>=◌, ◌>>◌, done, when, modify, get,
}
use kustomize_controller.Api.References.{NamespacedName}
use kustomize_controller.Api.Spec.{Decryption}
use kustomize_controller.KeyServices.{Credentials, static_credentials}
use kustomize_controller.KeyServices.Azure.{
  AadConfig, AzureCredential, token_credential_from_aad_config,
}
use kustomize_controller.Decryption.Credentials.{Decryptor}

-- The packages that the import calls, on a world with the keyrings.
pub record KeyPackages (W : Type 0) : Type 0 where
  -- the data of a Secret, in the order in which Go iterates over it
  pub get_secret : NamespacedName → Io W (List (String × String))
  -- `filepath.Ext`, `strings.TrimSpace` and `strings.Trim(s, "\n")`
  pub ext : String → String
  pub trim_space : String → String
  pub trim_newlines : String → String
  -- `gnuPGHome.Import`, for the directory
  pub import_pgp : String → String → Io W (Unit {0})
  -- `ageIdentities.Import`: the identities after it
  pub import_age : List String → String → Result (List String)
  -- the static credentials of AWS, `LoadAADConfigFromBytes`, the constructors of azidentity, and
  -- `google.CredentialsFromJSON`
  pub aws_credentials : String → Result String
  pub load_aad_config : String → Result AadConfig
  pub new_azure_credential : AzureCredential → Result String
  pub gcp_token_source : String → Result String
  pub show : NamespacedName → String

module _ {W : Type 0} (P : KeyPackages W) where
  -- The Decryptor and the world
  abbrev pub Importer : Type 0
  Importer = Decryptor × W

  abbrev pub in_world : {A : Type 0} → Io W A → Io Importer A
  in_world m (d, w) = let (r, w') = m w in (r, (d, w'))

  abbrev pub set : (Decryptor → Decryptor) → Io Importer (Unit {0})
  set f (d, w) = (ok tt, (f d, w))

  abbrev set_identities : Decryptor → W → Result (List String) → Result (Unit {0}) × Importer
  set_identities d w (err e) = (err e, (d, w))
  set_identities d w (ok ids) = (ok tt, (record d { age_identities = ids }, w))

  -- `d.ageIdentities.Import(string(value))`
  abbrev pub import_age_identities : String → Io Importer (Unit {0})
  import_age_identities value (d, w) = set_identities d w (P.import_age d.age_identities value)

  abbrev import_home : String → Io Importer (Unit {0})
  import_home value (d, w) = in_world (P.import_pgp d.gnupg_home value) (d, w)

  abbrev failed : String → String → Error → Io Importer (Unit {0})
  failed name secret e = raise (
      wrapped
        ("failed to import '" <> name <> "' data from sops decryption Secret '" <> secret <> "': ")
        e)

  abbrev or_failed : String → String → Io Importer (Unit {0}) → Io Importer (Unit {0})
  or_failed name secret m = on_error m (failed name secret)

  -- The Azure credential of an authentication file
  abbrev azure_credential : String → Result String
  azure_credential value = P.load_aad_config value then λ config.
      token_credential_from_aad_config config then P.new_azure_credential

  -- One entry of the Secret that the Kustomization refers to
  unfoldable pub import_entry : String → String → String → Io Importer (Unit {0})
  unfolding token_credential_from_aad_config
  import_entry secret name value =
      if P.ext name == ".asc"
      then or_failed name secret (import_home value)
      else if P.ext name == ".agekey"
      then or_failed name secret (import_age_identities value)
      else if P.ext name == P.ext "sops.vault-token"
      then when (name == "sops.vault-token")
          (set (λ d. record d { vault_token = P.trim_newlines (P.trim_space value) }))
      else if P.ext name == P.ext "sops.aws-kms"
      then when (name == "sops.aws-kms") (
          or_failed name secret (
            lift (P.aws_credentials value) >>= λ c.
            set
              (λ d. record d { aws_credentials_provider = some (λ region. static_credentials c) })))
      else if P.ext name == P.ext "sops.azure-kv"
      then when (name == "sops.azure-kv") (
          or_failed name secret (
            lift (azure_credential value) >>= λ c.
            set (λ d. record d { azure_token_credential = some (static_credentials c) })))
      else if P.ext name == P.ext "sops.gcp-kms"
      then when (name == "sops.gcp-kms") (
          or_failed name secret (
            lift (P.gcp_token_source (P.trim_newlines value)) >>= λ c.
            set (λ d. record d { gcp_token_source = some (static_credentials c) })))
      else done

  -- The loop over its data
  unfoldable pub import_entries : String → List (String × String) → Io Importer (Unit {0})
  unfolding import_entry
  import_entries secret [] = done
  import_entries secret ((name, value) ∷ rest) =
      import_entry secret name value >> import_entries secret rest

  -- The loop over the data of the global Secret, which imports age identities only
  unfoldable pub import_global : String → List (String × String) → Io Importer (Unit {0})
  import_global secret [] = done
  import_global secret ((name, value) ∷ rest) =
      when (P.ext name == ".agekey") (
        on_error (import_age_identities value) (λ e. raise (
          wrapped
            ("failed to import '" <> name <> "' data from sops SOPS age decryption Secret '"
              <> secret <> "': ")
            e)))
      >> import_global secret rest

  -- `d.client.Get(ctx, name, &secret)`
  abbrev fetch : String → NamespacedName → Io Importer (List (String × String))
  fetch kind name = on_error (in_world (P.get_secret name)) (λ e.
      if is_not_found e
      then raise e
      else raise
          (wrapped ("cannot get sops " <> kind <> "decryption Secret '" <> P.show name <> "': ") e))

  abbrev import_from : String → Option String → Option NamespacedName → Io Importer (Unit {0})
  import_from namespace none none = done
  import_from namespace none (some global) =
      fetch "SOPS age " global >>= import_global (P.show global)
  import_from namespace (some name) global =
      let secret : NamespacedName = record { namespace = namespace; name = name } in
      fetch "" secret >>= import_entries (P.show secret)

  abbrev import_for : String → Option Decryption → Option NamespacedName → Io Importer (Unit {0})
  import_for namespace none global = done
  import_for namespace (some spec) global =
      if spec.provider == "sops" then import_from namespace spec.secret_ref global else done

  -- `ImportKeys(ctx)`, for a Kustomization in the namespace with this `spec.decryption`
  unfoldable pub import_keys : String → Option Decryption → Io Importer (Unit {0})
  unfolding import_entries import_global
  import_keys namespace spec (d, w) = import_for namespace spec d.sops_age_secret (d, w)
