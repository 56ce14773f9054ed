-- ===== src/Controller/Building.antt =====
-- `build` and `maskSecretValues` of internal/controller/kustomization_controller.go. The decryptor,
-- kustomize and the variable substitution stand behind `BuildServices`.
use kustomize_controller.Base.{
  String, ◌<>◌, ◌==◌, ◌||◌, Bool, not, Option, none, some, List, [], ◌∷◌, is_empty, is_some,
  if◌then◌else◌,
}
use kustomize_controller.Errors.{Error, Result, ok, err, text_error, message}
use kustomize_controller.Api.Object.{Kustomization}
use kustomize_controller.Api.Defaults.{get_substitute_strategy, always}
use kustomize_controller.Platform.Services.{Platform}
use kustomize_controller.Run.{Act, pure, raise, call, run, lift, gets, wrap_error, ◌>>=◌, ◌>>◌}
use kustomize_controller.Controller.Config.{KustomizationReconciler}

-- `decryptor.Option`s; the pairs are a name and a namespace.
pub record DecryptorOptions : Type 0 where
  pub root : String
  pub token_cache : Bool
  pub spiffe_broker : Bool
  pub default_service_account : Option String
  pub sops_age_secret : Option (String × String)
  pub vault_config_map : Option (String × String)

-- The decryptor of internal/decryptor, `generator.SecureBuild`, `generator.SubstituteVariables` and
-- the resource map of kustomize.
pub record BuildServices (W StructMap : Type 0) : Type 1 where
  pub Resource : Type 0
  pub ResMap : Type 0
  pub Decryptor : Type 0
  -- `decryptor.New`, `cleanup`, `ImportKeys`, `SetAuthOptions`, `DecryptSources`
  pub new_decryptor : Kustomization → DecryptorOptions → W → Result Decryptor × W
  pub cleanup : Decryptor → W → W
  pub import_keys : Decryptor → W → Result Decryptor × W
  pub set_auth_options : Decryptor → W → Result Decryptor × W
  pub decrypt_sources : Decryptor → String → W → Option Error × W
  -- `DecryptResource` and `SubstituteVariables` change the resource in place and return it, or
  -- return nil if they leave it as it is: the resource after the call, or none; the latter with the
  -- variables that it hands to the collector of Secret values
  pub decrypt_resource : Decryptor → Resource → W → Result (Option Resource) × W
  pub substitute_variables :
      StructMap → Resource → Bool → Bool → W → Result (Option Resource × List (String × String)) × W
  pub secure_build : String → String → Bool → W → Result ResMap × W
  pub resources : ResMap → List Resource
  pub get_name : Resource → String
  pub get_kind : Resource → String
  pub get_api_version : Resource → String
  pub get_gvk : Resource → String
  pub resource_string : Resource → String
  pub replace : ResMap → Resource → Result ResMap
  pub as_yaml : ResMap → Result String

-- A Secret or a ConfigMap of the controller's own namespace, if both are set.
abbrev named_in : String → String → Option (String × String)
named_in name ns = if name == "" || ns == "" then none else some (name, ns)

module _ (P : Platform) where
  -- The loop of `maskSecretValues`.
  unfoldable pub mask_values : List (String × String) → String → String
  mask_values [] msg = msg
  mask_values ((_, v) ∷ vars) msg =
      mask_values vars
        (if v == "" then msg else elim (P.mask_token msg v) [ ok masked ↦ masked | err e ↦ msg ])

  -- `maskSecretValues` of an error that is not nil
  unfoldable pub mask_secret_values : Error → List (String × String) → Error
  unfolding mask_values
  mask_secret_values e vars = if is_empty vars then e else text_error (mask_values vars (message e))

-- `vars[name] = value`, in a map whose names stand once each
unfoldable pub assign : List (String × String) → String → String → List (String × String)
assign [] name value = (name, value) ∷ []
assign ((other, old) ∷ vars) name value =
    let rest = assign vars name value in
    if other == name then (name, value) ∷ vars else (other, old) ∷ rest

module _ (P : Platform) (B : BuildServices P.World P.StructMap) where
  open B use {Resource, ResMap, Decryptor}

  unfoldable pub decryptor_options : KustomizationReconciler → String → String → DecryptorOptions
  decryptor_options r work_dir runtime_namespace = record {
    root = work_dir;
    token_cache = r.token_cache;
    spiffe_broker = r.spiffe_broker;
    default_service_account =
        if r.default_decryption_service_account == ""
        then none
        else some r.default_decryption_service_account;
    sops_age_secret = named_in r.sops_age_secret runtime_namespace;
    vault_config_map = named_in r.sops_vault_config_map runtime_namespace;
  }

  -- `m.Replace(res)`, if the call has changed the resource.
  abbrev replace_if : ResMap → Option Resource → Act P.World ResMap
  replace_if m none = pure m
  replace_if m (some res) = lift (B.replace m res)

  abbrev or_same : Resource → Option Resource → Resource
  or_same res none = res
  or_same res (some changed) = changed

  abbrev resource_title : Resource → String
  resource_title res = B.get_gvk res <> ("/" <> (B.get_name res <> "': "))

  -- `if obj.Spec.Decryption != nil`
  unfoldable pub decrypt_step :
      Kustomization → Decryptor → ResMap → Resource → Act P.World (ResMap × Resource)
  decrypt_step k dec m res =
      if is_some k.spec.decryption
      then (do
        out ←
            wrap_error ("decryption failed for '" <> resource_title res)
              (call (B.decrypt_resource dec res))
        m' ← replace_if m out
        pure (m', or_same res out))
      else pure (m, res)

  -- `if obj.Spec.PostBuild != nil`
  unfoldable pub substitute_step :
      KustomizationReconciler
      → Kustomization
      → P.StructMap
      → ResMap
      → Resource
      → Act P.World (ResMap × List (String × String))
  substitute_step r k u m res =
      if is_some k.spec.post_build
      then (do
        answer ← wrap_error ("post build failed for '" <> resource_title res) (
            call (
              B.substitute_variables u res r.strict_substitutions
                (get_substitute_strategy k == always)))
        m' ← replace_if m answer.0
        pure (m', answer.1))
      else pure (m, [])

  -- The collector of the variables from Secrets, which `reconcile` registers: a later value of a
  -- variable replaces the earlier one.
  unfoldable pub collect : List (String × String) → List (String × String) → List (String × String)
  unfolding assign
  collect vars [] = vars
  collect vars ((name, value) ∷ more) = collect (assign vars name value) more

  -- The loop over the resources of the build, with the variables collected so far.
  unfoldable pub build_each :
      KustomizationReconciler
      → Kustomization
      → P.StructMap
      → Decryptor
      → List Resource
      → ResMap
      → List (String × String)
      → Act P.World (ResMap × List (String × String))
  unfolding decrypt_step substitute_step collect
  build_each r k u dec [] m vars = pure (m, vars)
  build_each r k u dec (res ∷ rest) m vars =
      if B.get_name res == "" || (B.get_kind res == "" || B.get_api_version res == "")
      then raise (
          text_error (
            "failed to decode Kubernetes apiVersion, kind and name from: "
            <> B.resource_string res))
      else do
        decrypted ← decrypt_step k dec m res
        substituted ← substitute_step r k u decrypted.0 decrypted.1
        build_each r k u dec rest substituted.0 (collect vars substituted.1)

  -- `build` under a decryptor: the YAML and the variables that were read from Secrets.
  unfoldable pub build_with :
      KustomizationReconciler
      → Kustomization
      → P.StructMap
      → String
      → String
      → Decryptor
      → Act P.World (String × List (String × String))
  unfolding build_each
  build_with r k u work_dir dir_path fresh = do
    keyed ← call (B.import_keys fresh)
    dec ← call (B.set_auth_options keyed)
    wrap_error "error decrypting sources: " (run (B.decrypt_sources dec dir_path))
    m ←
        wrap_error "kustomize build failed: "
          (call (B.secure_build work_dir dir_path (not r.no_remote_bases)))
    built ← build_each r k u dec (B.resources m) m []
    yaml ← wrap_error "kustomize build failed: " (lift (B.as_yaml built.0))
    pure (yaml, built.1)

  -- The deferred cleanup of the decryptor.
  unfoldable pub with_decryptor :
      Decryptor
      → Act P.World (String × List (String × String))
      → Act P.World (String × List (String × String))
  with_decryptor dec m s =
      let (answer, t) = m s in (answer, record t { world = B.cleanup dec t.world })

  -- `build`
  unfoldable pub build :
      KustomizationReconciler
      → Kustomization
      → P.StructMap
      → String
      → String
      → Act P.World (String × List (String × String))
  unfolding build_with decryptor_options with_decryptor
  build r k u work_dir dir_path = do
    ns ← gets (λ s. P.getenv "RUNTIME_NAMESPACE" s.world)
    dec ← call (B.new_decryptor k (decryptor_options r work_dir ns))
    with_decryptor dec (build_with r k u work_dir dir_path dec)
