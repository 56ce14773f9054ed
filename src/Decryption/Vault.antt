-- ===== src/Decryption/Vault.antt =====
-- internal/decryptor/transit_engine.go: Vault tokens by login with a ServiceAccount token.
pub mod Caching
pub mod Subjects
use kustomize_controller.Base.{
  String, ◌<>◌, ◌==◌, Bool, true, false, if◌then◌else◌, not, ◌&&◌, Option, none, some, List, [],
  ◌∷◌, lookup, put, text_or_empty, is_empty, is_some,
}
use kustomize_controller.Base.Cutting.{cut, cut_prefix, split_at_char}
use kustomize_controller.Errors.{Error, Result, ok, err, wrapped, text_error, ◌>>=◌ as ◌then◌}
use kustomize_controller.Io.{Io, pure, raise, lift, on_error, wrap_error, ◌>>=◌}
use kustomize_controller.Api.References.{NamespacedName}

-- `kustomizev1.VaultInstance`
pub record VaultInstance : Type 0 where
  pub address : String
  pub login_path : String

-- `auth.AccessCredential`: the token of a JWT credential, or another type of credential
pub data AccessCredential : Type 0 where
  jwt other_credential : String → AccessCredential

-- `cryptov1.TransitEngineSpec`
pub record TransitEngineSpec : Type 0 where
  pub login_path : String
  pub role : String

-- `cryptov1.Spec`: whether `Auth` is set, its credential's audiences and its transit engine
pub record AuthSpec : Type 0 where
  pub audiences : Option (List String)
  pub transit_engine : Option TransitEngineSpec

-- The packages that the functions call, on a world. A credential is issued for the base options of
-- the decryptor, with audiences, and with the token cache or without.
pub record Vaults (W : Type 0) : Type 0 where
  pub get_config_map : NamespacedName → Io W (List (String × String))
  pub unmarshal_config : String → Result (List VaultInstance)
  pub new_access_credential : List String → Bool → Io W AccessCredential
  -- `base64.RawURLEncoding.DecodeString`, and the claim `sub` that `json.Unmarshal` finds
  pub decode : String → Result String
  pub subject_of : String → Result String
  -- `vaultapi.NewClient` for an address
  pub new_client : String → Result (Unit {0})
  -- `client.Logical().WriteWithContext`: the address, the path, the role and the JWT; none if the
  -- secret or its `Auth` is nil
  pub login : String → String → String → String → Io W (Option String)

-- `cacheVaultTokens(fetch)`, with the tokens in the state; the mutex makes the calls a sequence
abbrev pub Tokens : Type 0
Tokens = List (String × String)

module _ {S : Type 0} where
  abbrev pub store_token : String → Tokens → Result String × S → Result String × (Tokens × S)
  store_token address tokens (ok token, s) = (ok token, (put tokens address token, s))
  store_token address tokens (err e, s) = (err e, (tokens, s))

  abbrev pub unless_cached :
      (String → Io S String) → String → Tokens → S → Option String → Result String × (Tokens × S)
  unless_cached fetch address tokens s (some token) = (ok token, (tokens, s))
  unless_cached fetch address tokens s none = store_token address tokens (fetch address s)

  unfoldable pub cache_vault_tokens : (String → Io S String) → String → Io (Tokens × S) String
  cache_vault_tokens fetch address (tokens, s) =
      unless_cached fetch address tokens s (lookup tokens address)

-- The login paths that the function keeps, once they are loaded, and the world
abbrev pub Paths : Type 0 → Type 0
Paths W = Option (List (String × String)) × W

abbrev pub in_world : {W A : Type 0} → Io W A → Io (Paths W) A
in_world m (paths, w) = let (r, w') = m w in (r, (paths, w'))

abbrev subject_error : String → Error
subject_error sub = text_error ("unexpected token subject '" <> sub <> "'")

abbrev pub account_parts : String → Option (String × String) → Result (String × String)
account_parts sub none = err (subject_error sub)
account_parts sub (some (ns, name)) =
    if not (ns == "") && not (name == "") then ok (ns, name) else err (subject_error sub)

abbrev pub account_rest : String → Option String → Result (String × String)
account_rest sub none = err (subject_error sub)
account_rest sub (some rest) = account_parts sub (cut rest ":")

-- The account of the subject of a token
unfoldable pub account_of_subject : String → Result (String × String)
unfolding cut cut_prefix
account_of_subject sub = account_rest sub (cut_prefix sub "system:serviceaccount:")

module _ {W : Type 0} (P : Vaults W) (has_cache : Bool) (spec : Option AuthSpec) where
  abbrev audiences_of : Option AuthSpec → List String
  audiences_of none = []
  audiences_of (some a) = elim a.audiences [ none ↦ [] | some l ↦ l ]

  abbrev audiences_or : List String → String → List String
  audiences_or audiences address = if is_empty audiences then address ∷ [] else audiences

  abbrev jwt_of : AccessCredential → Result String
  jwt_of (jwt token) = ok token
  jwt_of (other_credential type) =
      err (text_error ("unexpected credential type " <> type <> " for Vault authentication"))

  -- `issueVaultK8sToken(ctx, baseSpec, baseOpts, vaultAddress)`
  unfoldable pub issue_vault_k8s_token : String → Io W String
  issue_vault_k8s_token address =
      wrap_error "failed to issue Kubernetes credential for Vault authentication: "
        (P.new_access_credential (audiences_or (audiences_of spec) address) has_cache)
      >>= λ c. lift (jwt_of c)

  abbrev token_or : Error → Option String → Result String
  token_or e none = err e
  token_or e (some token) = if token == "" then err e else ok token

  -- `vaultLogin(ctx, vaultAddress, loginPath, role, jwt)`
  unfoldable pub vault_login : String → String → String → String → Io W String
  vault_login address path role token =
      wrap_error ("failed to create Vault client for '" <> address <> "': ")
        (lift (P.new_client address))
      >>= λ u.
          wrap_error
            ("failed to authenticate with Vault '" <> address <> "' at login path '" <> path
              <> "' as role '" <> role <> "': ")
            (P.login address path role token)
          >>= λ secret. lift (
              token_or
                (text_error (
                  "Vault '" <> address <> "' returned no token for login at '" <> path
                  <> "' as role '" <> role <> "'"))
                secret)

  -- The function that `newTransitEngineVaultAuthFunc` caches
  unfoldable pub transit_engine_fetch : TransitEngineSpec → String → Io W String
  unfolding issue_vault_k8s_token vault_login
  transit_engine_fetch te address =
      issue_vault_k8s_token address >>= λ token. vault_login address te.login_path te.role token

module _ {W : Type 0} (P : Vaults W) (has_cache : Bool) (spec : Option AuthSpec)
    (config_map : NamespacedName) (show : NamespacedName → String) where
  -- The loop over the instances
  unfoldable pub login_paths_of :
      List VaultInstance → List (String × String) → List (String × String)
  login_paths_of [] paths = paths
  login_paths_of (i ∷ rest) paths = login_paths_of rest (put paths i.address i.login_path)

  abbrev config_text : Option String → Result String
  config_text (some t) = ok t
  config_text none =
      err (
        text_error ("Vault ConfigMap '" <> show config_map <> "' is missing the 'config.yaml' key"))

  abbrev parse_error : Result (List VaultInstance) → Result (List VaultInstance)
  parse_error (ok l) = ok l
  parse_error (err e) =
      err (
        wrapped ("failed to parse 'config.yaml' in Vault ConfigMap '" <> show config_map <> "': ")
          e)

  -- `loadVaultLoginPaths(ctx)`
  unfoldable pub load_vault_login_paths : Io W (List (String × String))
  unfolding login_paths_of
  load_vault_login_paths =
      wrap_error ("failed to get Vault ConfigMap '" <> show config_map <> "': ")
        (P.get_config_map config_map)
      >>= λ entries. lift (config_text (lookup entries "config.yaml")) >>= λ t.
          lift (parse_error (P.unmarshal_config t)) >>= λ instances.
          pure (login_paths_of instances [])

  abbrev payload_of : List String → Result String
  payload_of (header ∷ (payload ∷ (signature ∷ []))) = ok payload
  payload_of _ = err (text_error "not a JWT")

  abbrev named_error : {A : Type 0} → String → Result A → Result A
  named_error text (ok a) = ok a
  named_error text (err e) = err (wrapped text e)

  -- `serviceAccountFromToken(token)`
  unfoldable pub service_account_from_token : String → Result (String × String)
  unfolding account_of_subject split_at_char
  service_account_from_token token = payload_of (split_at_char b'.' token) then λ encoded.
      named_error "failed to decode token payload: " (P.decode encoded) then λ payload.
      named_error "failed to unmarshal token payload: " (P.subject_of payload)
      then account_of_subject

  abbrev loaded : Result (List (String × String)) × W → Result (List (String × String)) × Paths W
  loaded (ok paths, w) = (ok paths, (some paths, w))
  loaded (err e, w) = (err e, (none, w))

  -- `if loginPaths == nil`
  unfoldable pub ensure_login_paths : Io (Paths W) (List (String × String))
  unfolding load_vault_login_paths
  ensure_login_paths (some paths, w) = (ok paths, (some paths, w))
  ensure_login_paths (none, w) = loaded (load_vault_login_paths w)

  -- The login at an address with a path
  unfoldable pub login_at : String → String → Io (Paths W) String
  unfolding issue_vault_k8s_token service_account_from_token vault_login
  login_at address path = in_world (issue_vault_k8s_token P has_cache spec address) >>= λ token.
      lift (
        named_error "failed to derive Vault role for authentication: "
          (service_account_from_token token))
      >>= λ (ns, name).
          in_world (vault_login P has_cache spec address path (ns <> "_" <> name) token)

  abbrev pub if_listed : String → String → Io (Paths W) String
  if_listed address path =
      if path == ""
      then raise (
          text_error (
            "no Vault login path configured for address '"
            <> address
            <> "' in ConfigMap '"
            <> show config_map
            <> "'"))
      else login_at address path

  -- The function that `newConfigMapVaultAuthFunc` caches
  unfoldable pub config_map_fetch : String → Io (Paths W) String
  unfolding ensure_login_paths login_at
  config_map_fetch address =
      ensure_login_paths >>= λ paths. if_listed address (text_or_empty (lookup paths address))

-- `newVaultK8sAuthFunc(baseSpec, baseOpts)`: which function it returns, nil included
pub data VaultAuth : Type 0 where
  by_transit_engine : TransitEngineSpec → VaultAuth
  by_config_map : NamespacedName → VaultAuth
  no_vault_auth : VaultAuth

abbrev by_config : Option NamespacedName → VaultAuth
by_config none = no_vault_auth
by_config (some c) = by_config_map c

abbrev engine_or : Option NamespacedName → Option TransitEngineSpec → VaultAuth
engine_or config none = by_config config
engine_or config (some te) = if te.login_path == "" then by_config config else by_transit_engine te

unfoldable pub new_vault_k8s_auth : Option AuthSpec → Option NamespacedName → VaultAuth
new_vault_k8s_auth none config = by_config config
new_vault_k8s_auth (some a) config = engine_or config a.transit_engine
