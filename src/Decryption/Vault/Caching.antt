-- ===== src/Decryption/Vault/Caching.antt =====
-- The cache of Vault tokens, and the allowlist of Vault servers, of
-- internal/decryptor/transit_engine.go.
use kustomize_controller.Base.{
  String, ◌==◌, ◌≡◌, ◌⊎◌, refl, Bool, Option, none, some, List, [], ◌∷◌, lookup, arith, eq_iff,
  eq_refl, text_or_empty, Bool-cases, Option-cases, inl, inr,
}
use kustomize_controller.Errors.{Error, Result, ok, err}
use kustomize_controller.Io.{Io}
use kustomize_controller.Api.References.{NamespacedName}
use kustomize_controller.Decryption.Vault.{
  Tokens, store_token, cache_vault_tokens, Vaults, AuthSpec, Paths, ensure_login_paths,
  config_map_fetch,
}

module _ {S : Type 0} (fetch : String → Io S String) where
  abbrev Cache : Type 0
  Cache = Tokens × S

  -- Requests for the addresses, one after the other: the answers and the last state.
  unfoldable pub serve : List String → Cache → List (Result String) × Cache
  unfolding cache_vault_tokens
  serve [] st = ([], st)
  serve (a ∷ later) st =
      let (r, st') = cache_vault_tokens fetch a st in
      let (rs, st'') = serve later st' in (r ∷ rs, st'')

  lookup-store :
      (address other : String) (tokens : Tokens) (r : Result String) (s : S) (token : String)
      → lookup tokens other ≡ some token
      → lookup tokens address ≡ none
      → lookup (store_token address tokens (r, s)).1.0 other ≡ some token
  lookup-store address other tokens (ok t) s token h fresh = elim (Bool-cases (address == other)) [
    | inl same ↦ ground (arith, eq_iff address other, h, fresh, same)
    | inr differs ↦ rw differs h
  ]
  lookup-store address other tokens (err e) s token h fresh = h

  cached_stays :
      (address other : String) (st : Cache) (token : String)
      → lookup st.0 other ≡ some token
      → lookup (cache_vault_tokens fetch address st).1.0 other ≡ some token
  unfolding cache_vault_tokens
  cached_stays address other (tokens, s) token h = elim (Option-cases (lookup tokens address)) [
    | inr (t, hit) ↦ rw hit h
    | inl miss ↦
        rw miss
          (lookup-store address other tokens (fetch address s).0 (fetch address s).1 token h miss)
  ]

  serve_stays :
      (addresses : List String) (other : String) (st : Cache) (token : String)
      → lookup st.0 other ≡ some token
      → lookup (serve addresses st).1.0 other ≡ some token
  unfolding serve
  serve_stays [] other st token h = h
  serve_stays (a ∷ later) other st token h =
      serve_stays later other (cache_vault_tokens fetch a st).1 token
        (cached_stays a other st token h)

  fetched_stored :
      (address : String) (tokens : Tokens) (r : Result String × S) (token : String)
      → (store_token address tokens r).0 ≡ ok token
      → lookup (store_token address tokens r).1.0 address ≡ some token
  fetched_stored address tokens (ok t, s) token h = ground (arith, eq_refl address, h)
  fetched_stored address tokens (err e, s) token h = ground arith

  answered_cached :
      (address : String) (st : Cache) (token : String)
      → (cache_vault_tokens fetch address st).0 ≡ ok token
      → lookup (cache_vault_tokens fetch address st).1.0 address ≡ some token
  unfolding cache_vault_tokens
  answered_cached address (tokens, s) token h = elim (Option-cases (lookup tokens address)) [
    | inr (t, hit) ↦ ground (arith, hit, h)
    | inl miss ↦
        rw miss (fetched_stored address tokens (fetch address s) token (ground (arith, miss, h)))
  ]

  hit_lem :
      (address : String) (st : Cache) (token : String)
      → lookup st.0 address ≡ some token
      → cache_vault_tokens fetch address st ≡ (ok token, st)
  unfolding cache_vault_tokens
  hit_lem address (tokens, s) token h = rw h refl

  -- Once a request for an address has been answered with a token, every later one gets the same token
  -- without fetching: it leaves the state as it is, whatever was requested in between.
  pub cache_vault_tokens_fetches_once :
      (address : String) (between : List String) (st : Cache) (token : String)
      → (cache_vault_tokens fetch address st).0 ≡ ok token
      → cache_vault_tokens fetch address (serve between (cache_vault_tokens fetch address st).1).1
        ≡ (ok token, (serve between (cache_vault_tokens fetch address st).1).1)
  cache_vault_tokens_fetches_once address between st token h =
      hit_lem address (serve between (cache_vault_tokens fetch address st).1).1 token (
        serve_stays between address (cache_vault_tokens fetch address st).1 token
          (answered_cached address st token h))

module _ {W : Type 0} (P : Vaults W) (has_cache : Bool) (spec : Option AuthSpec)
    (config_map : NamespacedName) (show : NamespacedName → String) where
  -- The request fails: the paths cannot be loaded, or none is listed for the address.
  abbrev pub Refuses : String → Paths W → Type 0
  Refuses address st =
      (e : Error) × (config_map_fetch P has_cache spec config_map show address st
        ≡ (err e, (ensure_login_paths P has_cache spec config_map show st).1))
      × (((ensure_login_paths P has_cache spec config_map show st).0 ≡ err e)
          ⊎ ((paths : List (String × String)) × ((ensure_login_paths P has_cache spec config_map
                  show st).0
                ≡ ok paths)
              × (text_or_empty (lookup paths address) ≡ "")))
