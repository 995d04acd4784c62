-- ===== src/StakingRouter.antt =====
-- src/staking-router/staking-router.service.ts: the unused keys of a module, kept while its nonce stays.
pub mod Freshness
pub mod Known
use lidofinance_lido_council.Shared.{
  ℕ, String, Option, none, some, Bool, true, false, not, ◌==◌, str_eq, if◌then◌else◌,
}
use lidofinance_lido_council.Outcome.{
  new_error, Outcome, ok, throw, Exec, pure, raise, lift, ◌>>=◌, ◌>>◌,
}
use lidofinance_lido_council.KeysApi.{
  KeysApi, SrModule, SrModuleKeysResponse, SrModuleListResponse, get_modules_list,
  get_unused_module_keys,
}

-- `stakingRouterCache`, by module id.
abbrev pub RouterCache : Type 0
RouterCache = ℕ → Option SrModuleKeysResponse

abbrev pub put : RouterCache → ℕ → SrModuleKeysResponse → RouterCache
put cache id response other = if id == other then some response else cache other

unfoldable pub get_staking_modules : KeysApi → Outcome SrModuleListResponse
get_staking_modules = get_modules_list

-- `isNeedToUpdateState`, of the cached response
pub is_need_to_update_state : Option SrModuleKeysResponse → ℕ → Bool
is_need_to_update_state none next_nonce = true
is_need_to_update_state (some cache) next_nonce = not (cache.content.sr_module.nonce == next_nonce)

unfoldable pub set_staking_router_cache : ℕ → SrModuleKeysResponse → Exec RouterCache (Unit {0})
set_staking_router_cache id response cache = (ok tt, put cache id response)

unfoldable pub fetch_unused_keys : KeysApi → String → ℕ → Exec RouterCache SrModuleKeysResponse
unfolding set_staking_router_cache
fetch_unused_keys api block_hash id = do
  sr_response ← lift (get_unused_module_keys api id)
  if not (str_eq sr_response.meta.block_hash block_hash)
      then raise (new_error "Blockhash of the received keys does not match the current blockhash")
      else (set_staking_router_cache id sr_response >> pure sr_response)

-- With a cached response of the same nonce the cached one is returned.
abbrev cached_or_fetched :
    Option SrModuleKeysResponse
    → ℕ
    → Exec RouterCache SrModuleKeysResponse
    → Exec RouterCache SrModuleKeysResponse
cached_or_fetched none nonce m = m
cached_or_fetched (some cache) nonce m =
    if is_need_to_update_state (some cache) nonce then m else pure cache

unfoldable pub get_staking_module_unused_keys :
    KeysApi → String → SrModule → Exec RouterCache SrModuleKeysResponse
unfolding is_need_to_update_state fetch_unused_keys
get_staking_module_unused_keys api block_hash sr_module cache =
    cached_or_fetched (cache sr_module.id) sr_module.nonce
      (fetch_unused_keys api block_hash sr_module.id) cache
