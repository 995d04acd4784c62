-- ===== src/StakingRouter/Freshness.antt =====
-- Which keys the guardian gets for a module at a block.
use lidofinance_lido_council.Shared.{
  ℕ, String, ◌≡◌, ◌≢◌, ◌⊎◌, refl, Option, none, some, true, arith, eq_iff,
}
use lidofinance_lido_council.Outcome.{new_error, Outcome, ok, throw}
use lidofinance_lido_council.KeysApi.{
  KeysApi, SrModule, SrModuleKeysResponse, get_unused_module_keys,
}
use lidofinance_lido_council.StakingRouter.{
  RouterCache, is_need_to_update_state, get_staking_module_unused_keys,
}

-- The keys that a call returns with success were kept under the module's nonce, or were fetched just now and belong
-- to the asked block; they are what the cache holds for the module afterwards, and the other modules
-- keep theirs.
pub get_staking_module_unused_keys-fresh :
    (api : KeysApi) (block_hash : String) (m : SrModule) (cache : RouterCache)
    (response : SrModuleKeysResponse)
    → (get_staking_module_unused_keys api block_hash m cache).0 ≡ ok response
    → (((cache m.id ≡ some response) × (response.content.sr_module.nonce ≡ m.nonce))
        ⊎ ((get_unused_module_keys api m.id ≡ ok response)
            × (response.meta.block_hash ≡ block_hash)))
      × ((get_staking_module_unused_keys api block_hash m cache).1 m.id ≡ some response)
      × ((other : ℕ)
          → other ≢ m.id
          → (get_staking_module_unused_keys api block_hash m cache).1 other ≡ cache other)
unfolding get_staking_module_unused_keys
get_staking_module_unused_keys-fresh api h m cache response got =
    by_cache (cache m.id) (get_unused_module_keys api m.id) refl refl
  where
    by_cache :
        (c : Option SrModuleKeysResponse) (r : Outcome SrModuleKeysResponse)
        → cache m.id ≡ c
        → get_unused_module_keys api m.id ≡ r
        → (((cache m.id ≡ some response) × (response.content.sr_module.nonce ≡ m.nonce))
            ⊎ ((get_unused_module_keys api m.id ≡ ok response) × (response.meta.block_hash ≡ h)))
          × ((get_staking_module_unused_keys api h m cache).1 m.id ≡ some response)
          × ((other : ℕ)
              → other ≢ m.id
              → (get_staking_module_unused_keys api h m cache).1 other ≡ cache other)
    by_cache none (ok fetched) ec er = (
      ground (arith, eq_iff fetched.meta.block_hash h),
      ground (arith, eq_iff fetched.meta.block_hash h),
      λ other ne. ground (arith, eq_iff fetched.meta.block_hash h),
    )
    by_cache (some kept) (ok fetched) ec er = (
      ground (arith, eq_iff fetched.meta.block_hash h),
      ground (arith, eq_iff fetched.meta.block_hash h),
      λ other ne. ground (arith, eq_iff fetched.meta.block_hash h),
    )
    by_cache c r ec er = (ground arith, ground arith, λ other ne. ground arith)

-- Fetched keys of another block are refused, and the cache stays as it was.
pub get_staking_module_unused_keys-other_block :
    (api : KeysApi) (block_hash : String) (m : SrModule) (cache : RouterCache)
    (response : SrModuleKeysResponse)
    → is_need_to_update_state (cache m.id) m.nonce ≡ true
    → get_unused_module_keys api m.id ≡ ok response
    → response.meta.block_hash ≢ block_hash
    → get_staking_module_unused_keys api block_hash m cache ≡ (
      throw (new_error "Blockhash of the received keys does not match the current blockhash"),
      cache,
    )
unfolding get_staking_module_unused_keys
get_staking_module_unused_keys-other_block api h m cache response need fetched differs =
    by_cache (cache m.id) refl
  where
    by_cache :
        (c : Option SrModuleKeysResponse)
        → cache m.id ≡ c
        → get_staking_module_unused_keys api h m cache ≡ (
          throw (new_error "Blockhash of the received keys does not match the current blockhash"),
          cache,
        )
    by_cache none ec = ground (arith, eq_iff response.meta.block_hash h)
    by_cache (some kept) ec = ground (arith, eq_iff response.meta.block_hash h)

-- The keys service answers keys of the asked block, and nothing else is cached for the module: then a
-- call succeeds with that answer.
pub get_staking_module_unused_keys-answered :
    (api : KeysApi) (block_hash : String) (m : SrModule) (cache : RouterCache)
    (response : SrModuleKeysResponse)
    → ((kept : SrModuleKeysResponse) → cache m.id ≡ some kept → kept ≡ response)
    → get_unused_module_keys api m.id ≡ ok response
    → response.meta.block_hash ≡ block_hash
    → (get_staking_module_unused_keys api block_hash m cache).0 ≡ ok response
unfolding get_staking_module_unused_keys
get_staking_module_unused_keys-answered api h m cache response only answer at_block =
    by_cache (cache m.id) refl
  where
    by_cache :
        (c : Option SrModuleKeysResponse)
        → cache m.id ≡ c
        → (get_staking_module_unused_keys api h m cache).0 ≡ ok response
    by_cache none ec = ground (arith, eq_iff response.meta.block_hash h)
    by_cache (some kept) ec =
        let same : kept ≡ response = only kept ec in
        ground (arith, eq_iff response.meta.block_hash h)
