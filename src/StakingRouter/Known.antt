-- ===== src/StakingRouter/Known.antt =====
-- Where the keys that the cache of src/staking-router/staking-router.service.ts holds come from.
use mathlib.Core.Path.{subst}
use lidofinance_lido_council.Shared.{
  ℕ, String, ◌≡◌, refl, sym, Option, none, some, arith, Bool-cases, inl, inr, ◌==◌, str_eq,
}
use lidofinance_lido_council.Outcome.{Outcome, ok}
use lidofinance_lido_council.KeysApi.{
  KeysApi, SrModule, SrModuleKeysResponse, get_unused_module_keys,
}
use lidofinance_lido_council.StakingRouter.{RouterCache, put, get_staking_module_unused_keys}

-- What the keys service is known to have answered for a module id.
abbrev pub Known : Type 1
Known = ℕ → SrModuleKeysResponse → Type 0

abbrev pub IsKnownCache : Known → RouterCache → Type 0
IsKnownCache known cache =
    (id : ℕ) (response : SrModuleKeysResponse) → cache id ≡ some response → known id response

module _ (api : KeysApi) (known : Known)
    (answers : (id : ℕ) (response : SrModuleKeysResponse)
      → get_unused_module_keys api id ≡ ok response
      → known id response) where
  put-IsKnownCache :
      (cache : RouterCache) (id : ℕ) (fetched : SrModuleKeysResponse)
      → known id fetched
      → IsKnownCache known cache
      → IsKnownCache known (put cache id fetched)
  put-IsKnownCache cache id fetched new kept other response stored =
      elim (Bool-cases (id == other)) [
        | inl same ↦
            let ids : id ≡ other = ground arith in
            let responses : fetched ≡ response = ground arith in
            subst (λ r. known other r) responses (subst (λ i. known i fetched) ids new)
        | inr differ ↦ kept other response (ground arith)
      ]

  -- After a call, however it ended, the cache still holds only what was answered.
  pub get_staking_module_unused_keys-IsKnownCache :
      (block_hash : String) (m : SrModule) (cache : RouterCache)
      → IsKnownCache known cache
      → IsKnownCache known (get_staking_module_unused_keys api block_hash m cache).1
  unfolding get_staking_module_unused_keys
  get_staking_module_unused_keys-IsKnownCache h m cache kept =
      by_cache (cache m.id) (get_unused_module_keys api m.id) refl refl
    where
      Goal : Type 0
      Goal = IsKnownCache known (get_staking_module_unused_keys api h m cache).1

      unchanged : (get_staking_module_unused_keys api h m cache).1 ≡ cache → Goal
      unchanged same = subst (IsKnownCache known) (sym same) kept

      stored :
          (fetched : SrModuleKeysResponse)
          → get_unused_module_keys api m.id ≡ ok fetched
          → (get_staking_module_unused_keys api h m cache).1 ≡ put cache m.id fetched
          → Goal
      stored fetched er same =
          subst (IsKnownCache known) (sym same)
            (put-IsKnownCache cache m.id fetched (answers m.id fetched er) kept)

      by_fetched :
          (c : Option SrModuleKeysResponse) (fetched : SrModuleKeysResponse)
          → cache m.id ≡ c
          → get_unused_module_keys api m.id ≡ ok fetched
          → Goal
      by_fetched none fetched ec er = elim (Bool-cases (str_eq fetched.meta.block_hash h)) [
        | inl same ↦ stored fetched er (ground arith)
        | inr differ ↦ unchanged (ground arith)
      ]
      by_fetched (some old) fetched ec er =
          elim (Bool-cases (old.content.sr_module.nonce == m.nonce)) [
            | inl current ↦ unchanged (ground arith)
            | inr outdated ↦ elim (Bool-cases (str_eq fetched.meta.block_hash h)) [
              | inl same ↦ stored fetched er (ground arith)
              | inr differ ↦ unchanged (ground arith)
            ]
          ]

      by_cache :
          (c : Option SrModuleKeysResponse) (r : Outcome SrModuleKeysResponse)
          → cache m.id ≡ c
          → get_unused_module_keys api m.id ≡ r
          → Goal
      by_cache c (ok fetched) ec er = by_fetched c fetched ec er
      by_cache c r ec er = unchanged (ground arith)
