-- ===== src/Deposit/Startup.antt =====
-- What `initialize` of src/contracts/deposit/deposit.service.ts does with a cache that is not valid.
use lidofinance_lido_council.Shared.{ℕ, ◌≡◌, refl, none, some, false}
use lidofinance_lido_council.Outcome.{Failure, ok}
use lidofinance_lido_council.Cache.{
  delete_cache, delete_cache_file, get_cache_file_path, get_cache_dir_path,
}
use lidofinance_lido_council.Deposit.{
  VerifiedDepositEventsCache, DepositEnv, Deposits, get_cached_events, validate_cache,
  delete_cached_events, initialize,
}

-- A cache that is read but not valid, and a file that cannot be removed: the start goes on as if the
-- file were gone, with nothing in memory and the file of before.
pub initialize_kept_file :
    (env : DepositEnv) (n : ℕ) (s : Deposits) (cached : VerifiedDepositEventsCache)
    (error : Failure) (id : ℕ)
    → (get_cached_events env s).0 ≡ ok cached
    → validate_cache env.app_version cached n ≡ false
    → env.cache.unlink_fault ≡ some error
    → env.cache.chain_id ≡ ok id
    → ((initialize env n s).0 ≡ ok tt)
      × ((initialize env n s).1.cache ≡ none)
      × ((initialize env n s).1.files ≡ (get_cached_events env s).1.files)
unfolding initialize delete_cached_events delete_cache delete_cache_file get_cache_file_path
    get_cache_dir_path
initialize_kept_file env n s cached error id read invalid fault chain =
    simp (read, invalid, fault, chain) (refl, refl, refl)
