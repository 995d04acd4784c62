-- ===== src/Cache/Persistence.antt =====
-- What the cache keeps across a restart of the daemon, and what a deletion leaves.
use text.Mathlib.TextPositions.{eq_refl}
use lidofinance_lido_council.Shared.{String, ◌≡◌, refl, none, arith}
use lidofinance_lido_council.Outcome.{Outcome, ok}
use lidofinance_lido_council.Cache.{
  CacheConfig, CacheState, get_cache_file_path, get_cache_dir_path, get_cache_from_file, get_cache,
  set_cache, save_cache_to_file,
}

-- A new process has nothing in memory.
abbrev pub restart : {T : Type 0} → CacheState T → CacheState T
restart s = record s { cache = none }

module _ {T : Type 0} (config : CacheConfig T) where
  -- A value that was saved is what the next process reads, if its type survives JSON and the file
  -- can be read then.
  pub get_cache-set_cache :
      (value : T) (s : CacheState T)
      → config.parse (config.stringify value) ≡ ok value
      → config.read_fault ≡ none
      → (set_cache config value s).0 ≡ ok tt
      → (get_cache config (restart (set_cache config value s).1)).0 ≡ ok value
  unfolding get_cache set_cache get_cache_from_file save_cache_to_file
  get_cache-set_cache value s json readable saved =
      go (get_cache_dir_path config) (get_cache_file_path config) refl refl
    where
      go :
          (d p : Outcome String)
          → get_cache_dir_path config ≡ d
          → get_cache_file_path config ≡ p
          → (get_cache config (restart (set_cache config value s).1)).0 ≡ ok value
      go (ok dir) (ok path) ed ep = ground (arith, eq_refl path)
      go d p ed ep = ground arith
