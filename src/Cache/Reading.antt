-- ===== src/Cache/Reading.antt =====
-- What `getCache` of src/cache/cache.service.ts answers, and what the next call answers.
use lidofinance_lido_council.Shared.{String, ◌≡◌, ◌⊎◌, none, some}
use lidofinance_lido_council.Outcome.{Outcome, ok, throw}
use lidofinance_lido_council.Cache.{
  CacheConfig, CacheState, get_cache_file_path, get_cache_from_file,
}

-- A call that is answered or rejected.
abbrev pub IsSettled : {A : Type 0} → Outcome A → Type 0
IsSettled (ok _) = Unit
IsSettled (throw _) = Unit
IsSettled _ = ⊥

module _ {T : Type 0} (config : CacheConfig T) where
  -- The file of the chain can be read, and holds the text of the value.
  pub record IsStoredAs (s : CacheState T) (value : T) : Type 0 where
    pub path : String
    pub content : String
    pub located : get_cache_file_path config ≡ ok path
    pub readable : config.read_fault ≡ none
    pub held : s.files path ≡ some content
    pub parsed : config.parse content ≡ ok value

  -- The value in memory; else the one in the file; else, if the file gives none, the default.
  abbrev pub IsCached : CacheState T → T → Type 0
  IsCached s value =
      (s.cache ≡ some value)
      ⊎ ((s.cache ≡ none)
          × (IsStoredAs s value
              ⊎ (((other : T) → ¬ IsStoredAs s other) × (config.cache_default_value ≡ value))))

  -- The answer of the file, or of the default
  abbrev HasOrigin : CacheState T → Type 0
  HasOrigin s =
      (value : T) × ((get_cache_from_file config s).0 ≡ ok value)
      × (IsStoredAs s value
          ⊎ (((other : T) → ¬ IsStoredAs s other) × (config.cache_default_value ≡ value)))
