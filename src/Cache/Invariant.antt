-- ===== src/Cache/Invariant.antt =====
-- A property of the values that are set, and of the default, holds of the value in memory and of the
-- one in the file, whatever the file system and the provider refuse.
use mathlib.Core.Path.{subst}
use text.Mathlib.TextPositions.{eq_refl}
use lidofinance_lido_council.Shared.{
  String, ◌≡◌, ◌≢◌, ◌⊎◌, inl, inr, refl, ap, sym, ◌∙◌, Option, none, some, arith,
}
use lidofinance_lido_council.Outcome.{Failure, Outcome, ok, throw, exit, pending}
use lidofinance_lido_council.Cache.{
  CacheConfig, CacheState, get_cache_file_path, get_cache_from_file, get_cache, set_cache,
  save_cache_to_file, delete_cache_file, delete_cache,
}

module _ {T : Type 0} (config : CacheConfig T) (P : T → Type 0) where
  pub record IsSound (s : CacheState T) : Type 0 where
    pub memory : (value : T) → s.cache ≡ some value → P value
    pub file :
        (path content : String) (value : T)
        → get_cache_file_path config ≡ ok path
        → s.files path ≡ some content
        → config.parse content ≡ ok value
        → P value

  file_or_default :
      (s : CacheState T) (value : T)
      → IsSound s
      → (p : Outcome String) (r : Option Failure) → get_cache_file_path config ≡ p
      → config.read_fault ≡ r
      → (get_cache_from_file config s).0 ≡ ok value
      → (config.cache_default_value ≡ value) ⊎ P value
  unfolding get_cache_from_file
  file_or_default s value sound (ok path) none ep er h = readable (s.files path) refl
    where
      readable :
          (c : Option String) → s.files path ≡ c → (config.cache_default_value ≡ value) ⊎ P value
      readable none ec = inl (ground arith)
      readable (some content) ec = parsed (config.parse content) refl
        where
          parsed :
              (r : Outcome T)
              → config.parse content ≡ r
              → (config.cache_default_value ≡ value) ⊎ P value
          parsed (ok found) e = inr (sound.file path content value ep ec (ground arith))
          parsed (throw error) e = inl (ground arith)
          parsed exit e = absurd (ground arith)
          parsed pending e = absurd (ground arith)
  file_or_default s value sound (ok path) (some error) ep er h = inl (ground arith)
  file_or_default s value sound (throw error) r ep er h = inl (ground arith)
  file_or_default s value sound exit r ep er h = absurd (ground arith)
  file_or_default s value sound pending r ep er h = absurd (ground arith)

  module _ (initial : P config.cache_default_value) where
    get_cache_from_file_sound :
        (s : CacheState T) (value : T)
        → IsSound s
        → (get_cache_from_file config s).0 ≡ ok value
        → P value
    get_cache_from_file_sound s value sound h =
        elim (file_or_default s value sound (get_cache_file_path config) config.read_fault refl refl
          h) [ inl same ↦ subst P same initial | inr p ↦ p ]

  get_cache_from_file_keeps : (s : CacheState T) → (get_cache_from_file config s).1 ≡ s
  unfolding get_cache_from_file
  get_cache_from_file_keeps s = ground arith

  pub get_cache_memory :
      (s : CacheState T) (value : T) → s.cache ≡ some value → get_cache config s ≡ (ok value, s)
  unfolding get_cache
  get_cache_memory s value e = ground arith

  pub get_cache_read :
      (s : CacheState T) (value : T)
      → s.cache ≡ none
      → (get_cache_from_file config s).0 ≡ ok value
      → get_cache config s ≡ (ok value, record s { cache = some value })
  unfolding get_cache
  get_cache_read s value e h = ground (arith, get_cache_from_file_keeps s)

  -- A read that does not succeed leaves the state alone.
  get_cache_failed :
      (s : CacheState T)
      → s.cache ≡ none
      → ((value : T) → (get_cache_from_file config s).0 ≢ ok value)
      → (get_cache config s).1 ≡ s
  unfolding get_cache
  get_cache_failed s e h = by_file (get_cache_from_file config s).0 refl
    where
      by_file : (r : Outcome T) → (get_cache_from_file config s).0 ≡ r → (get_cache config s).1 ≡ s
      by_file (ok value) er = absurd (h value er)
      by_file r er = ground (arith, get_cache_from_file_keeps s)

  -- If the default value has the property, and so have the values in memory and in the file, then what
  -- is read has it, and it still holds of both after the reading.
  pub get_cache-IsSound :
      P config.cache_default_value
      → (s : CacheState T) → IsSound s
      → IsSound (get_cache config s).1 × ((value : T) → (get_cache config s).0 ≡ ok value → P value)
  get_cache-IsSound initial s sound = by_memory s.cache refl
    where
      remembered :
          (value : T)
          → P value
          → get_cache config s ≡ (ok value, record s { cache = some value })
          → IsSound (get_cache config s).1
            × ((value : T) → (get_cache config s).0 ≡ ok value → P value)
      remembered value good e = rw e (
        record { memory = λ kept k. subst P (cc) good; file = sound.file },
        λ read r. subst P (cc) good,
      )

      by_memory :
          (m : Option T)
          → s.cache ≡ m
          → IsSound (get_cache config s).1
            × ((value : T) → (get_cache config s).0 ≡ ok value → P value)
      by_memory (some kept) em =
          rw (get_cache_memory s kept em) (sound, λ read r. sound.memory read (cc))
      by_memory none em = by_file (get_cache_from_file config s).0 refl
        where
          by_file :
              (r : Outcome T)
              → (get_cache_from_file config s).0 ≡ r
              → IsSound (get_cache config s).1
                × ((value : T) → (get_cache config s).0 ≡ ok value → P value)
          by_file (ok read) er =
              remembered read (get_cache_from_file_sound initial s read sound er)
                (get_cache_read s read em er)
          by_file r er = (
            rw (get_cache_failed s em (λ v e. cc)) sound,
            λ read e. absurd (unfold get_cache in ground arith),
          )

  set_cache_files :
      (value : T) (s : CacheState T) (path content : String)
      → get_cache_file_path config ≡ ok path
      → (set_cache config value s).1.files path ≡ some content
      → (config.stringify value ≡ content) ⊎ (s.files path ≡ some content)
  unfolding set_cache save_cache_to_file
  set_cache_files value s path content ep ec = ground (arith, eq_refl path)

  pub cache-set_cache :
      (value : T) (s : CacheState T) → (set_cache config value s).1.cache ≡ some value
  unfolding set_cache save_cache_to_file
  cache-set_cache value s = ground arith

  -- A value with the property is set, whether or not the file is written.
  pub set_cache-IsSound :
      (value : T) (s : CacheState T)
      → ((read : T) → config.parse (config.stringify value) ≡ ok read → read ≡ value)
      → P value
      → IsSound s
      → IsSound (set_cache config value s).1
  set_cache-IsSound value s json good sound = record {
    memory = λ kept e. subst P {x = value} (cc (cache-set_cache value s)) good;
    file = λ path content read ep ec er. elim (set_cache_files value s path content ep ec) [
      | inl new ↦ subst P (sym (json read (ap config.parse new ∙ er))) good
      | inr old ↦ sound.file path content read ep old er
    ];
  }

  delete_cache_files :
      (s : CacheState T) (path content : String)
      → get_cache_file_path config ≡ ok path
      → (delete_cache config s).1.files path ≡ some content
      → s.files path ≡ some content
  unfolding delete_cache delete_cache_file
  delete_cache_files s path content ep ec = ground (arith, eq_refl path)

  pub delete_cache-IsSound : (s : CacheState T) → IsSound s → IsSound (delete_cache config s).1
  unfolding delete_cache delete_cache_file
  delete_cache-IsSound s sound = record {
    memory = λ kept e. absurd (ground arith);
    file = λ path content read ep ec er.
        sound.file path content read ep (delete_cache_files s path content ep ec) er;
  }
