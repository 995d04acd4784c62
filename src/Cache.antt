-- ===== src/Cache.antt =====
-- src/cache/cache.service.ts: a value kept in memory and in a JSON file of the chain's own folder.
-- The file system and the JSON codec of the value's type are outside the daemon.
pub mod Invariant
pub mod Reading
pub mod Persistence
use lidofinance_lido_council.Shared.{ℕ, String, Option, none, some, Bool, str_eq, if◌then◌else◌}
use lidofinance_lido_council.Shared.Text.{join, decimal}
use lidofinance_lido_council.Outcome.{
  Failure, new_error, Outcome, ok, throw, bind, Exec, pure, lift, gets, modify, ◌>>=◌, ◌>>◌,
  try_catch,
}

-- `T`, the injected values, and what the calls of `fs/promises` and of the provider answer now.
pub record CacheConfig (T : Type 0) : Type 0 where
  pub chain_id : Outcome ℕ
  pub cache_dir : String
  pub cache_file : String
  pub cache_default_value : T
  pub stringify : T → String
  pub parse : String → Outcome T
  pub read_fault : Option Failure
  pub mkdir_fault : Option Failure
  pub write_fault : Option Failure
  pub unlink_fault : Option Failure

-- The private field `cache`, and the files on the disk.
pub record CacheState (T : Type 0) : Type 0 where
  pub cache : Option T
  pub files : String → Option String

abbrev pub set_file : (String → Option String) → String → Option String → String → Option String
set_file files path content other = if str_eq path other then content else files other

-- A call of the file system that is refused, or goes on.
abbrev pub unless_fault : {A : Type 0} → Option Failure → Outcome A → Outcome A
unless_fault none r = r
unless_fault (some e) r = throw e

abbrev pub missing_file : Failure
missing_file = record (new_error "no such file") { code = some "ENOENT" }

abbrev pub found : Option String → Outcome String
found none = throw missing_file
found (some content) = ok content

module _ {T : Type 0} (config : CacheConfig T) where
  -- join(this.cacheDir, `chain-${chainId}`)
  unfoldable pub get_cache_dir_path : Outcome String
  get_cache_dir_path =
      bind config.chain_id λ id. ok (join config.cache_dir (join "/chain-" (decimal id)))

  unfoldable pub get_cache_file_path : Outcome String
  unfolding get_cache_dir_path
  get_cache_file_path = bind get_cache_dir_path λ dir. ok (join dir (join "/" config.cache_file))

  abbrev read_file : String → Exec (CacheState T) String
  read_file path s = (unless_fault config.read_fault (found (s.files path)), s)

  abbrev write_file : String → String → Exec (CacheState T) (Unit {0})
  write_file path content = do
    lift (unless_fault config.write_fault (ok tt))
    modify (λ s. record s { files = set_file s.files path (some content) })

  abbrev remove : String → Exec (CacheState T) (Unit {0})
  remove path = modify (λ s. record s { files = set_file s.files path none })

  abbrev unlink : String → Exec (CacheState T) (Unit {0})
  unlink path = do
    gets (λ s. s.files path) >>= λ content. lift (unless_fault config.unlink_fault (found content))
    remove path

  unfoldable pub get_cache_from_file : Exec (CacheState T) T
  get_cache_from_file =
      try_catch
        (do path ← lift get_cache_file_path; content ← read_file path; lift (config.parse content))
        (λ error. pure config.cache_default_value)

  -- What is read is kept in memory.
  abbrev remember : T → Exec (CacheState T) T
  remember value s = (ok value, record s { cache = some value })

  abbrev or_else : Option T → Exec (CacheState T) T → Exec (CacheState T) T
  or_else (some value) m = pure value
  or_else none m = m

  unfoldable pub get_cache : Exec (CacheState T) T
  unfolding get_cache_from_file
  get_cache s = or_else s.cache (do value ← get_cache_from_file; remember value) s

  -- `JSON.stringify(this.cache)` writes the value that `setCache` has just put into `this.cache`.
  abbrev written : Option T → String
  written none = "null"
  written (some value) = config.stringify value

  unfoldable pub save_cache_to_file : Exec (CacheState T) (Unit {0})
  save_cache_to_file = do
    dir_path ← lift get_cache_dir_path
    file_path ← lift get_cache_file_path
    lift (unless_fault config.mkdir_fault (ok tt))
    content ← gets (λ s. written s.cache)
    write_file file_path content

  unfoldable pub set_cache : T → Exec (CacheState T) (Unit {0})
  unfolding save_cache_to_file
  set_cache value = do modify (λ s. record s { cache = some value }); save_cache_to_file

  -- The catch block is empty.
  unfoldable pub delete_cache_file : Exec (CacheState T) (Unit {0})
  delete_cache_file = try_catch (do path ← lift get_cache_file_path; unlink path) (λ error. pure tt)

  unfoldable pub delete_cache : Exec (CacheState T) (Unit {0})
  unfolding delete_cache_file
  delete_cache = do modify (λ s. record s { cache = none }); delete_cache_file
