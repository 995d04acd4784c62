-- ===== src/Decorators/Cached.antt =====
-- src/common/decorators/cache.ts: a method whose result is kept in the cache manager, which is outside
-- the daemon: its `get` and `set` are parameters. The options that go to `set` are left to it.
use lidofinance_lido_council.Shared.{String, Bool, Option, none, some, str_eq, if◌then◌else◌}
use lidofinance_lido_council.Shared.Text.{join}
use lidofinance_lido_council.Outcome.{Exec, ◌>>=◌, ◌>>◌, pure}

-- `key || ...`
unfoldable pub cache_key : Option String → String → String → String
cache_key none class_name property_key = join class_name (join "/" property_key)
cache_key (some key) class_name property_key =
    if str_eq key "" then join class_name (join "/" property_key) else key

module _ {S A : Type 0} (get : String → Exec S (Option A)) (set : String → A → Exec S (Unit {0}))
    (is_truthy : A → Bool) where
  abbrev store : String → A → Exec S A
  store key result = do set key result; pure result

  abbrev found_or : Exec S A → Option A → Exec S A
  found_or called none = called
  found_or called (some item) = if is_truthy item then pure item else called

  unfoldable pub cached_method : String → Exec S A → Exec S A
  cached_method key method = do cached_item ← get key; found_or (method >>= store key) cached_item
