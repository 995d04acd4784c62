-- ===== src/Tests/DepositRuns.antt =====
-- The deposit events at the data of DepositData.
use lidofinance_lido_council.Shared.{some, none, false}
use lidofinance_lido_council.Outcome.{Failure, new_error}
use lidofinance_lido_council.Deposit.Startup.{initialize_kept_file}
use lidofinance_lido_council.Deposit.{DepositEnv, Deposits}
use lidofinance_lido_council.Shared.{◌-◌, inl, arith}
use lidofinance_lido_council.Deposit.EventCache.{IsComplete, get_cached_events-IsSoundCache}
use lidofinance_lido_council.Shared.{◌+◌, ◌≡◌, refl, [], ◌∷◌, All}
use lidofinance_lido_council.Outcome.{ok}
use lidofinance_lido_council.Chains
use lidofinance_lido_council.Cache.{
  get_cache, get_cache_from_file, get_cache_file_path, get_cache_dir_path,
}
use lidofinance_lido_council.Provider
use lidofinance_lido_council.Provider.BlockLog.{between, upto, events_from}
use lidofinance_lido_council.DepositEvents.{VerifiedDepositEventGroup, VerifiedDepositEventsCache}
use lidofinance_lido_council.Deposit
use lidofinance_lido_council.Deposit.EventCache.{
  IsSoundCache, empty-IsSoundCache, update_events_cache-IsSoundCache,
}
use lidofinance_lido_council.Provider.FallOver.{IsRecovering}
use lidofinance_lido_council.Deposit.Node.{traverse-events_from}
use lidofinance_lido_council.Deposit.Progress.{GoesWell, Reaches, update_events_cache-Reaches}
use lidofinance_lido_council.Deposit.AllEvents.{HasBlockHash, get_all_deposited_events_complete}
use lidofinance_lido_council.Tests.DepositData.{
  parse-stringify, verified_deposit, raw, log, env, node, start,
}

abbrev cached : VerifiedDepositEventsCache
cached = record {
  version = "-1";
  group = record { events = []; start_block = 67_530; end_block = 67_530 };
}

abbrev result : VerifiedDepositEventGroup
result = record { events = verified_deposit ∷ []; start_block = 67_530; end_block = 67_540 }

cached_at_start : (Deposit.get_cached_events env start).0 ≡ ok cached
unfolding Deposit.get_cached_events Deposit.get_deployment_block_by_network Chains.by_network
    Chains.get_deployment_block_by_network get_cache get_cache_from_file get_cache_file_path
    get_cache_dir_path
cached_at_start = refl

result_at_block : (Deposit.get_all_deposited_events env 67_540 "0xb1" start).0 ≡ ok result
unfolding Deposit.get_cached_events Deposit.get_deployment_block_by_network Chains.by_network
    Chains.get_deployment_block_by_network get_cache get_cache_from_file get_cache_file_path
    get_cache_dir_path Deposit.get_all_deposited_events Deposit.validate_cache_block
    Deposit.merge_fresh_events Deposit.fetch_events_fall_over Provider.fetch_events_fall_over
    Deposit.fetch_events Deposit.check_events_block_hash Deposit.is_of_another_chain events_from
    Deposit.verify_deposit Deposit.format_event
result_at_block = refl

get_all_deposited_events_complete_example :
    (result.events ≡ upto log 67_540)
    × (result.end_block ≡ 67_540)
    × All (HasBlockHash 67_540 "0xb1") (between log (cached.end_block + 1) 67_540)
get_all_deposited_events_complete_example =
    get_all_deposited_events_complete env raw log node parse-stringify refl 67_540 "0xb1" cached
      start result (empty-IsSoundCache env raw log node) cached_at_start result_at_block

update_events_cache-IsSoundCache_example :
    IsSoundCache env raw log node (Deposit.update_events_cache env start).1
update_events_cache-IsSoundCache_example =
    update_events_cache-IsSoundCache env raw log node parse-stringify refl start
      (empty-IsSoundCache env raw log node)

answered : IsRecovering log 0 (Deposit.fetch_events env)
unfolding Deposit.fetch_events
answered = record {
  settles = λ turns s e range. inl (rw (traverse-events_from env raw log node s (e + 1 - s)));
  answers = λ turns s e range late. rw (traverse-events_from env raw log node s (e + 1 - s));
}

well : GoesWell env log
well = record {
  limit = 0;
  recovering = answered;
  rounds = omega arith;
  id = 1_337_803;
  chain = refl;
  mkdir = refl;
  write = refl;
}

cached-IsComplete : IsComplete env raw log node cached.group
cached-IsComplete =
    (get_cached_events-IsSoundCache env raw log node parse-stringify refl start
        (empty-IsSoundCache env raw log node)).1
      cached cached_at_start

update_events_cache-Reaches_example :
    ((Deposit.update_events_cache env start).0 ≡ ok tt)
    × Reaches env raw log node well (67_650 - 100) (Deposit.update_events_cache env start).1
update_events_cache-Reaches_example =
    update_events_cache-Reaches env raw log node well 67_650 cached start refl cached_at_start
      cached-IsComplete (omega arith)

-- the cache file is damaged, and cannot be removed
abbrev refused : Failure
refused = new_error "permission denied"

abbrev locked : DepositEnv
locked = record env { cache = record env.cache { unlink_fault = some refused } }

abbrev damaged : Deposits
damaged = record start { files = λ path. some "damaged" }

cached_at_damaged : (Deposit.get_cached_events locked damaged).0 ≡ ok cached
unfolding Deposit.get_cached_events Deposit.get_deployment_block_by_network Chains.by_network
    Chains.get_deployment_block_by_network get_cache get_cache_from_file get_cache_file_path
    get_cache_dir_path
cached_at_damaged = refl

cached_invalid : Deposit.validate_cache "1.0.0" cached 67_000 ≡ false
unfolding Deposit.validate_cache Deposit.validate_cache_block
cached_invalid = refl

initialize_kept_file_example :
    ((Deposit.initialize locked 67_000 damaged).0 ≡ ok tt)
    × ((Deposit.initialize locked 67_000 damaged).1.cache ≡ none)
    × ((Deposit.initialize locked 67_000 damaged).1.files
        ≡ (Deposit.get_cached_events locked damaged).1.files)
initialize_kept_file_example =
    initialize_kept_file locked 67_000 damaged cached refused 1_337_803 cached_at_damaged
      cached_invalid refl refl
