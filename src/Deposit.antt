-- ===== src/Deposit.antt =====
-- src/contracts/deposit/: the events of the deposit contract, cached up to a lag behind the head.
-- The methods are actions on the cache of src/cache. Log lines are not modelled.
pub mod Node
pub mod EventCache
pub mod AllEvents
pub mod History
pub mod Progress
pub mod Startup
pub mod Signed
use lidofinance_lido_council.Shared.{
  ℕ, zero, suc, ◌+◌, ◌-◌, ◌%◌, String, Option, none, some, Bool, true, false, not, ◌&&◌, List, [],
  ◌∷◌, ◌++◌, length, ltb, leb, ◌==◌, str_eq, if◌then◌else◌,
}
use lidofinance_lido_council.Outcome.{
  Failure, new_error, Outcome, ok, throw, exit, pending, bind, traverse, Exec, pure, lift,
  process_exit, ◌>>=◌, ◌>>◌, try_catch, both,
}
use lidofinance_lido_council.Chains
use lidofinance_lido_council.Chains.{Chains}
use lidofinance_lido_council.Cache
use lidofinance_lido_council.Cache.{CacheConfig, CacheState}
use lidofinance_lido_council.Decorators.{OneAtTime, one_at_time}
use lidofinance_lido_council.Provider
use lidofinance_lido_council.Provider.{EventGroup, Turn, Fetcher}
pub use lidofinance_lido_council.DepositEvents.{
  DepositEvent, VerifiedDepositEvent, VerifiedDepositEventGroup, VerifiedDepositEventsCache,
  DepositEventArgs, DepositEventEvent, deposit_events_cache_lag_blocks, deposit_events_step,
  deposit_events_cache_update_block_rate, deposit_cache_default,
}

-- What the other services and the node answer during one call of a method. `rounds` is the fuel of
-- `fetchEventsFallOver`.
pub record DepositEnv : Type 0 where
  pub cache : CacheConfig VerifiedDepositEventsCache
  pub chains : Chains
  pub app_version : String
  pub block_number : Outcome ℕ
  pub deposit_contract : Option String
  pub query_filter : String → List Turn → ℕ → ℕ → Outcome (List DepositEventEvent)
  pub get_deposit_root : String → String → Outcome String
  pub verify : DepositEvent → Outcome Bool
  pub rounds : ℕ

abbrev pub Deposits : Type 0
Deposits = CacheState VerifiedDepositEventsCache

abbrev pub Action : Type 0 → Type 0
Action = Exec Deposits

-- `validateCacheVersion`
validate_cache_version : String → VerifiedDepositEventsCache → Bool
validate_cache_version app_version cached_events = str_eq cached_events.version app_version

-- `validateCacheBlock`
unfoldable pub validate_cache_block : VerifiedDepositEventsCache → ℕ → Bool
validate_cache_block cached_events current_block = leb cached_events.end_block current_block

unfoldable pub validate_cache : String → VerifiedDepositEventsCache → ℕ → Bool
unfolding validate_cache_block validate_cache_version
validate_cache app_version cached_events current_block =
    validate_cache_block cached_events current_block
    && validate_cache_version app_version cached_events

unfoldable pub format_event : DepositEventEvent → DepositEvent
format_event raw_event = record {
  pubkey = raw_event.args.pubkey;
  wc = raw_event.args.withdrawal_credentials;
  amount = raw_event.args.amount;
  signature = raw_event.args.signature;
  tx = raw_event.transaction_hash;
  block_number = raw_event.block_number;
  block_hash = raw_event.block_hash;
}

-- `Math.max(a, b)`
abbrev pub max : ℕ → ℕ → ℕ
max a b = if ltb a b then b else a

-- `Math.min(a, b)`
abbrev pub min : ℕ → ℕ → ℕ
min a b = if ltb a b then a else b

-- The `TypeError` of a method call on `undefined`.
abbrev pub type_error : Failure
type_error = new_error "Cannot read properties of undefined"

abbrev pub defined : Option String → Outcome String
defined none = throw type_error
defined (some contract) = ok contract

-- The check of one event: an event of the block itself has the block's hash.
unfoldable pub is_of_another_chain : ℕ → String → DepositEvent → Bool
is_of_another_chain block_number block_hash event =
    (event.block_number == block_number) && not (str_eq event.block_hash block_hash)

unfoldable pub check_events_block_hash : List VerifiedDepositEvent → ℕ → String → Outcome (Unit {0})
unfolding is_of_another_chain
check_events_block_hash [] block_number block_hash = ok tt
check_events_block_hash (event ∷ events) block_number block_hash =
    let rest = check_events_block_hash events block_number block_hash in
    if is_of_another_chain block_number block_hash event.deposit
    then throw (new_error "Blockhash of the received events does not match the current blockhash")
    else rest

module _ (env : DepositEnv) where
  unfoldable pub get_deployment_block_by_network : Outcome ℕ
  get_deployment_block_by_network =
      bind env.cache.chain_id (Chains.get_deployment_block_by_network env.chains)

  abbrev from_deployment : ℕ → VerifiedDepositEventsCache → VerifiedDepositEventsCache
  from_deployment deployment_block cached = record {
    version = cached.version;
    group = record {
      events = cached.events;
      start_block = max cached.start_block deployment_block;
      end_block = max cached.end_block deployment_block;
    };
  }

  unfoldable pub get_cached_events : Action VerifiedDepositEventsCache
  get_cached_events = do
    cached_event_group ← Cache.get_cache env.cache
    deployment_block ← lift get_deployment_block_by_network
    pure (from_deployment deployment_block cached_event_group)

  pub set_cached_events : VerifiedDepositEventGroup → Action (Unit {0})
  set_cached_events event_group =
      Cache.set_cache env.cache (record { version = env.app_version; group = event_group })

  unfoldable delete_cached_events : Action (Unit {0})
  delete_cached_events = Cache.delete_cache env.cache

  pub initialize : ℕ → Action (Unit {0})
  initialize block_number = do
    cached_events ← get_cached_events
    if validate_cache env.app_version cached_events block_number
        then pure tt
        else try_catch delete_cached_events (λ error. process_exit)

  unfoldable pub verify_deposit : DepositEvent → Outcome Bool
  verify_deposit = env.verify

  abbrev pub verified : DepositEventEvent → Outcome VerifiedDepositEvent
  verified raw_event =
      bind (verify_deposit (format_event raw_event))
        (λ valid. ok (record { valid = valid; deposit = format_event raw_event }))

  unfoldable pub fetch_events : Fetcher VerifiedDepositEvent
  unfolding verify_deposit format_event
  fetch_events turns start_block end_block = bind (defined env.deposit_contract) λ contract.
      bind (env.query_filter contract turns start_block end_block) λ raw_events.
        bind (traverse verified raw_events) λ events.
          ok (record { events = events; start_block = start_block; end_block = end_block })

  unfoldable pub fetch_events_fall_over : ℕ → ℕ → Outcome VerifiedDepositEventGroup
  fetch_events_fall_over start_block end_block =
      Provider.fetch_events_fall_over env.rounds fetch_events [] start_block end_block

  abbrev add_chunk :
      VerifiedDepositEventGroup → VerifiedDepositEventGroup → VerifiedDepositEventGroup
  add_chunk event_group chunk = record event_group {
    events = event_group.events ++ chunk.events;
    end_block = chunk.end_block;
  }

  -- The loop over chunks; the fuel is more than the number of blocks to fetch.
  pub update_from : ℕ → ℕ → ℕ → VerifiedDepositEventGroup → Action VerifiedDepositEventGroup
  update_from zero to_block block event_group = lift pending
  update_from (suc fuel) to_block block event_group =
      if leb block to_block
      then (do
        chunk ← lift (fetch_events_fall_over block (min to_block (block + deposit_events_step - 1)))
        let event_group' = add_chunk event_group chunk
        set_cached_events event_group'
        update_from fuel to_block (block + deposit_events_step) event_group')
      else pure event_group

  -- Below block 100 the source's `toBlock` is negative and the loop is not entered; here it is 0, and
  -- the first block not cached is at least 1.
  pub update_to : ℕ → VerifiedDepositEventsCache → Action (Unit {0})
  update_to current_block initial_cache = do
    let to_block = current_block - deposit_events_cache_lag_blocks
    update_from (to_block + 2 - initial_cache.end_block) to_block (initial_cache.end_block + 1)
        initial_cache.group
    pure tt

  pub update_events_cache : Action (Unit {0})
  unfolding update_to
  update_events_cache = do
    (current_block, initial_cache) ← both (lift env.block_number) get_cached_events
    update_to current_block initial_cache

  -- The decorated method: a failed update is logged, and does not reach the caller.
  unfoldable pub handle_new_block : ℕ → Exec (OneAtTime Deposits) (Option (Unit {0}))
  handle_new_block block_number = one_at_time (
      if (block_number % deposit_events_cache_update_block_rate) == 0
      then update_events_cache
      else pure tt)

  unfoldable pub merge_fresh_events :
      ℕ → String → VerifiedDepositEventsCache → Action VerifiedDepositEventGroup
  merge_fresh_events block_number block_hash cached_events = do
    fresh ← lift (fetch_events_fall_over (cached_events.end_block + 1) block_number)
    lift (check_events_block_hash fresh.events block_number block_hash)
    pure (record {
      events = cached_events.events ++ fresh.events;
      start_block = cached_events.start_block;
      end_block = block_number;
    })

  unfoldable pub get_all_deposited_events : ℕ → String → Action VerifiedDepositEventGroup
  unfolding merge_fresh_events
  get_all_deposited_events block_number block_hash = do
    cached_events ← get_cached_events
    if validate_cache_block cached_events block_number
        then merge_fresh_events block_number block_hash cached_events
        else process_exit

  unfoldable pub get_deposit_root : String → Outcome String
  get_deposit_root block_tag =
      bind (defined env.deposit_contract) (λ contract. env.get_deposit_root contract block_tag)
