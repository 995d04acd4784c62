-- ===== src/Deposit/History.antt =====
-- The cached events of src/contracts/deposit/deposit.service.ts from one cycle of the guardian to the
-- next: in memory and in the cache file there are only all events of the chain up to an end block.
use lidofinance_lido_council.Shared.{
  ℕ, ◌+◌, String, ◌≡◌, inl, inr, sym, ap, ◌∙◌, Option, some, Bool-cases, ◌==◌, ◌%◌,
}
use lidofinance_lido_council.Outcome.{
  Outcome, ok, throw, exit, pending, continue_keeps, handle, process_exit, continue-eq-ok,
  ok-injective,
}
use lidofinance_lido_council.Provider.BlockLog.{BlockLog, upto}
use lidofinance_lido_council.Cache.{get_cache_file_path, delete_cache}
use lidofinance_lido_council.Cache.Invariant.{delete_cache-IsSound}
use lidofinance_lido_council.Decorators.{OneAtTime, one_at_time, settle}
use lidofinance_lido_council.Deposit.{
  VerifiedDepositEvent, VerifiedDepositEventGroup, VerifiedDepositEventsCache, DepositEventEvent,
  DepositEnv, Deposits, get_deployment_block_by_network, verify_deposit, get_cached_events,
  update_events_cache, handle_new_block, validate_cache_block, merge_fresh_events,
  get_all_deposited_events, initialize, delete_cached_events, validate_cache, deposit_cache_default,
  deposit_events_cache_update_block_rate, fetch_events_fall_over, check_events_block_hash,
}
use lidofinance_lido_council.Deposit.Node.{IsNode}
use lidofinance_lido_council.Deposit.EventCache.{
  IsSoundCache, get_cached_events-IsSoundCache, update_events_cache-IsSoundCache,
}
use lidofinance_lido_council.Deposit.AllEvents.{get_all_deposited_events_complete}

-- What the cache holds is complete, in memory and in the file `file` as `parse` reads it.
pub record IsStored (log : BlockLog VerifiedDepositEvent) (file : String)
    (parse : String → Outcome VerifiedDepositEventsCache) (s : Deposits) : Type 0 where
  pub memory : (v : VerifiedDepositEventsCache) → s.cache ≡ some v → v.events ≡ upto log v.end_block
  pub stored :
      (content : String) (v : VerifiedDepositEventsCache)
      → s.files file ≡ some content
      → parse content ≡ ok v
      → v.events ≡ upto log v.end_block

-- A cycle's node answers log queries honestly, the codec reads back what was written, the default value
-- is the registered one, and the cache file is the same in all cycles.
pub record IsHonest (raw : BlockLog DepositEventEvent) (log : BlockLog VerifiedDepositEvent)
    (file : String) (parse : String → Outcome VerifiedDepositEventsCache) (env : DepositEnv)
    : Type 0 where
  pub node : IsNode env raw log
  pub json :
      (v w : VerifiedDepositEventsCache) → env.cache.parse (env.cache.stringify v) ≡ ok w → w ≡ v
  pub registered : env.cache.cache_default_value ≡ deposit_cache_default
  pub path : get_cache_file_path env.cache ≡ ok file
  pub reads : env.cache.parse ≡ parse

module _ (raw : BlockLog DepositEventEvent) (log : BlockLog VerifiedDepositEvent) (file : String)
    (parse : String → Outcome VerifiedDepositEventsCache) where
  -- The contract that events are asked of may change.
  pub contract-IsHonest :
      (env : DepositEnv) (contract : Option String)
      → IsHonest raw log file parse env
      → IsHonest raw log file parse (record env { deposit_contract = contract })
  unfolding verify_deposit get_deployment_block_by_network
  contract-IsHonest env contract h = record {
    node = record {
      verifies = h.node.verifies;
      honest = h.node.honest;
      genesis = h.node.genesis;
      silent = h.node.silent;
    };
    json = h.json;
    registered = h.registered;
    path = h.path;
    reads = h.reads;
  }

  module _ (env : DepositEnv) (honest : IsHonest raw log file parse env) where
    IsStored-IsSoundCache :
        (s : Deposits) → IsStored log file parse s → IsSoundCache env raw log honest.node s
    unfolding IsSoundCache
    IsStored-IsSoundCache s kept = record {
      memory = kept.memory;
      file = λ path content v at_path holds read.
          kept.stored content v (ap s.files (ok-injective (sym honest.path ∙ at_path)) ∙ holds)
            (ap (λ p. p content) (sym honest.reads) ∙ read);
    }

    IsSoundCache-IsStored :
        (s : Deposits) → IsSoundCache env raw log honest.node s → IsStored log file parse s
    unfolding IsSoundCache
    IsSoundCache-IsStored s sound = record {
      memory = sound.memory;
      stored = λ content v holds read.
          sound.file file content v honest.path holds (ap (λ p. p content) honest.reads ∙ read);
    }

    pub update_events_cache-IsStored :
        (s : Deposits)
        → IsStored log file parse s
        → IsStored log file parse (update_events_cache env s).1
    update_events_cache-IsStored s kept = IsSoundCache-IsStored (update_events_cache env s).1 (
        update_events_cache-IsSoundCache env raw log honest.node honest.json honest.registered s
          (IsStored-IsSoundCache s kept))

    -- The start keeps it too, whether the cache is taken over or deleted.
    pub initialize-IsStored :
        (n : ℕ) (s : Deposits)
        → IsStored log file parse s
        → IsStored log file parse (initialize env n s).1
    unfolding initialize delete_cached_events
    initialize-IsStored n s kept =
        continue_keeps (IsStored log file parse) _ (get_cached_events env s).0 after cached (λ c _.
          elim (Bool-cases (validate_cache env.app_version c n)) [
            | inl valid ↦ rw valid cached
            | inr invalid ↦
                rw invalid (
                  handled (delete_cache env.cache after).0 (delete_cache env.cache after).1 deleted)
          ])
      where
        after : Deposits
        after = (get_cached_events env s).1

        cached : IsStored log file parse after
        cached =
            IsSoundCache-IsStored after
              (get_cached_events-IsSoundCache env raw log honest.node honest.json honest.registered
                s (IsStored-IsSoundCache s kept)).0

        deleted : IsStored log file parse (delete_cache env.cache after).1
        deleted = IsSoundCache-IsStored (delete_cache env.cache after).1 (
            unfold IsSoundCache in
            delete_cache-IsSound env.cache _ after
              (unfold IsSoundCache in IsStored-IsSoundCache after cached))

        handled :
            (r : Outcome (Unit {0})) (x : Deposits)
            → IsStored log file parse x
            → IsStored log file parse (handle (λ error. process_exit) r x).1
        handled (ok _) x k = k
        handled (throw _) x k = k
        handled exit x k = k
        handled pending x k = k

    pub handle_new_block-IsStored :
        (n : ℕ) (s : OneAtTime Deposits)
        → IsStored log file parse s.state
        → IsStored log file parse (handle_new_block env n s).1.state
    unfolding handle_new_block one_at_time
    handle_new_block-IsStored n s kept = elim (Bool-cases s.is_executing) [
      | inl busy ↦ rw busy kept
      | inr free ↦ elim (Bool-cases ((n % deposit_events_cache_update_block_rate) == 0)) [
        | inl due ↦
            rw (free, due)
              (settle_keeps (update_events_cache env s.state).0 (update_events_cache env s.state).1
                (update_events_cache-IsStored s.state kept))
        | inr early ↦ rw (free, early) kept
      ]
    ]
      where
        settle_keeps :
            (r : Outcome (Unit {0})) (x : Deposits)
            → IsStored log file parse x
            → IsStored log file parse (settle r x).1.state
        settle_keeps (ok _) x k = k
        settle_keeps (throw _) x k = k
        settle_keeps exit x k = k
        settle_keeps pending x k = k

    pub get_all_deposited_events-IsStored :
        (n : ℕ) (h : String) (s : Deposits)
        → IsStored log file parse s
        → IsStored log file parse (get_all_deposited_events env n h s).1
    unfolding get_all_deposited_events merge_fresh_events
    get_all_deposited_events-IsStored n h s kept =
        continue_keeps (IsStored log file parse) _ (get_cached_events env s).0 after cached (λ c _.
          elim (Bool-cases (validate_cache_block c n)) [
            | inl older ↦ rw older (
                continue_keeps (IsStored log file parse) _
                  (fetch_events_fall_over env (c.end_block + 1) n) after cached
                  (λ fresh _.
                    continue_keeps (IsStored log file parse) _
                      (check_events_block_hash fresh.events n h) after cached (λ _ _. cached)))
            | inr newer ↦ rw newer cached
          ])
      where
        after : Deposits
        after = (get_cached_events env s).1

        cached : IsStored log file parse after
        cached =
            IsSoundCache-IsStored after
              (get_cached_events-IsSoundCache env raw log honest.node honest.json honest.registered
                s (IsStored-IsSoundCache s kept)).0

    -- From a complete cache, a call that succeeds returns all events of the chain up to the block.
    pub get_all_deposited_events-upto :
        (n : ℕ) (h : String) (s : Deposits) (g : VerifiedDepositEventGroup)
        → IsStored log file parse s
        → (get_all_deposited_events env n h s).0 ≡ ok g
        → g.events ≡ upto log n
    unfolding get_all_deposited_events
    get_all_deposited_events-upto n h s g kept got =
        let (cached, read, _) =
          continue-eq-ok _ (get_cached_events env s).0 (get_cached_events env s).1 got in
        (get_all_deposited_events_complete env raw log honest.node honest.json honest.registered n h
          cached s g (IsStored-IsSoundCache s kept) read got).0
