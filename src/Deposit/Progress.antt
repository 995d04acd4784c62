-- ===== src/Deposit/Progress.antt =====
-- How far `updateEventsCache` of src/contracts/deposit/deposit.service.ts gets.
use lidofinance_lido_council.Shared.{
  ℕ, zero, suc, ◌+◌, ◌-◌, ◌≤◌, ◌<◌, ◌≡◌, refl, ap, none, some, Bool, true, false, [], arith, leb,
}
use lidofinance_lido_council.Outcome.{Outcome, ok, both_of}
use lidofinance_lido_council.Provider.BlockLog.{BlockLog, group_between}
use lidofinance_lido_council.Provider.FallOver.{IsRecovering, retries, fetch_events_fall_over-total}
use lidofinance_lido_council.Cache.{
  set_cache, save_cache_to_file, get_cache_file_path, get_cache_dir_path,
}
use lidofinance_lido_council.Cache.Invariant.{cache-set_cache}
use lidofinance_lido_council.Deposit.{
  VerifiedDepositEvent, VerifiedDepositEventGroup, VerifiedDepositEventsCache, DepositEventEvent,
  DepositEnv, Deposits, deposit_events_step, deposit_events_cache_lag_blocks, fetch_events,
  fetch_events_fall_over, add_chunk, min, set_cached_events, get_cached_events, update_from,
  update_to, update_events_cache,
}
use lidofinance_lido_council.Deposit.Node.{IsNode}
use lidofinance_lido_council.Deposit.EventCache.{
  IsComplete, add_chunk-IsComplete, update_from-done, update_from-step,
}

-- What has to go well outside for an update to come to its end: a request is answered after at most
-- `limit` retries, the rounds are enough for a chunk, and the file can be written.
pub record GoesWell (env : DepositEnv) (log : BlockLog VerifiedDepositEvent) : Type 0 where
  pub limit : ℕ
  pub recovering : IsRecovering log limit (fetch_events env)
  pub rounds : limit + deposit_events_step ≤ env.rounds
  pub id : ℕ
  pub chain : env.cache.chain_id ≡ ok id
  pub mkdir : env.cache.mkdir_fault ≡ none
  pub write : env.cache.write_fault ≡ none

module _ (env : DepositEnv) (raw : BlockLog DepositEventEvent) (log : BlockLog VerifiedDepositEvent)
    (node : IsNode env raw log) (well : GoesWell env log) where
  chunk-fetched :
      (s e : ℕ)
      → s ≤ e
      → e < s + deposit_events_step
      → fetch_events_fall_over env s e ≡ ok (group_between log s e)
  unfolding fetch_events_fall_over retries
  chunk-fetched s e order short =
      fetch_events_fall_over-total log well.limit (fetch_events env) well.recovering env.rounds [] s
        e order (let enough = well.rounds in omega arith)

  group-saved :
      (group : VerifiedDepositEventGroup) (s : Deposits) → (set_cached_events env group s).0 ≡ ok tt
  unfolding set_cached_events set_cache save_cache_to_file get_cache_file_path get_cache_dir_path
  group-saved group s = rw (well.chain, well.mkdir, well.write)

  -- The cache in memory holds a complete group that ends at the block.
  abbrev pub Reaches : ℕ → Deposits → Type 0
  Reaches last s =
      (g : VerifiedDepositEventGroup) × (s.cache
        ≡ some (record { version = env.app_version; group = g }))
      × (g.end_block ≡ last)
      × IsComplete env raw log node g

  abbrev Arrives : ℕ → Outcome VerifiedDepositEventGroup × Deposits → Type 0
  Arrives last r = ((g : VerifiedDepositEventGroup) × (r.0 ≡ ok g)) × Reaches last r.1

  update_from-Arrives :
      (fuel to_block block : ℕ) (group : VerifiedDepositEventGroup) (s : Deposits)
      → block ≡ group.end_block + 1
      → IsComplete env raw log node group
      → block ≤ to_block
      → to_block + 2 ≤ block + fuel
      → Arrives to_block (update_from env fuel to_block block group s)
  update_from-Arrives zero to_block block group s next complete range enough = absurd (omega arith)
  update_from-Arrives (suc fuel) to_block block group s next complete range enough =
      rw
        (
          update_from-step env raw log node fuel to_block block group s chunk (ground arith)
              fetched,
          group-saved extended s,
        )
        (by_rest (update_from-Arrives fuel to_block) (leb (block + deposit_events_step) to_block)
          refl)
    where
      last : ℕ
      last = min to_block (block + deposit_events_step - 1)

      chunk : VerifiedDepositEventGroup
      chunk = group_between log block last

      extended : VerifiedDepositEventGroup
      extended = add_chunk env group chunk

      fetched : fetch_events_fall_over env block last ≡ ok chunk
      fetched = chunk-fetched block last (ground arith) (ground arith)

      extended-IsComplete : IsComplete env raw log node extended
      extended-IsComplete =
          add_chunk-IsComplete env raw log node group chunk last complete (ground arith)
            (ap (λ b. group_between log b last) next)

      saved : Deposits
      saved = (set_cached_events env extended s).1

      stored : saved.cache ≡ some (record { version = env.app_version; group = extended })
      stored =
          unfold set_cached_events in
          cache-set_cache env.cache (λ cached. Unit {0})
            (record { version = env.app_version; group = extended }) s

      by_rest :
          ((b : ℕ) (g : VerifiedDepositEventGroup) (x : Deposits)
            → b ≡ g.end_block + 1
            → IsComplete env raw log node g
            → b ≤ to_block
            → to_block + 2 ≤ b + fuel
            → Arrives to_block (update_from env fuel to_block b g x))
          → (more : Bool) → leb (block + deposit_events_step) to_block ≡ more
          → Arrives to_block
              (update_from env fuel to_block (block + deposit_events_step) extended saved)
      by_rest ih true e =
          ih (block + deposit_events_step) extended saved (ground arith) extended-IsComplete
            (ground arith) (omega arith)
      by_rest ih false e = by_fuel fuel refl
        where
          by_fuel :
              (f : ℕ)
              → fuel ≡ f
              → Arrives to_block
                  (update_from env fuel to_block (block + deposit_events_step) extended saved)
          by_fuel zero ef = absurd (omega arith)
          by_fuel (suc f) ef =
              rw
                (
                  ef,
                  update_from-done env raw log node f to_block (block + deposit_events_step)
                      extended saved e,
                )
                ((extended, refl), (extended, stored, ground arith, extended-IsComplete))

  -- The node answers log queries honestly and all goes well outside. If the head is known, and the cache
  -- that is read is complete and ends before the lag behind the head, then an update ends well, and the
  -- cache in memory holds all events of the chain up to the lag behind the head.
  pub update_events_cache-Reaches :
      (head : ℕ) (cached : VerifiedDepositEventsCache) (s : Deposits)
      → env.block_number ≡ ok head
      → (get_cached_events env s).0 ≡ ok cached
      → IsComplete env raw log node cached.group
      → cached.end_block + deposit_events_cache_lag_blocks < head
      → ((update_events_cache env s).0 ≡ ok tt)
        × Reaches (head - deposit_events_cache_lag_blocks) (update_events_cache env s).1
  unfolding update_events_cache update_to both_of
  update_events_cache-Reaches head cached s latest read complete behind =
      let ((g, ended), reached) =
        update_from-Arrives (head - deposit_events_cache_lag_blocks + 2 - cached.end_block)
          (head - deposit_events_cache_lag_blocks) (cached.end_block + 1) cached.group
          (get_cached_events env s).1 refl complete (omega arith) (omega arith) in
      simp (latest, read, ended) (refl, reached)
