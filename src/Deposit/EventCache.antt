-- ===== src/Deposit/EventCache.antt =====
-- The invariant of the event cache of src/contracts/deposit/deposit.service.ts: what is cached is all
-- events of the chain up to the cached end block.
use mathlib.Core.Path.{subst}
use lidofinance_lido_council.Shared.{
  none, Bool, true, false, ℕ, zero, suc, ◌+◌, ◌-◌, ◌≤◌, ◌<◌, ◌≡◌, ◌≢◌, refl, sym, ap, ◌∙◌, [],
  arith, ltb, leb,
}
use lidofinance_lido_council.Outcome.{
  pure, lift, Outcome, ok, continue, continue_keeps, continue-eq-ok, both_of-eq-ok, both,
}
use lidofinance_lido_council.Provider.BlockLog.{
  BlockLog, upto, group_between, upto-append, events_from-empty,
}
use lidofinance_lido_council.Cache.{get_cache}
use lidofinance_lido_council.Cache.Invariant.{IsSound, get_cache-IsSound, set_cache-IsSound}
use lidofinance_lido_council.Deposit.{
  VerifiedDepositEvent, VerifiedDepositEventGroup, VerifiedDepositEventsCache, DepositEventEvent,
  DepositEnv, Deposits, get_deployment_block_by_network, from_deployment, get_cached_events,
  set_cached_events, add_chunk, update_from, update_to, update_events_cache, deposit_events_step,
  deposit_cache_default, fetch_events_fall_over, min,
}
use lidofinance_lido_council.Deposit.Node.{IsNode, chunk-eq-between}

module _ (env : DepositEnv) (raw : BlockLog DepositEventEvent) (log : BlockLog VerifiedDepositEvent)
    (node : IsNode env raw log) where
  -- The events of the group are all events up to its end block.
  abbrev pub IsComplete : VerifiedDepositEventGroup → Type 0
  IsComplete g = g.events ≡ upto log g.end_block

  unfoldable pub IsSoundCache : Deposits → Type 0
  IsSoundCache = IsSound env.cache (λ cached. IsComplete cached.group)

  -- A daemon that starts without a cache file has a sound cache.
  pub empty-IsSoundCache : IsSoundCache (record { cache = none; files = λ path. none })
  unfolding IsSoundCache
  empty-IsSoundCache = record {
    memory = λ value kept. cc;
    file = λ path content value known kept read. cc;
  }

  from_deployment-IsComplete :
      (deployment : ℕ) (cached : VerifiedDepositEventsCache)
      → get_deployment_block_by_network env ≡ ok deployment
      → IsComplete cached.group
      → IsComplete (from_deployment env deployment cached).group
  from_deployment-IsComplete deployment cached known complete =
      by_order (ltb cached.end_block deployment) refl
    where
      empty : (last : ℕ) → last ≤ deployment → upto log last ≡ []
      empty last h =
          events_from-empty log 0 (last + 1 - 0)
            (λ b low. node.silent deployment b known (omega arith))

      by_order :
          (b : Bool)
          → ltb cached.end_block deployment ≡ b
          → IsComplete (from_deployment env deployment cached).group
      by_order true below =
          rw below (
            complete ∙ empty cached.end_block (ground arith) ∙ sym (empty deployment (omega arith)))
      by_order false above = rw above complete

  -- A fetched chunk that begins behind the end of a complete group extends it.
  pub add_chunk-IsComplete :
      (group chunk : VerifiedDepositEventGroup) (last : ℕ)
      → IsComplete group
      → group.end_block ≤ last
      → chunk ≡ group_between log (group.end_block + 1) last
      → IsComplete (add_chunk env group chunk)
  add_chunk-IsComplete group chunk last complete order fetched =
      rw (fetched, complete) (upto-append log group.end_block last order)

  module _ (fuel to_block block : ℕ) (group : VerifiedDepositEventGroup) (s : Deposits) where
    abbrev pub chunk_end : ℕ
    chunk_end = min to_block (block + deposit_events_step - 1)

    pub update_from-done :
        leb block to_block ≡ false
        → update_from env (suc fuel) to_block block group s ≡ (ok group, s)
    unfolding update_from
    update_from-done h = rw h

    pub update_from-step :
        (chunk : VerifiedDepositEventGroup)
        → leb block to_block ≡ true
        → fetch_events_fall_over env block chunk_end ≡ ok chunk
        → update_from env (suc fuel) to_block block group s ≡ (
            let (r, s') = set_cached_events env (add_chunk env group chunk) s in
            continue
              (λ _.
                update_from env fuel to_block
                  (block + deposit_events_step)
                  (add_chunk env group chunk))
              r
              s')
    unfolding update_from
    update_from-step chunk h e = rw (h, e)

    -- A fetch that does not end well leaves the state alone.
    update_from-failed :
        leb block to_block ≡ true
        → ((chunk : VerifiedDepositEventGroup)
            → fetch_events_fall_over env block chunk_end ≢ ok chunk)
        → (update_from env (suc fuel) to_block block group s).1 ≡ s
    unfolding update_from
    update_from-failed h e = by_answer (fetch_events_fall_over env block chunk_end) refl
      where
        by_answer :
            (r : Outcome VerifiedDepositEventGroup)
            → fetch_events_fall_over env block chunk_end ≡ r
            → (update_from env (suc fuel) to_block block group s).1 ≡ s
        by_answer (ok chunk) er = absurd (e chunk er)
        by_answer r er = rw (h, er)

  -- What is written to the cache by one chunk after another is complete, wherever the loop stops.
  module _
      (json : (v w : VerifiedDepositEventsCache)
        → env.cache.parse (env.cache.stringify v) ≡ ok w
        → w ≡ v) where
    set_cached_events-IsSoundCache :
        (group : VerifiedDepositEventGroup) (s : Deposits)
        → IsComplete group
        → IsSoundCache s
        → IsSoundCache (set_cached_events env group s).1
    unfolding set_cached_events IsSoundCache
    set_cached_events-IsSoundCache group s complete sound =
        set_cache-IsSound env.cache _ (record { version = env.app_version; group = group }) s
          (json _) complete sound

    update_from-IsSoundCache :
        (fuel to_block block : ℕ) (group : VerifiedDepositEventGroup) (s : Deposits)
        → (leb block to_block ≡ true → block ≡ group.end_block + 1)
        → IsComplete group
        → IsSoundCache s
        → IsSoundCache (update_from env fuel to_block block group s).1
    update_from-IsSoundCache zero to_block block group s next complete sound =
        unfold update_from in sound
    update_from-IsSoundCache (suc fuel) to_block block group s next complete sound =
        by_test (update_from-IsSoundCache fuel to_block) (leb block to_block) refl
      where
        Goal : Type 0
        Goal = IsSoundCache (update_from env (suc fuel) to_block block group s).1

        Ih : Type 0
        Ih =
            (b : ℕ) (g : VerifiedDepositEventGroup) (x : Deposits)
            → (leb b to_block ≡ true → b ≡ g.end_block + 1)
            → IsComplete g
            → IsSoundCache x
            → IsSoundCache (update_from env fuel to_block b g x).1

        by_chunk :
            Ih
            → leb block to_block ≡ true
            → (chunk : VerifiedDepositEventGroup)
            → fetch_events_fall_over env block (chunk_end fuel to_block block group s) ≡ ok chunk
            → Goal
        by_chunk ih h chunk e = rw (update_from-step fuel to_block block group s chunk h e) (
            continue_keeps IsSoundCache _ (set_cached_events env extended s).0
              (set_cached_events env extended s).1 saved
              (λ _ _.
                ih (block + deposit_events_step) extended (set_cached_events env extended s).1
                  following extended_complete saved))
          where
            extended : VerifiedDepositEventGroup
            extended = add_chunk env group chunk

            fetched : chunk ≡ group_between log block (chunk_end fuel to_block block group s)
            fetched =
                chunk-eq-between env raw log node block (chunk_end fuel to_block block group s)
                  chunk (ground arith) e

            extended_complete : IsComplete extended
            extended_complete =
                add_chunk-IsComplete group chunk (chunk_end fuel to_block block group s) complete
                  (let n = next h in ground arith)
                  (fetched
                    ∙ ap (λ b. group_between log b (chunk_end fuel to_block block group s))
                        (next h))

            following :
                leb (block + deposit_events_step) to_block ≡ true
                → block + deposit_events_step ≡ chunk.end_block + 1
            following more = rw fetched (ground arith)

            saved : IsSoundCache (set_cached_events env extended s).1
            saved = set_cached_events-IsSoundCache extended s extended_complete sound

        by_answer :
            Ih
            → leb block to_block ≡ true
            → (r : Outcome VerifiedDepositEventGroup)
            → fetch_events_fall_over env block (chunk_end fuel to_block block group s) ≡ r
            → Goal
        by_answer ih h (ok chunk) e = by_chunk ih h chunk e
        by_answer ih h r e =
            rw (update_from-failed fuel to_block block group s h (λ chunk e'. cc)) sound

        by_test : Ih → (b : Bool) → leb block to_block ≡ b → Goal
        by_test ih false h = rw (update_from-done fuel to_block block group s h) sound
        by_test ih true h =
            by_answer ih h
              (fetch_events_fall_over env block (chunk_end fuel to_block block group s)) refl

    module _ (registered : env.cache.cache_default_value ≡ deposit_cache_default) where
      default-IsComplete : IsComplete env.cache.cache_default_value.group
      default-IsComplete =
          rw registered (sym (events_from-empty log 0 (0 + 1 - 0) (λ b h. only_genesis b h)))
        where
          only_genesis : (b : ℕ) → b < 0 + (0 + 1 - 0) → log b ≡ []
          only_genesis b h = let e : b ≡ 0 = omega arith in rw e node.genesis

      pub get_cached_events-IsSoundCache :
          (s : Deposits)
          → IsSoundCache s
          → IsSoundCache (get_cached_events env s).1
            × ((c : VerifiedDepositEventsCache)
                → (get_cached_events env s).0 ≡ ok c
                → IsComplete c.group)
      unfolding get_cached_events IsSoundCache
      get_cached_events-IsSoundCache s sound =
          let (kept, read) = get_cache-IsSound env.cache _ default-IsComplete s sound in
          (
            continue_keeps IsSoundCache _ (get_cache env.cache s).0 (get_cache env.cache s).1 kept
                (λ a e.
                  continue_keeps IsSoundCache _ (get_deployment_block_by_network env)
                    (get_cache env.cache s).1 kept (λ _ _. kept)),
            λ c h.
                let (cached, ec, h') =
                  continue-eq-ok _ (get_cache env.cache s).0 (get_cache env.cache s).1 h in
                let (deployment, ed, h'') =
                  continue-eq-ok _ (get_deployment_block_by_network env) (get_cache env.cache s).1
                    h' in
                subst (λ (x : VerifiedDepositEventsCache). IsComplete x.group)
                  {x = from_deployment env deployment cached} {y = c} (cc)
                  (from_deployment-IsComplete deployment cached ed (read cached ec)),
          )

      update_to-IsSoundCache :
          (current : ℕ) (cached : VerifiedDepositEventsCache) (s : Deposits)
          → IsComplete cached.group
          → IsSoundCache s
          → IsSoundCache (update_to env current cached s).1
      unfolding update_to
      update_to-IsSoundCache current cached s complete sound =
          continue_keeps IsSoundCache (λ _. pure tt) _ _
            (update_from-IsSoundCache _ _ (cached.end_block + 1) cached.group s (λ _. refl) complete
              sound)
            (λ _ _.
              update_from-IsSoundCache _ _ (cached.end_block + 1) cached.group s (λ _. refl)
                complete sound)

      -- The node answers log queries honestly, what the codec reads back is what was written, and the
      -- default value is the registered one. Then an update, whatever the node, the provider and the
      -- file system refuse on the way, keeps the cache sound: in memory and in the file, its events are
      -- all events of the chain up to its end block.
      pub update_events_cache-IsSoundCache :
          (s : Deposits) → IsSoundCache s → IsSoundCache (update_events_cache env s).1
      unfolding update_events_cache
      update_events_cache-IsSoundCache s sound =
          let (kept, complete) = get_cached_events-IsSoundCache s sound in
          continue_keeps IsSoundCache
            (λ (a : ℕ × VerifiedDepositEventsCache). update_to env a.0 a.1)
            (both (lift env.block_number) (get_cached_events env) s).0 (get_cached_events env s).1
            kept
            (λ a e.
              update_to-IsSoundCache a.0 a.1 (get_cached_events env s).1
                (complete a.1 (read_by_both a e)) kept)
        where
          read_by_both :
              (a : ℕ × VerifiedDepositEventsCache)
              → (both (lift env.block_number) (get_cached_events env) s).0 ≡ ok a
              → (get_cached_events env s).0 ≡ ok a.1
          read_by_both a e = (both_of-eq-ok env.block_number (get_cached_events env s).0 e).1
