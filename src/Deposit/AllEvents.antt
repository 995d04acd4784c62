-- ===== src/Deposit/AllEvents.antt =====
-- `getAllDepositedEvents` of src/contracts/deposit/deposit.service.ts: the cache and the fresh events.
use mathlib.Core.Path.{ap₂}
use lidofinance_lido_council.Shared.{
  ℕ, ◌+◌, ◌≤◌, ◌<◌, String, ◌≡◌, ◌↔◌, refl, sym, ap, ◌∙◌, ap, List, [], ◌∷◌, ◌++◌, All, arith,
  eq_iff, leb, Bool-cases, inl, inr,
}
use lidofinance_lido_council.Outcome.{ok, exit, continue-eq-ok, ok-injective}
use lidofinance_lido_council.Provider.BlockLog.{BlockLog, between, upto, group_between, upto-append}
use lidofinance_lido_council.Deposit.{
  VerifiedDepositEvent, VerifiedDepositEventGroup, VerifiedDepositEventsCache, DepositEventEvent,
  DepositEnv, Deposits, check_events_block_hash, get_cached_events, validate_cache_block,
  fetch_events_fall_over, merge_fresh_events, get_all_deposited_events, deposit_cache_default,
}
use lidofinance_lido_council.Deposit.Node.{IsNode, chunk-eq-between}
use lidofinance_lido_council.Deposit.EventCache.{
  IsComplete, IsSoundCache, get_cached_events-IsSoundCache,
}

-- An event of the block `block_number` carries its hash.
abbrev pub HasBlockHash : ℕ → String → VerifiedDepositEvent → Type 0
HasBlockHash block_number block_hash event =
    event.block_number ≡ block_number → event.block_hash ≡ block_hash

-- The check passes exactly when each event of the block has the hash of the block.
pub check_events_block_hash_iff :
    (events : List VerifiedDepositEvent) (block_number : ℕ) (block_hash : String)
    → (check_events_block_hash events block_number block_hash ≡ ok tt)
      ↔ All (HasBlockHash block_number block_hash) events
unfolding check_events_block_hash
check_events_block_hash_iff [] n h = (λ _. tt, λ _. refl)
check_events_block_hash_iff (event ∷ events) n h =
    let (sound, complete) = check_events_block_hash_iff events n h in
    (
      λ passed. (
        λ e. ground (arith, eq_iff event.block_hash h),
        sound (ground (arith, eq_iff event.block_hash h)),
      ),
      λ (good, rest). ground (arith, eq_iff event.block_hash h, complete rest),
    )

module _ (env : DepositEnv) (raw : BlockLog DepositEventEvent) (log : BlockLog VerifiedDepositEvent)
    (node : IsNode env raw log)
    (json : (v w : VerifiedDepositEventsCache)
      → env.cache.parse (env.cache.stringify v) ≡ ok w
      → w ≡ v)
    (registered : env.cache.cache_default_value ≡ deposit_cache_default) where
  merge_fresh_events_complete :
      (n : ℕ) (h : String) (cached : VerifiedDepositEventsCache) (s : Deposits)
      (g : VerifiedDepositEventGroup)
      → IsComplete env raw log node cached.group
      → cached.end_block ≤ n
      → (merge_fresh_events env n h cached s).0 ≡ ok g
      → (g.events ≡ upto log n)
        × (g.end_block ≡ n)
        × All (HasBlockHash n h) (between log (cached.end_block + 1) n)
  unfolding merge_fresh_events
  merge_fresh_events_complete n h cached s g complete order merged =
      let (fresh, ef, merged') =
        continue-eq-ok _ (fetch_events_fall_over env (cached.end_block + 1) n) s merged in
      let (u, ec, merged'') =
        continue-eq-ok _ (check_events_block_hash fresh.events n h) s merged' in
      let fetched : fresh ≡ group_between log (cached.end_block + 1) n =
        chunk-eq-between env raw log node _ _ fresh (omega arith) ef in
      let events : fresh.events ≡ between log (cached.end_block + 1) n =
        ap (λ (x : VerifiedDepositEventGroup). x.events) fetched in
      let shown : g ≡ _ = sym (ok-injective merged'') in
      (
        ap (λ (x : VerifiedDepositEventGroup). x.events) shown
            ∙ ap₂ (λ (a b : List VerifiedDepositEvent). a ++ b) complete events
            ∙ upto-append log cached.end_block n order,
        ap (λ (x : VerifiedDepositEventGroup). x.end_block) shown,
        (check_events_block_hash_iff (between log (cached.end_block + 1) n) n h).0
            (rw (← events) ec),
      )

  -- The node answers log queries honestly, what the codec reads back is what was written, and the
  -- default value is the registered one. From a sound cache that is read, a call that succeeds returns
  -- all events of the chain up to the asked block, and those after the cached end block that are of the
  -- block itself carry the asked hash.
  pub get_all_deposited_events_complete :
      (n : ℕ) (h : String) (cached : VerifiedDepositEventsCache) (s : Deposits)
      (g : VerifiedDepositEventGroup)
      → IsSoundCache env raw log node s
      → (get_cached_events env s).0 ≡ ok cached
      → (get_all_deposited_events env n h s).0 ≡ ok g
      → (g.events ≡ upto log n)
        × (g.end_block ≡ n)
        × All (HasBlockHash n h) (between log (cached.end_block + 1) n)
  unfolding get_all_deposited_events validate_cache_block
  get_all_deposited_events_complete n h cached s g sound known result =
      let (kept, complete) =
        get_cached_events-IsSoundCache env raw log node json registered s sound in
      elim (Bool-cases (leb cached.end_block n)) [
        | inl old ↦
            merge_fresh_events_complete n h cached (get_cached_events env s).1 g
              (complete cached known) (ground arith) (rw (known, old) at result)
        | inr new ↦ absurd (ground arith)
      ]

-- A cache that is newer than the asked block ends the process, and nothing is fetched.
pub get_all_deposited_events-newer_cache :
    (env : DepositEnv) (n : ℕ) (h : String) (cached : VerifiedDepositEventsCache) (s : Deposits)
    → (get_cached_events env s).0 ≡ ok cached
    → n < cached.end_block
    → get_all_deposited_events env n h s ≡ (exit, (get_cached_events env s).1)
unfolding get_all_deposited_events validate_cache_block
get_all_deposited_events-newer_cache env n h cached s known newer = ground arith
