-- ===== src/Guardian/Schedule/Start.antt =====
-- The daemon of src/guardian/guardian.service.ts from its start on: `onModuleInit`, and then the cycles.
use mathlib.Core.Path.{subst}
use lidofinance_lido_council.Shared.{◌≡◌, refl, ℕ, String, List}
use lidofinance_lido_council.Outcome.{
  Outcome, ok, throw, exit, pending, continue_keeps, handle, process_exit,
}
use lidofinance_lido_council.Provider.BlockLog.{BlockLog}
use lidofinance_lido_council.Repository.{RepositoryEnv, Block, init_or_wait_cached_contracts}
use lidofinance_lido_council.Deposit.{
  VerifiedDepositEvent, VerifiedDepositEventsCache, DepositEventEvent,
}
use lidofinance_lido_council.Deposit.History.{
  IsStored, IsHonest, initialize-IsStored, update_events_cache-IsStored,
}
use lidofinance_lido_council.StakingRouter.{RouterCache}
use lidofinance_lido_council.Messages.{Broker}
use lidofinance_lido_council.Security.{Pausing}
use lidofinance_lido_council.Guardian.State.{Daemon, GuardianEnv, deposit_env, on_repository}
use lidofinance_lido_council.Shared.{Occurs}
use lidofinance_lido_council.Guardian.Cycle.{on_module_init, initialize_services, update_cache}
use lidofinance_lido_council.Guardian.Schedule.{Happening, job_fires, subscribe_to_modules_updates}
use lidofinance_lido_council.Guardian.Schedule.Safety.{WasAnswered, WasAnsweredFrom}
use lidofinance_lido_council.Guardian.Schedule.History.{
  SaysOf, asked-IsHonest, subscribe_to_modules_updates_complete,
}

module _ (raw : BlockLog DepositEventEvent) (log : BlockLog VerifiedDepositEvent) (file : String)
    (parse : String → Outcome VerifiedDepositEventsCache) where
  module _ (env : GuardianEnv) (honest : IsHonest raw log file parse env.deposit)
      (start : Daemon) where
    -- The start says nothing and asks the keys service nothing, and what is cached stays complete.
    abbrev Starts : Daemon → Type 0
    Starts x =
        (x.broker ≡ start.broker)
        × (x.pausing ≡ start.pausing)
        × (x.router ≡ start.router)
        × IsStored log file parse x.deposits.state

    initialize_services-Starts :
        (block : Block) (d : Daemon) → Starts d → Starts (initialize_services env block d).1
    initialize_services-Starts block d (broker, pausing, router, kept) = (
      broker,
      pausing,
      router,
      initialize-IsStored raw log file parse (deposit_env env d)
          (asked-IsHonest raw log file parse env honest d) block.number d.deposits.state kept,
    )

    update_cache-Starts : (d : Daemon) → Starts d → Starts (update_cache env d).1
    update_cache-Starts d (broker, pausing, router, kept) = (
      broker,
      pausing,
      router,
      update_events_cache-IsStored raw log file parse (deposit_env env d)
          (asked-IsHonest raw log file parse env honest d) d.deposits.state kept,
    )

    handled :
        (r : Outcome (Unit {0})) (x : Daemon)
        → Starts x
        → Starts (handle (λ error. process_exit) r x).1
    handled (ok _) x k = k
    handled (throw _) x k = k
    handled exit x k = k
    handled pending x k = k

    on_module_init-Starts :
        (fuel : ℕ) (envs : ℕ → RepositoryEnv) (blocks : ℕ → Outcome Block)
        → Starts start
        → Starts (on_module_init fuel envs blocks env start).1
    unfolding on_module_init
    on_module_init-Starts fuel envs blocks k = handled _ _ (
        continue_keeps Starts _ waited.0 waited.1 k (λ block _.
          continue_keeps Starts (λ _. update_cache env) (initialize_services env block waited.1).0
            (initialize_services env block waited.1).1 (initialize_services-Starts block waited.1 k)
            (λ _ _.
              update_cache-Starts (initialize_services env block waited.1).1
                (initialize_services-Starts block waited.1 k))))
      where
        waited : Outcome Block × Daemon
        waited = on_repository (init_or_wait_cached_contracts fuel envs blocks 0) start

  -- The nodes of the start and of all cycles answer log queries honestly, the cache codec reads back
  -- what was written, the cache file is the same, and what is cached before the start is complete. Then
  -- however the start ends, and whatever happens after it, everything that the daemon publishes was
  -- announced by one of its cycles, every pause transaction that it sends was commanded by one, and the
  -- deposits that the verdict was about are all deposits of the chain up to the block.
  pub on_module_init_complete :
      (fuel : ℕ) (envs : ℕ → RepositoryEnv) (blocks : ℕ → Outcome Block) (env : GuardianEnv)
      (happenings : List Happening) (d : Daemon)
      → IsHonest raw log file parse env.deposit
      → ((env : GuardianEnv)
          → Occurs (job_fires env) happenings
          → IsHonest raw log file parse env.deposit)
      → IsStored log file parse d.deposits.state
      → SaysOf raw log file parse happenings
          (WasAnswered happenings d)
          d.broker
          d.pausing
          (subscribe_to_modules_updates happenings (on_module_init fuel envs blocks env d).1)
  on_module_init_complete fuel envs blocks env happenings d honest_start honest kept =
      let started : Daemon = (on_module_init fuel envs blocks env d).1 in
      let last : Daemon = subscribe_to_modules_updates happenings started in
      let (broker, pausing, router, stored) =
        on_module_init-Starts env honest_start d fuel envs blocks (refl, refl, refl, kept) in
      subst
        (λ (x : Broker).
          SaysOf raw log file parse happenings (WasAnswered happenings d) x d.pausing last)
        broker
        (subst
          (λ (x : Pausing).
            SaysOf raw log file parse happenings (WasAnswered happenings d) started.broker x last)
          pausing
          (subst
            (λ (cache : RouterCache).
              SaysOf raw log file parse happenings (WasAnsweredFrom happenings cache) started.broker
                started.pausing last)
            router
            (subscribe_to_modules_updates_complete raw log file parse happenings started honest
              stored)))
