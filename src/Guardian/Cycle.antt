-- ===== src/Guardian/Cycle.antt =====
-- src/guardian/guardian.service.ts.
pub mod Claims
pub mod Frame
pub mod Progress
pub mod Verdict
pub mod Steps
pub mod Modules
pub mod Reading
pub mod BlockRead
pub mod Safety
pub mod Announced
pub mod Attacked
pub mod Alarm
use lidofinance_lido_council.Shared.{
  ℕ, suc, String, Option, none, some, Bool, List, [], ◌∷◌, map, if◌then◌else◌,
}
use lidofinance_lido_council.Outcome.{
  Failure, Outcome, ok, Exec, pure, lift, gets, modify, ◌>>=◌, ◌>>◌, try_catch, both, both_of,
  process_exit,
}
use lidofinance_lido_council.KeysApi.{SrModule, SrModuleListResponse}
use lidofinance_lido_council.StakingRouter.{get_staking_modules}
use lidofinance_lido_council.Repository.{
  RepositoryEnv, Block, init_cached_contracts, init_or_wait_cached_contracts,
}
use lidofinance_lido_council.Deposit
use lidofinance_lido_council.Security
use lidofinance_lido_council.Guardian.State.{
  BlockData, StateMeta, Daemon, GuardianEnv, Action, on_repository, on_deposits, on_events,
  deposit_env,
}
use lidofinance_lido_council.Guardian.BlockGuard.{
  is_need_to_process_new_state, set_last_processed_state_meta, get_current_block_data,
}
use lidofinance_lido_council.Guardian.Message.{ping_message_broker}
use lidofinance_lido_council.Guardian.Metrics.{collect_metrics}
use lidofinance_lido_council.Guardian.ModuleGuard.{
  get_staking_router_module_data, check_keys_intersections,
}

module _ (env : GuardianEnv) where
  -- The callback of `stakingModules.map`.
  pub process_module : StateMeta → BlockData → SrModule → Action (Unit {0})
  process_module m block_data staking_router_module = do
    staking_module_data ← get_staking_router_module_data env staking_router_module m.block_hash
    check_keys_intersections env staking_module_data block_data
    collect_metrics staking_module_data block_data

  -- `Promise.all` over the modules: each is processed, whether or not another is rejected. The model
  -- runs them one after another, in the order of the list.
  pub process_modules : StateMeta → BlockData → List SrModule → Action (Unit {0})
  unfolding process_module
  process_modules m block_data [] = pure tt
  process_modules m block_data (sr_module ∷ modules) = do
    both (process_module m block_data sr_module) (process_modules m block_data modules)
    pure tt

  abbrev pub update_deposits : StateMeta → Action (Option (Unit {0}))
  update_deposits m d = on_deposits (Deposit.handle_new_block (deposit_env env d) m.block_number) d

  -- The rest of a cycle, once the data of the block are read.
  pub process_block : StateMeta → List SrModule → BlockData → Action (Unit {0})
  process_block m staking_modules block_data = do
    process_modules m block_data staking_modules
    ping_message_broker env (map (λ (s : SrModule). s.id) staking_modules) block_data
    set_last_processed_state_meta m

  pub process_state : StateMeta → List SrModule → Action (Unit {0})
  process_state m staking_modules = do
    update_deposits m
    block_data ← get_current_block_data env m
    process_block m staking_modules block_data

  abbrev pub meta_of : SrModuleListResponse → StateMeta
  meta_of response = record {
    block_hash = response.el_block_snapshot.block_hash;
    block_number = response.el_block_snapshot.block_number;
  }

  pub process_if_new : StateMeta → List SrModule → Action (Unit {0})
  process_if_new m staking_modules d =
      if is_need_to_process_new_state d.last_processed_state_meta m
      then process_state m staking_modules d
      else (ok tt, d)

  -- The try block of `handleNewBlock`.
  pub run_cycle : Action (Unit {0})
  run_cycle = do
    response ← lift (get_staking_modules env.keys_api)
    on_repository
        (init_cached_contracts env.security.repository response.el_block_snapshot.block_hash)
    process_if_new (meta_of response) response.content

  -- `handleNewBlock` as it runs under its decorator: a failure is logged.
  pub handle_new_block : Action (Unit {0})
  handle_new_block = try_catch run_cycle (λ error. pure tt)

-- The start of the daemon. `envs` are the answers that the attempts of `initOrWaitCachedContracts`
-- meet, and `env` those of what comes after; any failure ends the process.
abbrev pub initialize_services : GuardianEnv → Block → Action (Unit {0} × Unit {0})
initialize_services env block =
    both (λ d. on_events (Deposit.initialize (deposit_env env d) block.number) d)
      (on_repository (Security.initialize env.security block.hash))

abbrev pub update_cache : GuardianEnv → Action (Unit {0})
update_cache env d = on_events (Deposit.update_events_cache (deposit_env env d)) d

unfoldable pub on_module_init :
    ℕ → (ℕ → RepositoryEnv) → (ℕ → Outcome Block) → GuardianEnv → Action (Unit {0})
on_module_init fuel envs blocks env =
    try_catch
      (do
        block ← on_repository (init_or_wait_cached_contracts fuel envs blocks 0)
        initialize_services env block
        update_cache env)
      (λ error. process_exit)
