-- ===== src/Tests/CycleRuns.antt =====
-- Whole cycles of the guardian at the data of GuardianData and DepositData.
use mathlib.Core.Path.{subst}
use lidofinance_lido_council.Shared.{
  ◌≢◌, ◌≡◌, ◌≤◌, ◌+◌, length, inl, inr, refl, ap, String, some, none, false, List, [], ◌∷◌, arith,
  eq_iff,
}
use lidofinance_lido_council.Outcome.{ok, both_of}
use lidofinance_lido_council.Chains.{get_message_topic_prefix}
use lidofinance_lido_council.Cache.{
  get_cache, get_cache_from_file, get_cache_file_path, get_cache_dir_path,
}
use lidofinance_lido_council.KeysApi.{
  SrModuleKeysResponse, SrModuleListResponse, ElBlockSnapshot, RegistryKey,
}
use lidofinance_lido_council.Deposit
use lidofinance_lido_council.Shared.Text.{decimal}
use lidofinance_lido_council.Deposit.History.{IsStored, IsHonest, get_all_deposited_events-upto}
use lidofinance_lido_council.Guardian.State.{Daemon, GuardianEnv, BlockData, StakingModuleData}
use lidofinance_lido_council.Shared.{Occurs}
use lidofinance_lido_council.Guardian.Schedule.{
  Happening, job_fires, pause_settles, subscribe_to_modules_updates,
}
use lidofinance_lido_council.Guardian.Schedule.Safety.{
  WasAnswered, Says, subscribe_to_modules_updates-Says,
}
use lidofinance_lido_council.Guardian.Schedule.Pauses.{
  free, settles, transactions-subscribe_to_modules_updates,
}
use lidofinance_lido_council.Guardian.Schedule.History.{SaysOf, handle_new_block-alarm}
use lidofinance_lido_council.Shared.Int.{pos}
use lidofinance_lido_council.KeysApi.{
  get_modules_list, checked_list, get_unused_module_keys, checked_keys,
}
use lidofinance_lido_council.Messages.{get_message_topic}
use lidofinance_lido_council.Guardian.Cycle.{handle_new_block}
use lidofinance_lido_council.Guardian.Cycle.Announced.{initialised}
use lidofinance_lido_council.StakingRouter.{get_staking_modules}
use lidofinance_lido_council.Repository
use lidofinance_lido_council.Security
use lidofinance_lido_council.Chains
use lidofinance_lido_council.Provider
use lidofinance_lido_council.Decorators.{one_at_time}
use lidofinance_lido_council.Provider.BlockLog.{events_from, upto}
use lidofinance_lido_council.Guardian.BlockGuard.{
  is_need_to_process_new_state, get_current_block_data,
}
use lidofinance_lido_council.Guardian.Cycle.Attacked.{active_module, IsServed, HasPause}
use lidofinance_lido_council.Guardian.Cycle.Alarm.{IsUnderWay}
use lidofinance_lido_council.Repository.{Block}
use lidofinance_lido_council.Guardian.Cycle.{on_module_init}
use lidofinance_lido_council.Guardian.Schedule.Start.{on_module_init_complete}
use lidofinance_lido_council.Tests.DepositData
use lidofinance_lido_council.Tests.GuardianData

-- a snapshot of the block with the deposit, and the module's key that was deposited
abbrev snapshot : ElBlockSnapshot
snapshot = record { block_number = 67_541; block_hash = "0xb1"; timestamp = 0 }

abbrev key : RegistryKey
key = record {
  key = "0xk1";
  deposit_signature = "0xs";
  operator_index = 0;
  used = false;
  index = 0;
}

abbrev keys : SrModuleKeysResponse
keys = record {
  content = record { keys = key ∷ []; sr_module = GuardianData.sr_module };
  meta = snapshot;
}

-- `wc` are Lido's credentials
abbrev cycle_env : String → GuardianEnv
cycle_env wc = record GuardianData.env {
  security = record GuardianData.env.security {
    repository = record GuardianData.repository_env {
      contracts = record GuardianData.contracts { get_withdrawal_credentials = λ lido tag. ok wc };
    };
  };
  deposit = record DepositData.env { block_number = ok 67_600 };
  keys_api = record GuardianData.keys_api {
    fetch_list = λ url. ok (record {
      content = some (GuardianData.sr_module ∷ []);
      el_block_snapshot = some snapshot;
    });
    fetch_keys = λ url. ok (record { content = some keys.content; meta = some snapshot });
  };
}

abbrev fresh : Daemon
fresh = record GuardianData.daemon { last_processed_state_meta = none }

abbrev two_cycles : List Happening
two_cycles = job_fires (cycle_env "0xw1") ∷ pause_settles ∷ job_fires (cycle_env "0xw2") ∷ []

subscribe_to_modules_updates-Says_example :
    Says two_cycles
      (WasAnswered two_cycles fresh)
      (λ deposits. Unit {0})
      fresh
      (subscribe_to_modules_updates two_cycles fresh)
subscribe_to_modules_updates-Says_example = subscribe_to_modules_updates-Says two_cycles fresh

transactions-subscribe_to_modules_updates_example :
    length (subscribe_to_modules_updates two_cycles fresh).pausing.transactions
      + free (subscribe_to_modules_updates two_cycles fresh).pausing.is_executing
    ≤ length fresh.pausing.transactions + free fresh.pausing.is_executing + settles two_cycles
transactions-subscribe_to_modules_updates_example =
    transactions-subscribe_to_modules_updates two_cycles fresh

abbrev cache_file : String
cache_file = "cache/chain-1337803/deposit.events.json"

deposits-IsHonest :
    (wc : String)
    → IsHonest DepositData.raw DepositData.log cache_file DepositData.parse (cycle_env wc).deposit
unfolding get_cache_file_path get_cache_dir_path Deposit.verify_deposit
    Deposit.get_deployment_block_by_network decimal
deposits-IsHonest wc = record {
  node = record {
    verifies = DepositData.node.verifies;
    honest = DepositData.node.honest;
    genesis = DepositData.node.genesis;
    silent = DepositData.node.silent;
  };
  json = DepositData.parse-stringify;
  registered = refl;
  path = refl;
  reads = refl;
}

abbrev env_of : Happening → GuardianEnv
env_of (job_fires env) = env
env_of pause_settles = cycle_env "0xw1"

abbrev Honest : GuardianEnv → Type 0
Honest env = IsHonest DepositData.raw DepositData.log cache_file DepositData.parse env.deposit

two_cycles-IsHonest : (env : GuardianEnv) → Occurs (job_fires env) two_cycles → Honest env
two_cycles-IsHonest env (inl first) = subst Honest (ap env_of first) (deposits-IsHonest "0xw1")
two_cycles-IsHonest env (inr (inl settles)) =
    subst Honest (ap env_of settles) (deposits-IsHonest "0xw1")
two_cycles-IsHonest env (inr (inr (inl second))) =
    subst Honest (ap env_of second) (deposits-IsHonest "0xw2")
two_cycles-IsHonest env (inr (inr (inr never))) = absurd never

fresh-IsStored : IsStored DepositData.log cache_file DepositData.parse fresh.deposits.state
fresh-IsStored = record { memory = λ v kept. cc; stored = λ content v kept read. cc }

abbrev block : Block
block = record { hash = "0xb1"; number = 67_541 }

on_module_init_complete_example :
    SaysOf DepositData.raw DepositData.log cache_file DepositData.parse two_cycles
      (WasAnswered two_cycles fresh)
      fresh.broker
      fresh.pausing
      (subscribe_to_modules_updates two_cycles
        (on_module_init 1
          (λ n. (cycle_env "0xw1").security.repository)
          (λ n. ok block)
          (cycle_env "0xw1")
          fresh).1)
on_module_init_complete_example =
    on_module_init_complete DepositData.raw DepositData.log cache_file DepositData.parse 1
      (λ n. (cycle_env "0xw1").security.repository) (λ n. ok block) (cycle_env "0xw1") two_cycles
      fresh (deposits-IsHonest "0xw1") two_cycles-IsHonest fresh-IsStored

-- the second environment, where the deposit is an attack
abbrev listed : SrModuleListResponse
listed = record { content = GuardianData.sr_module ∷ []; el_block_snapshot = snapshot }

abbrev block_data : BlockData
block_data = record {
  block_number = 67_541;
  block_hash = "0xb1";
  deposit_root = "0xroot";
  deposited_events = record {
    events = DepositData.verified_deposit ∷ [];
    start_block = 67_530;
    end_block = 67_541;
  };
  guardian_address = "0xg1";
  guardian_index = pos 1;
}

attacked-IsUnderWay : IsUnderWay (cycle_env "0xw2") fresh listed block_data
unfolding get_staking_modules get_modules_list checked_list is_need_to_process_new_state
    Repository.init_cached_contracts Repository.init_cached_lido_contract
    Repository.init_cached_dsm_contract Repository.init_cached_deposit_contract
    Repository.init_cached_staking_router_abi_contract Repository.get_lido_address
    Repository.get_dsm_address Repository.get_staking_router_address Repository.get_deposit_address
    Repository.get_lido_locator_abi_contract Repository.get_locator_address
    Repository.get_attest_message_prefix Repository.get_pause_message_prefix
    Repository.get_cached_dsm_contract Repository.get_from_cache Repository.set_contract_cache
    Repository.set_permanent_contract_cache Repository.get_cached_deposit_contract
    Deposit.handle_new_block one_at_time get_current_block_data both_of Deposit.get_deposit_root
    Security.get_guardian_index Security.get_guardians Security.index_of
    Security.get_guardian_address Deposit.get_cached_events Deposit.get_deployment_block_by_network
    Chains.by_network Chains.get_deployment_block_by_network get_cache get_cache_from_file
    get_cache_file_path get_cache_dir_path decimal Deposit.get_all_deposited_events
    Deposit.validate_cache_block Deposit.merge_fresh_events Deposit.fetch_events_fall_over
    Provider.fetch_events_fall_over Deposit.fetch_events Deposit.check_events_block_hash
    Deposit.is_of_another_chain events_from Deposit.verify_deposit Deposit.format_event
attacked-IsUnderWay = record {
  ended = some tt;
  modules = refl;
  found = refl;
  needed = refl;
  updates = refl;
  read = refl;
}

abbrev attacked : StakingModuleData
attacked = active_module GuardianData.sr_module keys "0xb1"

foreign_credentials : ◌≢◌ {A = String} "0xw1" "0xw2"
foreign_credentials same = ground (arith, eq_iff "0xw1" "0xw2")

only-keys :
    (kept : SrModuleKeysResponse) → fresh.router GuardianData.sr_module.id ≡ some kept → kept ≡ keys
only-keys kept cached = cc

served :
    IsServed
      (cycle_env "0xw2")
      (initialised (cycle_env "0xw2") listed fresh).1.repository.temp_contracts_cache
      block_data
      GuardianData.sr_module
      keys
      "0xw2"
      "testnet-defender"
unfolding Repository.init_cached_contracts Repository.init_cached_lido_contract
    Repository.init_cached_dsm_contract Repository.init_cached_deposit_contract
    Repository.init_cached_staking_router_abi_contract Repository.get_lido_address
    Repository.get_dsm_address Repository.get_staking_router_address Repository.get_deposit_address
    Repository.get_lido_locator_abi_contract Repository.get_locator_address
    Repository.get_attest_message_prefix Repository.get_pause_message_prefix
    Repository.get_cached_dsm_contract Repository.get_from_cache Repository.set_contract_cache
    Repository.set_permanent_contract_cache get_unused_module_keys checked_keys get_message_topic
    get_message_topic_prefix Chains.by_network both_of
served = record {
  lido = "0xlido";
  dsm = "0xdsm";
  router = "0xrouter";
  prefix = "0xpause";
  lido_cached = refl;
  dsm_cached = refl;
  router_cached = refl;
  credentials = refl;
  prefix_answer = refl;
  active = refl;
  keys = refl;
  at_block = refl;
  guardian = refl;
  topic_answer = refl;
  taken = λ p. refl;
}

deposits_at_block :
    (Deposit.get_all_deposited_events (cycle_env "0xw2").deposit 67_541 "0xb1" DepositData.start).0
    ≡ ok block_data.deposited_events
unfolding Deposit.get_cached_events Deposit.get_deployment_block_by_network Chains.by_network
    Chains.get_deployment_block_by_network get_cache get_cache_from_file get_cache_file_path
    get_cache_dir_path decimal Deposit.get_all_deposited_events Deposit.validate_cache_block
    Deposit.merge_fresh_events Deposit.fetch_events_fall_over Provider.fetch_events_fall_over
    Deposit.fetch_events Deposit.check_events_block_hash Deposit.is_of_another_chain events_from
    Deposit.verify_deposit Deposit.format_event
deposits_at_block = refl

deposit_on_chain : Occurs DepositData.verified_deposit (upto DepositData.log 67_541)
deposit_on_chain =
    subst (Occurs DepositData.verified_deposit)
      (get_all_deposited_events-upto DepositData.raw DepositData.log cache_file DepositData.parse
        (cycle_env "0xw2").deposit (deposits-IsHonest "0xw2") 67_541 "0xb1" DepositData.start
        block_data.deposited_events fresh-IsStored deposits_at_block)
      (inl refl)

handle_new_block-alarm_example :
    HasPause
      (cycle_env "0xw2")
      block_data
      attacked
      "testnet-defender"
      (handle_new_block (cycle_env "0xw2") fresh).1.broker.published
handle_new_block-alarm_example =
    handle_new_block-alarm DepositData.raw DepositData.log cache_file DepositData.parse
      (cycle_env "0xw2") (deposits-IsHonest "0xw2") fresh listed block_data GuardianData.sr_module
      keys "0xw2" "testnet-defender" DepositData.verified_deposit fresh-IsStored attacked-IsUnderWay
      (inl refl) served only-keys deposit_on_chain (inl refl) refl foreign_credentials
