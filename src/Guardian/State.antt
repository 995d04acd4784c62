-- ===== src/Guardian/State.antt =====
-- src/guardian/interfaces/, and the state of the services that a cycle of the guardian goes through.
use lidofinance_lido_council.Shared.{ℕ, String, Option, Bool, List}
use lidofinance_lido_council.Shared.Int.{ℤ}
use lidofinance_lido_council.Outcome.{Exec, within}
use lidofinance_lido_council.Repository.{Repository, get_cached_deposit_contract}
use lidofinance_lido_council.Security.{SecurityEnv, Pausing}
use lidofinance_lido_council.Decorators.{OneAtTime}
use lidofinance_lido_council.Deposit.{DepositEnv, Deposits, VerifiedDepositEventGroup}
use lidofinance_lido_council.StakingRouter.{RouterCache}
use lidofinance_lido_council.KeysApi.{KeysApi}
use lidofinance_lido_council.Messages.{MessagesEnv, MessageApp, Broker}

pub record BlockData : Type 0 where
  pub block_number : ℕ
  pub block_hash : String
  pub deposit_root : String
  pub deposited_events : VerifiedDepositEventGroup
  pub guardian_address : String
  pub guardian_index : ℤ

pub record ContractsState : Type 0 where
  pub block_number : ℕ
  pub nonce : ℕ
  pub deposit_root : String

pub record StakingModuleData : Type 0 where
  pub block_hash : String
  pub is_deposits_paused : Bool
  pub unused_keys : List String
  pub nonce : ℕ
  pub staking_module_id : ℕ

-- `lastProcessedStateMeta`
pub record StateMeta : Type 0 where
  pub block_hash : String
  pub block_number : ℕ

-- The labelled gauges of src/guardian/guardian-metrics.
pub data Gauge : Type 0 where
  valid_deposits invalid_deposits : Gauge
  total_deposited_keys unique_deposited_keys : Gauge
  unused_operators_keys : Gauge
  all_intersections filtered_intersections : Gauge

abbrev pub Gauges : Type 0
Gauges = Gauge → ℕ → Option ℕ

pub record Daemon : Type 0 where
  pub repository : Repository
  pub deposits : OneAtTime Deposits
  pub router : RouterCache
  pub last_contracts_state : ℕ → Option ContractsState
  pub last_processed_state_meta : Option StateMeta
  pub pausing : Pausing
  pub broker : Broker
  pub gauges : Gauges
  pub block_data_errors : ℕ

-- What lies outside the daemon, as it answers during one cycle. The deposit contract is not taken
-- from `deposit`, but from the repository.
pub record GuardianEnv : Type 0 where
  pub security : SecurityEnv
  pub deposit : DepositEnv
  pub keys_api : KeysApi
  pub messages : MessagesEnv
  pub app : MessageApp

abbrev pub Action : Type 0 → Type 0
Action = Exec Daemon

abbrev pub on_repository : {A : Type 0} → Exec Repository A → Action A
on_repository = within (λ d. d.repository) (λ r d. record d { repository = r })

abbrev pub on_deposits : {A : Type 0} → Exec (OneAtTime Deposits) A → Action A
on_deposits = within (λ d. d.deposits) (λ x d. record d { deposits = x })

-- A method that is not decorated is not held back by the decorator's flag.
abbrev pub on_events : {A : Type 0} → Exec Deposits A → Action A
on_events =
    within (λ d. d.deposits.state) (λ x d. record d { deposits = record d.deposits { state = x } })

abbrev pub on_router : {A : Type 0} → Exec RouterCache A → Action A
on_router = within (λ d. d.router) (λ x d. record d { router = x })

abbrev pub on_broker : {A : Type 0} → Exec Broker A → Action A
on_broker = within (λ d. d.broker) (λ x d. record d { broker = x })

-- The deposit service sees the repository's deposit contract.
abbrev pub deposit_env : GuardianEnv → Daemon → DepositEnv
deposit_env env d = record env.deposit {
  deposit_contract = get_cached_deposit_contract d.repository;
}
