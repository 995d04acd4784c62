-- ===== src/DepositEvents.antt =====
-- The data of src/contracts/deposit/: its interfaces and its constants.
use lidofinance_lido_council.Shared.{ℕ, String, Bool, []}
use lidofinance_lido_council.Provider.{EventGroup}

pub record DepositEvent : Type 0 where
  pub pubkey : String
  pub wc : String
  pub amount : String
  pub signature : String
  pub tx : String
  pub block_number : ℕ
  pub block_hash : String

pub record VerifiedDepositEvent : Type 0 where
  pub valid : Bool
  pub deposit : DepositEvent
  pub open deposit use *

abbrev pub VerifiedDepositEventGroup : Type 0
VerifiedDepositEventGroup = EventGroup VerifiedDepositEvent

pub record VerifiedDepositEventsCache : Type 0 where
  pub version : String
  pub group : VerifiedDepositEventGroup
  pub open group use *

-- `DepositEventEvent`: a log entry as the generated contract class returns it.
pub record DepositEventArgs : Type 0 where
  pub pubkey : String
  pub withdrawal_credentials : String
  pub amount : String
  pub signature : String

pub record DepositEventEvent : Type 0 where
  pub args : DepositEventArgs
  pub transaction_hash : String
  pub block_number : ℕ
  pub block_hash : String

abbrev pub deposit_events_cache_lag_blocks : ℕ
deposit_events_cache_lag_blocks = 100

abbrev pub deposit_events_step : ℕ
deposit_events_step = 10_000

abbrev pub deposit_events_cache_update_block_rate : ℕ
deposit_events_cache_update_block_rate = 10

abbrev pub deposit_cache_default : VerifiedDepositEventsCache
deposit_cache_default = record {
  version = "-1";
  group = record { events = []; start_block = 0; end_block = 0 };
}
