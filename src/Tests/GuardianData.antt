-- ===== src/Tests/GuardianData.antt =====
-- A guardian that meets an attack: its services, its state, a module and a block.
use lidofinance_lido_council.Shared.{
  String, none, some, true, false, [], ◌∷◌, str_eq, if◌then◌else◌,
}
use lidofinance_lido_council.Shared.Int.{pos}
use lidofinance_lido_council.Outcome.{ok}
use lidofinance_lido_council.Contracts.{Contracts, Signature}
use lidofinance_lido_council.Repository.{Repository, RepositoryEnv, lido_abi}
use lidofinance_lido_council.Wallet.{Wallet, sign_pause_data}
use lidofinance_lido_council.Deposit.{VerifiedDepositEvent}
use lidofinance_lido_council.KeysApi.{KeysApi, SrModule, ElBlockSnapshot}
use lidofinance_lido_council.Guardian.State.{BlockData, StakingModuleData, Daemon, GuardianEnv}
use lidofinance_lido_council.Tests.DepositData

abbrev pub contracts : Contracts
contracts = record {
  lido = λ locator tag. ok "0xlido";
  deposit_security_module = λ locator tag. ok "0xdsm";
  staking_router = λ locator tag. ok "0xrouter";
  attest_message_prefix = λ dsm. ok "0xattest";
  pause_message_prefix = λ dsm. ok "0xpause";
  deposit_contract = λ dsm tag. ok "0xdeposit";
  get_guardians = λ dsm tag. ok ("0xg0" ∷ "0xg1" ∷ []);
  get_max_deposits = λ dsm tag. ok 150;
  get_staking_module_is_active = λ router id tag. ok true;
  get_withdrawal_credentials = λ lido tag. ok "0xw1";
}

abbrev pub wallet : Wallet
wallet = record {
  address = "0xg1";
  encode = λ types values. "0xcode";
  keccak256 = λ code. code;
  sign_digest = λ digest. record { r = digest; vs = digest };
}

abbrev pub repository_env : RepositoryEnv
repository_env = record {
  chains = DepositData.chains;
  chain_id = ok 1_337_803;
  contracts = contracts;
}

abbrev pub repository : Repository
repository = record {
  cached_lido_locator_contract = some "0xlocator";
  temp_contracts_cache = λ key. if str_eq key lido_abi then some "0xlido" else some "0xdsm";
  cached_attest_prefix = some "0xattest";
  cached_pause_prefix = some "0xpause";
  permanent_contracts_cache = λ key. some "0xdeposit";
}

abbrev pub snapshot : ElBlockSnapshot
snapshot = record { block_number = 100; block_hash = "0xb100"; timestamp = 0 }

abbrev pub sr_module : SrModule
sr_module = record {
  nonce = 5;
  kind = "curated-onchain-v1";
  id = 1;
  staking_module_address = "0xm1";
  module_fee = 500;
  treasury_fee = 500;
  target_share = 10_000;
  status = 0;
  name = "curated";
  last_deposit_at = 0;
  last_deposit_block = 0;
}

abbrev pub keys_api : KeysApi
keys_api = record {
  keys_api_host = "http://keys";
  keys_api_port = 3001;
  fetch_list =
      λ url. ok (record { content = some (sr_module ∷ []); el_block_snapshot = some snapshot });
  fetch_keys = λ url. ok (record {
    content = some (record { keys = []; sr_module = sr_module });
    meta = some snapshot;
  });
}

abbrev pub env : GuardianEnv
env = record {
  security = record { repository = repository_env; wallet = wallet };
  deposit = DepositData.env;
  keys_api = keys_api;
  messages = record {
    chains = DepositData.chains;
    chain_id = ok 1_337_803;
    broker_topic = "defender";
    publish = λ p. ok tt;
  };
  app = record { version = "1.0.0"; name = "council" };
}

abbrev pub daemon : Daemon
daemon = record {
  repository = repository;
  deposits = record { is_executing = false; state = DepositData.start };
  router = λ id. none;
  last_contracts_state = λ id. none;
  last_processed_state_meta = some (record { block_hash = "0xb101"; block_number = 101 });
  pausing = record { is_executing = false; pause_attempts = 0; transactions = [] };
  broker = record { published = []; sent_messages = 0 };
  gauges = λ gauge id. none;
  block_data_errors = 0;
}

-- a deposit with the module's key `0xk1` and foreign credentials
abbrev pub front_run : VerifiedDepositEvent
front_run = record {
  valid = true;
  deposit = record {
    pubkey = "0xk1";
    wc = "0xforeign";
    amount = "1";
    signature = "0xs1";
    tx = "0xt1";
    block_number = 99;
    block_hash = "0xb99";
  };
}

abbrev pub block_data : BlockData
block_data = record {
  block_number = 100;
  block_hash = "0xb100";
  deposit_root = "0xroot";
  deposited_events = record { events = front_run ∷ []; start_block = 0; end_block = 100 };
  guardian_address = "0xg1";
  guardian_index = pos 1;
}

abbrev pub module_with : String → StakingModuleData
module_with key = record {
  block_hash = "0xb100";
  is_deposits_paused = false;
  unused_keys = key ∷ [];
  nonce = 5;
  staking_module_id = 1;
}

abbrev pub pause_signature : Signature
pause_signature =
    sign_pause_data wallet
      (record { prefix = "0xpause"; block_number = 100; staking_module_id = 1 })
