-- ===== src/Tests/DepositData.antt =====
-- A deposit contract on the Zhejiang chain with one deposit, its node, and a cache of the events.
use lidofinance_lido_council.Shared.{
  ℕ, ◌≡◌, refl, sym, ◌∙◌, String, none, some, Bool, true, false, ◌&&◌, List, [], ◌∷◌, Bool-cases,
  inl, inr, arith, eq_iff, ◌==◌, str_eq, if◌then◌else◌,
}
use lidofinance_lido_council.Outcome.{new_error, Outcome, ok, throw, ok-injective}
use lidofinance_lido_council.Chains.{Chains, get_deployment_block_by_network, by_network}
use lidofinance_lido_council.Provider.BlockLog.{BlockLog, between}
use lidofinance_lido_council.DepositEvents.{
  VerifiedDepositEvent, VerifiedDepositEventsCache, DepositEventEvent, deposit_cache_default,
}
use lidofinance_lido_council.Deposit.{DepositEnv, Deposits}
use lidofinance_lido_council.Deposit
use lidofinance_lido_council.Deposit.Node.{IsNode}

abbrev pub chains : Chains
chains = record { mainnet = 1; goerli = 5; zhejiang = 1_337_803 }

-- The codec reads back the default value, and refuses everything else.
abbrev is_default_group : List VerifiedDepositEvent → ℕ → ℕ → Bool
is_default_group [] start_block end_block = (start_block == 0) && (end_block == 0)
is_default_group (_ ∷ _) _ _ = false

abbrev is_default : VerifiedDepositEventsCache → Bool
is_default v = str_eq v.version "-1" && is_default_group v.events v.start_block v.end_block

abbrev pub stringify : VerifiedDepositEventsCache → String
stringify v = if is_default v then "default" else "unknown"

abbrev pub parse : String → Outcome VerifiedDepositEventsCache
parse content =
    if str_eq content "default" then ok deposit_cache_default else throw (new_error "bad JSON")

default_events :
    (version : String) (events : List VerifiedDepositEvent) (start_block end_block : ℕ)
    → (str_eq version "-1" && is_default_group events start_block end_block) ≡ true
    → deposit_cache_default ≡ record {
      version = version;
      group = record { events = events; start_block = start_block; end_block = end_block };
    }
default_events version [] start_block end_block h = ground (arith, eq_iff version "-1")
default_events version (_ ∷ _) start_block end_block h = absurd (ground arith)

pub parse-stringify : (v w : VerifiedDepositEventsCache) → parse (stringify v) ≡ ok w → w ≡ v
parse-stringify v w h = elim (Bool-cases (is_default v)) [
  | inl default ↦
      sym (ok-injective (parsed true default))
      ∙ default_events v.version v.events v.start_block v.end_block default
  | inr other ↦ absurd (cc (parsed false other))
]
  where
    parsed : (b : Bool) → is_default v ≡ b → parse (if b then "default" else "unknown") ≡ ok w
    parsed b e = rw (← e) h

abbrev pub deposit : DepositEventEvent
deposit = record {
  args = record {
    pubkey = "0xk1";
    withdrawal_credentials = "0xw1";
    amount = "32";
    signature = "0xs1";
  };
  transaction_hash = "0xt1";
  block_number = 67_540;
  block_hash = "0xb1";
}

abbrev pub verified_deposit : VerifiedDepositEvent
verified_deposit = record {
  valid = true;
  deposit = record {
    pubkey = "0xk1";
    wc = "0xw1";
    amount = "32";
    signature = "0xs1";
    tx = "0xt1";
    block_number = 67_540;
    block_hash = "0xb1";
  };
}

abbrev pub raw : BlockLog DepositEventEvent
raw b = if b == 67_540 then deposit ∷ [] else []

abbrev pub log : BlockLog VerifiedDepositEvent
log b = if b == 67_540 then verified_deposit ∷ [] else []

abbrev pub env : DepositEnv
env = record {
  cache = record {
    chain_id = ok 1_337_803;
    cache_dir = "cache";
    cache_file = "deposit.events.json";
    cache_default_value = deposit_cache_default;
    stringify = stringify;
    parse = parse;
    read_fault = none;
    mkdir_fault = none;
    write_fault = none;
    unlink_fault = none;
  };
  chains = chains;
  app_version = "1.0.0";
  block_number = ok 67_650;
  deposit_contract = some "0xdeposit";
  query_filter = λ contract turns start_block end_block. ok (between raw start_block end_block);
  get_deposit_root = λ contract block_tag. ok "0xroot";
  verify = λ event. ok true;
  rounds = 10_001;
}

pub node : IsNode env raw log
unfolding Deposit.get_deployment_block_by_network get_deployment_block_by_network by_network
    Deposit.verify_deposit Deposit.format_event
node = record {
  verifies = λ b. ground arith;
  honest = λ contract turns s e events range answer. sym (ok-injective answer);
  genesis = refl;
  silent = λ deployment b known early. ground arith;
}

abbrev pub start : Deposits
start = record { cache = none; files = λ path. none }
