-- ===== src/Tests/ServiceRuns.antt =====
-- The provider, the cache, the keys, the guardians and the signatures at concrete inputs.
use lidofinance_lido_council.Shared.{
  Bool-cases, inl, inr, ℕ, ◌-◌, ◌≡◌, ◌≢◌, ◌⊎◌, inl, inr, refl, String, none, some, Bool-cases, [],
  ◌∷◌, length, arith, str_eq, ◌==◌, leb, ltb, if◌then◌else◌,
}
use lidofinance_lido_council.Outcome.{Failure, new_error, ok, throw}
use lidofinance_lido_council.Provider.{Fetcher, fetch_events_fall_over}
use lidofinance_lido_council.Provider.BlockLog.{BlockLog, group_between}
use lidofinance_lido_council.Provider.FallOver.{
  retries, IsHonest, IsRecovering, fetch_events_fall_over-total, fetch_events_fall_over-eq-between,
}
use lidofinance_lido_council.Cache.{
  CacheConfig, CacheState, get_cache, set_cache, save_cache_to_file, get_cache_file_path,
  get_cache_dir_path,
}
use lidofinance_lido_council.Cache.Persistence.{restart, get_cache-set_cache}
use lidofinance_lido_council.KeysApi.{SrModuleKeysResponse, get_unused_module_keys, checked_keys}
use lidofinance_lido_council.StakingRouter.{
  RouterCache, get_staking_module_unused_keys, fetch_unused_keys, set_staking_router_cache,
}
use lidofinance_lido_council.StakingRouter.Freshness.{get_staking_module_unused_keys-fresh}
use lidofinance_lido_council.Wallet.{
  Wallet, SignDepositDataParams, SignPauseDataParams, deposit_types, deposit_values,
  sign_deposit_data,
}
use lidofinance_lido_council.Wallet.Signing.{NoCollision, sign_deposit_data-injective}
use lidofinance_lido_council.Tests.GuardianData.{snapshot, sr_module, keys_api}

-- A node that refuses ranges of more than four blocks until a request was retried twice.
abbrev log : BlockLog ℕ
log block = block ∷ []

abbrev limit_error : Failure
limit_error = record (new_error "limit") { reason = some "missing response" }

abbrev node : Fetcher ℕ
node turns s e =
    if leb 2 (retries turns)
    then ok (group_between log s e)
    else if ltb 3 (e - s)
    then throw limit_error
    else ok (group_between log s e)

node-IsHonest : IsHonest log node
node-IsHonest turns s e g range h = ground arith

node-IsRecovering : IsRecovering log 2 node
node-IsRecovering = record {
  settles = λ turns s e range. elim (Bool-cases (leb 2 (retries turns))) [
    | inl retried ↦ inl (rw retried)
    | inr early ↦ elim (Bool-cases (ltb 3 (e - s))) [
      | inl long ↦ inr (limit_error, rw (early, long))
      | inr short ↦ inl (rw (early, short))
    ]
  ];
  answers = λ turns s e range enough. ground arith;
}

fetch_events_fall_over-total_example :
    fetch_events_fall_over 20 node [] 5 15 ≡ ok (group_between log 5 15)
unfolding retries
fetch_events_fall_over-total_example =
    fetch_events_fall_over-total log 2 node node-IsRecovering 20 [] 5 15 (omega arith) (omega arith)

fetch_events_fall_over-eq-between_example : group_between log 5 15 ≡ group_between log 5 15
fetch_events_fall_over-eq-between_example =
    fetch_events_fall_over-eq-between log node node-IsHonest 20 [] 5 15 (group_between log 5 15)
      (omega arith) fetch_events_fall_over-total_example

-- A cache of small numbers.
abbrev config : CacheConfig ℕ
config = record {
  chain_id = ok 5;
  cache_dir = "cache";
  cache_file = "number.json";
  cache_default_value = 0;
  stringify = λ value. if value == 3 then "3" else "4";
  parse = λ content. if str_eq content "3" then ok 3 else ok 4;
  read_fault = none;
  mkdir_fault = none;
  write_fault = none;
  unlink_fault = none;
}

abbrev start : CacheState ℕ
start = record { cache = none; files = λ path. some "3" }

saved : (set_cache config 3 start).0 ≡ ok tt
unfolding set_cache save_cache_to_file get_cache_dir_path get_cache_file_path
saved = refl

get_cache-set_cache_example : (get_cache config (restart (set_cache config 3 start).1)).0 ≡ ok 3
get_cache-set_cache_example = get_cache-set_cache config 3 start refl refl saved

abbrev router : RouterCache
router id = none

abbrev response : SrModuleKeysResponse
response = record { content = record { keys = []; sr_module = sr_module }; meta = snapshot }

fetched : (get_staking_module_unused_keys keys_api "0xb100" sr_module router).0 ≡ ok response
unfolding get_staking_module_unused_keys fetch_unused_keys set_staking_router_cache
    get_unused_module_keys checked_keys
fetched = refl

get_staking_module_unused_keys-fresh_example :
    (((router 1 ≡ some response) × (response.content.sr_module.nonce ≡ sr_module.nonce))
      ⊎ ((get_unused_module_keys keys_api 1 ≡ ok response) × (response.meta.block_hash ≡ "0xb100")))
    × ((get_staking_module_unused_keys keys_api "0xb100" sr_module router).1 1 ≡ some response)
    × ((other : ℕ)
        → other ≢ 1
        → (get_staking_module_unused_keys keys_api "0xb100" sr_module router).1 other
          ≡ router other)
get_staking_module_unused_keys-fresh_example =
    get_staking_module_unused_keys-fresh keys_api "0xb100" sr_module router response fetched

-- A coder that reads the texts in lower case and tells lists by their length.
abbrev lower : String → String
lower t = if str_eq t "0xAB" then "0xab" else t

abbrev wallet : Wallet
wallet = record {
  address = "0xg1";
  encode = λ types values. if length types == 3 then "pause" else "deposit";
  keccak256 = λ code. code;
  sign_digest = λ digest. record { r = digest; vs = digest };
}

abbrev params : String → SignDepositDataParams
params block_hash = record {
  prefix = "0xattest";
  block_number = 100;
  block_hash = block_hash;
  deposit_root = "0xroot";
  keys_op_index = 5;
  staking_module_id = 1;
}

abbrev pause_params : SignPauseDataParams
pause_params = record { prefix = "0xpause"; block_number = 100; staking_module_id = 1 }

no_collision :
    NoCollision lower wallet deposit_types deposit_types
      (deposit_values (params "0xAB"))
      (deposit_values (params "0xab"))
no_collision = record {
  values = λ types same. refl;
  sizes = λ same. refl;
  hash = λ same. refl;
  signature = λ same. refl;
}

same_signature : sign_deposit_data wallet (params "0xAB") ≡ sign_deposit_data wallet (params "0xab")
unfolding sign_deposit_data
same_signature = refl

sign_deposit_data-injective_example :
    ((params "0xAB").block_number ≡ (params "0xab").block_number)
    × ((params "0xAB").staking_module_id ≡ (params "0xab").staking_module_id)
    × ((params "0xAB").keys_op_index ≡ (params "0xab").keys_op_index)
    × (lower (params "0xAB").prefix ≡ lower (params "0xab").prefix)
    × (lower (params "0xAB").block_hash ≡ lower (params "0xab").block_hash)
    × (lower (params "0xAB").deposit_root ≡ lower (params "0xab").deposit_root)
sign_deposit_data-injective_example =
    sign_deposit_data-injective lower wallet (params "0xAB") (params "0xab") no_collision
      same_signature
