-- ===== src/Tests/ContractRuns.antt =====
-- The repository of the contracts at the data of GuardianData.
use lidofinance_lido_council.Shared.{
  ℕ, zero, suc, ◌≤◌, ◌<◌, ◌≡◌, refl, inr, String, Option, none, some, arith,
}
use lidofinance_lido_council.Outcome.{Outcome, ok, throw, new_error, both_of}
use lidofinance_lido_council.Chains.{get_lido_locator_address, by_network}
use lidofinance_lido_council.Repository.{
  Repository, RepositoryEnv, Block, deposit_abi, init_cached_contracts, init_cached_lido_contract,
  init_cached_dsm_contract, init_cached_deposit_contract, init_cached_staking_router_abi_contract,
  get_lido_address, get_dsm_address, get_staking_router_address, get_deposit_address,
  get_lido_locator_abi_contract, get_locator_address, get_attest_message_prefix,
  get_pause_message_prefix, get_cached_dsm_contract, get_from_cache, set_contract_cache,
  set_permanent_contract_cache, init_or_wait_cached_contracts,
}
use lidofinance_lido_council.Repository.Waiting.{
  Settles, Succeeds, Ends, init_or_wait_cached_contracts-Ends,
}
use lidofinance_lido_council.Repository.Init.{
  Answers, IsInitialised, init_cached_contracts-IsInitialised,
}
use lidofinance_lido_council.Tests.GuardianData.{repository_env, repository, contracts}

-- the cache of an earlier security contract
abbrev stale : Repository
stale = record repository {
  cached_attest_prefix = some "0xold";
  cached_pause_prefix = some "0xold";
}

abbrev answers : Answers repository_env "0xlocator" "0xb100"
answers = record {
  lido = "0xlido";
  dsm = "0xdsm";
  router = "0xrouter";
  deposit = "0xdeposit";
  attest = "0xattest";
  pause = "0xpause";
  lido_answer = refl;
  dsm_answer = refl;
  router_answer = refl;
  deposit_answer = refl;
  attest_answer = refl;
  pause_answer = refl;
}

init_cached_contracts-IsInitialised_example :
    ((init_cached_contracts repository_env "0xb100" stale).0 ≡ ok tt)
    × IsInitialised repository_env "0xlocator" "0xb100" answers stale
        (init_cached_contracts repository_env "0xb100" stale).1
init_cached_contracts-IsInitialised_example =
    init_cached_contracts-IsInitialised repository_env "0xb100" stale "0xlocator" refl answers

abbrev failing : RepositoryEnv
failing = record repository_env {
  contracts = record contracts { lido = λ locator tag. throw (new_error "timeout") };
}

-- the first attempt is rejected, the later ones are answered
abbrev attempts : ℕ → RepositoryEnv
attempts zero = failing
attempts (suc n) = repository_env

abbrev latest : ℕ → Outcome Block
latest n = ok (record { hash = "0xb100"; number = 100 })

first_attempt : (i : ℕ) → 0 ≤ i → i < 1 → Settles attempts latest i
unfolding init_cached_contracts init_cached_lido_contract get_lido_address
    get_lido_locator_abi_contract get_locator_address get_lido_locator_address by_network
first_attempt zero low high = record {
  block = record { hash = "0xb100"; number = 100 };
  known = refl;
  settles = λ s. inr (new_error "timeout", by_locator s.cached_lido_locator_contract s refl);
}
  where
    by_locator :
        (o : Option String) (s : Repository)
        → s.cached_lido_locator_contract ≡ o
        → (init_cached_contracts (attempts 0) "0xb100" s).0 ≡ throw (new_error "timeout")
    by_locator none s e = rw e refl
    by_locator (some locator) s e = rw e refl
first_attempt (suc i) low high = absurd (omega arith)

second_attempt-ok : (s : Repository) → (init_cached_contracts repository_env "0xb100" s).0 ≡ ok tt
unfolding init_cached_contracts init_cached_lido_contract init_cached_dsm_contract
    init_cached_deposit_contract init_cached_staking_router_abi_contract get_lido_address
    get_dsm_address get_staking_router_address get_deposit_address get_lido_locator_abi_contract
    get_locator_address get_attest_message_prefix get_pause_message_prefix get_cached_dsm_contract
    get_from_cache set_contract_cache set_permanent_contract_cache get_lido_locator_address
    by_network both_of
second_attempt-ok s =
    by_cache s.cached_lido_locator_contract (s.permanent_contracts_cache deposit_abi) refl refl
  where
    by_cache :
        (o c : Option String)
        → s.cached_lido_locator_contract ≡ o
        → s.permanent_contracts_cache deposit_abi ≡ c
        → (init_cached_contracts repository_env "0xb100" s).0 ≡ ok tt
    by_cache none none e ec = simp (e, ec) refl
    by_cache none (some kept) e ec = simp (e, ec) refl
    by_cache (some locator) none e ec = simp (e, ec) refl
    by_cache (some locator) (some kept) e ec = simp (e, ec) refl

second_attempt : Succeeds attempts latest 1
second_attempt = record {
  block = record { hash = "0xb100"; number = 100 };
  known = refl;
  succeeds = second_attempt-ok;
}

init_or_wait_cached_contracts-Ends_example :
    Ends attempts latest 1 (init_or_wait_cached_contracts 2 attempts latest 0 stale)
init_or_wait_cached_contracts-Ends_example =
    init_or_wait_cached_contracts-Ends attempts latest 2 0 1 stale (omega arith) (omega arith)
      first_attempt second_attempt
