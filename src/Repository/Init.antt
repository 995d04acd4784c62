-- ===== src/Repository/Init.antt =====
-- What `initCachedContracts` of src/contracts/repository/repository.service.ts leaves in the cache.
use lidofinance_lido_council.Shared.{◌≡◌, refl, String, Option, none, some}
use lidofinance_lido_council.Outcome.{both_of, ok}
use lidofinance_lido_council.Contracts.{BlockTag, Address}
use lidofinance_lido_council.Repository.{
  Repository, RepositoryEnv, lido_abi, dsm_abi, deposit_abi, staking_router_abi,
  init_cached_contracts, init_cached_lido_contract, init_cached_dsm_contract,
  init_cached_deposit_contract, init_cached_staking_router_abi_contract, get_lido_address,
  get_dsm_address, get_staking_router_address, get_lido_locator_abi_contract, get_deposit_address,
  get_attest_message_prefix, get_pause_message_prefix, get_cached_dsm_contract, get_from_cache,
  set_contract_cache, set_permanent_contract_cache,
}

-- The deposit contract that was found first is kept.
abbrev pub kept_or : Option Address → Address → Address
kept_or none found = found
kept_or (some kept) found = kept

-- What the locator and the security contract answer at a block.
pub record Answers (env : RepositoryEnv) (locator : Address) (tag : BlockTag) : Type 0 where
  pub lido : String
  pub dsm : String
  pub router : String
  pub deposit : String
  pub attest : String
  pub pause : String
  pub lido_answer : env.contracts.lido locator tag ≡ ok lido
  pub dsm_answer : env.contracts.deposit_security_module locator tag ≡ ok dsm
  pub router_answer : env.contracts.staking_router locator tag ≡ ok router
  pub deposit_answer : env.contracts.deposit_contract dsm tag ≡ ok deposit
  pub attest_answer : env.contracts.attest_message_prefix dsm ≡ ok attest
  pub pause_answer : env.contracts.pause_message_prefix dsm ≡ ok pause

-- The Lido, security and router contracts are those of the answers, the prefixes are those of that
-- security contract, and the deposit contract is the one that was found first.
pub record IsInitialised (env : RepositoryEnv) (locator : Address) (tag : BlockTag)
    (a : Answers env locator tag) (old new : Repository) : Type 0 where
  pub lido : new.temp_contracts_cache lido_abi ≡ some a.lido
  pub dsm : new.temp_contracts_cache dsm_abi ≡ some a.dsm
  pub router : new.temp_contracts_cache staking_router_abi ≡ some a.router
  pub attest : new.cached_attest_prefix ≡ some a.attest
  pub pause : new.cached_pause_prefix ≡ some a.pause
  pub deposit :
      new.permanent_contracts_cache deposit_abi
      ≡ some (kept_or (old.permanent_contracts_cache deposit_abi) a.deposit)

-- When the locator is known and it and the security contract answer, the initialisation ends well:
-- whatever was cached before, the Lido, security and router contracts are those of the asked block and
-- the prefixes those of that security contract; the deposit contract stays the one found first.
pub init_cached_contracts-IsInitialised :
    (env : RepositoryEnv) (tag : BlockTag) (s : Repository) (locator : Address)
    → s.cached_lido_locator_contract ≡ some locator
    → (a : Answers env locator tag)
    → ((init_cached_contracts env tag s).0 ≡ ok tt)
      × IsInitialised env locator tag a s (init_cached_contracts env tag s).1
unfolding init_cached_contracts init_cached_lido_contract init_cached_dsm_contract
    init_cached_deposit_contract init_cached_staking_router_abi_contract get_lido_address
    get_dsm_address get_staking_router_address get_lido_locator_abi_contract get_deposit_address
    get_attest_message_prefix get_pause_message_prefix get_cached_dsm_contract get_from_cache
    set_contract_cache set_permanent_contract_cache both_of
init_cached_contracts-IsInitialised env tag s locator known a =
    by_deposit (s.permanent_contracts_cache deposit_abi) refl
  where
    by_deposit :
        (o : Option Address)
        → s.permanent_contracts_cache deposit_abi ≡ o
        → ((init_cached_contracts env tag s).0 ≡ ok tt)
          × IsInitialised env locator tag a s (init_cached_contracts env tag s).1
    by_deposit none e =
        rw
          (
            known, a.lido_answer, a.dsm_answer, a.attest_answer, a.pause_answer, e,
            a.deposit_answer, a.router_answer,
          )
          (
            refl,
            record {
              lido = refl;
              dsm = refl;
              router = refl;
              attest = refl;
              pause = refl;
              deposit = rw e;
            },
          )
    by_deposit (some kept) e =
        rw (known, a.lido_answer, a.dsm_answer, a.attest_answer, a.pause_answer, e, a.router_answer)
          (
            refl,
            record {
              lido = refl;
              dsm = refl;
              router = refl;
              attest = refl;
              pause = refl;
              deposit = rw e;
            },
          )
