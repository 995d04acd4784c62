-- ===== src/Repository.antt =====
-- src/contracts/repository/: the addresses of the contracts and the prefixes of the security module,
-- as the locator gives them at a block. A contract object is its address; the provider that it is
-- connected to is the daemon's one. Log lines are not modelled.
pub mod Init
pub mod Waiting
use lidofinance_lido_council.Shared.{
  ℕ, zero, suc, String, Option, none, some, Bool, true, false, str_eq, if◌then◌else◌,
}
use lidofinance_lido_council.Shared.Text.{join}
use lidofinance_lido_council.Outcome.{
  new_error, Outcome, ok, throw, pending, bind, Exec, pure, lift, modify, ◌>>=◌, ◌>>◌, try_catch,
  both,
}
use lidofinance_lido_council.Chains
use lidofinance_lido_council.Chains.{Chains}
use lidofinance_lido_council.Contracts.{BlockTag, Address, Contracts}

-- LIDO_ABI, DSM_ABI, DEPOSIT_ABI and STAKING_ROUTER_ABI
abbrev pub lido_abi : String
lido_abi = "contract:LidoAbi"

abbrev pub dsm_abi : String
dsm_abi = "contract:SecurityAbi"

abbrev pub deposit_abi : String
deposit_abi = "contract:DepositAbi"

abbrev pub staking_router_abi : String
staking_router_abi = "contract:StakingRouterAbi"

-- The private fields of `RepositoryService` and of its `LocatorService`.
pub record Repository : Type 0 where
  pub cached_lido_locator_contract : Option Address
  pub temp_contracts_cache : String → Option Address
  pub cached_attest_prefix : Option String
  pub cached_pause_prefix : Option String
  pub permanent_contracts_cache : String → Option Address

pub record RepositoryEnv : Type 0 where
  pub chains : Chains
  pub chain_id : Outcome ℕ
  pub contracts : Contracts

abbrev pub put : (String → Option Address) → String → Address → String → Option Address
put table key address other = if str_eq key other then some address else table other

abbrev pub Action : Type 0 → Type 0
Action = Exec Repository

abbrev pub or_not_found : String → Option Address → Outcome Address
or_not_found abi_key none = throw (new_error (join "Not found ABI for key: " abi_key))
or_not_found abi_key (some contract) = ok contract

-- `getFromCache`, and with it the getters of the Lido, security and router contracts
unfoldable pub get_from_cache : String → Action Address
get_from_cache abi_key s = (or_not_found abi_key (s.temp_contracts_cache abi_key), s)

unfoldable pub get_cached_lido_contract : Action Address
unfolding get_from_cache
get_cached_lido_contract = get_from_cache lido_abi

unfoldable pub get_cached_dsm_contract : Action Address
unfolding get_from_cache
get_cached_dsm_contract = get_from_cache dsm_abi

unfoldable pub get_cached_staking_router_contract : Action Address
unfolding get_from_cache
get_cached_staking_router_contract = get_from_cache staking_router_abi

-- `undefined` when the contract was never initialised
unfoldable pub get_cached_deposit_contract : Repository → Option Address
get_cached_deposit_contract s = s.permanent_contracts_cache deposit_abi

unfoldable pub set_contract_cache : Address → String → Action (Unit {0})
set_contract_cache address key =
    modify (λ s. record s { temp_contracts_cache = put s.temp_contracts_cache key address })

unfoldable pub set_permanent_contract_cache : Address → String → Action (Unit {0})
set_permanent_contract_cache address key =
    modify
      (λ s. record s { permanent_contracts_cache = put s.permanent_contracts_cache key address })

-- A cached text is used unless it is missing or empty.
abbrev pub truthy : Option String → Bool
truthy none = false
truthy (some text) = if str_eq text "" then false else true

abbrev pub text_of : Option String → String
text_of none = ""
text_of (some text) = text

module _ (env : RepositoryEnv) where
  -- locator.service.ts
  unfoldable pub get_locator_address : Outcome Address
  get_locator_address = bind env.chain_id (Chains.get_lido_locator_address env.chains)

  abbrev connect_locator : Address → Action Address
  connect_locator address s = (ok address, record s { cached_lido_locator_contract = some address })

  abbrev or_connect : Option Address → Action Address
  or_connect (some contract) = pure contract
  or_connect none = lift get_locator_address >>= connect_locator

  unfoldable pub get_lido_locator_abi_contract : Action Address
  unfolding get_locator_address
  get_lido_locator_abi_contract s = or_connect s.cached_lido_locator_contract s

  unfoldable pub get_lido_address : BlockTag → Action Address
  unfolding get_lido_locator_abi_contract
  get_lido_address tag = do
    locator ← get_lido_locator_abi_contract
    lift (env.contracts.lido locator tag)

  unfoldable pub get_dsm_address : BlockTag → Action Address
  unfolding get_lido_locator_abi_contract
  get_dsm_address tag = do
    locator ← get_lido_locator_abi_contract
    lift (env.contracts.deposit_security_module locator tag)

  unfoldable pub get_staking_router_address : BlockTag → Action Address
  unfolding get_lido_locator_abi_contract
  get_staking_router_address tag = do
    locator ← get_lido_locator_abi_contract
    lift (env.contracts.staking_router locator tag)

  -- repository.service.ts
  abbrev remember_attest : String → Action String
  remember_attest prefix s = (ok prefix, record s { cached_attest_prefix = some prefix })

  unfoldable pub get_attest_message_prefix : Action String
  unfolding get_cached_dsm_contract
  get_attest_message_prefix s =
      (if truthy s.cached_attest_prefix then pure (text_of s.cached_attest_prefix) else do
        contract ← get_cached_dsm_contract
        prefix ← lift (env.contracts.attest_message_prefix contract)
        remember_attest prefix)
        s

  abbrev remember_pause : String → Action String
  remember_pause prefix s = (ok prefix, record s { cached_pause_prefix = some prefix })

  unfoldable pub get_pause_message_prefix : Action String
  unfolding get_cached_dsm_contract
  get_pause_message_prefix s =
      (if truthy s.cached_pause_prefix then pure (text_of s.cached_pause_prefix) else do
        contract ← get_cached_dsm_contract
        prefix ← lift (env.contracts.pause_message_prefix contract)
        remember_pause prefix)
        s

  unfoldable pub get_deposit_address : BlockTag → Action Address
  unfolding get_cached_dsm_contract
  get_deposit_address tag = do
    contract ← get_cached_dsm_contract
    lift (env.contracts.deposit_contract contract tag)

  unfoldable pub init_cached_lido_contract : BlockTag → Action (Unit {0})
  unfolding get_lido_address set_contract_cache
  init_cached_lido_contract tag = do
    address ← get_lido_address tag
    set_contract_cache address lido_abi

  abbrev prune_prefixes : Action (Unit {0})
  prune_prefixes =
      modify (λ s. record s { cached_attest_prefix = none; cached_pause_prefix = none })

  unfoldable pub init_cached_dsm_contract : BlockTag → Action (Unit {0})
  unfolding get_dsm_address set_contract_cache get_attest_message_prefix get_pause_message_prefix
  init_cached_dsm_contract tag = do
    address ← get_dsm_address tag
    set_contract_cache address dsm_abi
    prune_prefixes
    both get_attest_message_prefix get_pause_message_prefix
    pure tt

  abbrev unless_initialised : Option Address → Action (Unit {0}) → Action (Unit {0})
  unless_initialised (some contract) m = pure tt
  unless_initialised none m = m

  unfoldable pub init_cached_deposit_contract : BlockTag → Action (Unit {0})
  unfolding get_deposit_address set_permanent_contract_cache
  init_cached_deposit_contract tag s =
      unless_initialised (s.permanent_contracts_cache deposit_abi)
        (do address ← get_deposit_address tag; set_permanent_contract_cache address deposit_abi) s

  unfoldable pub init_cached_staking_router_abi_contract : BlockTag → Action (Unit {0})
  unfolding get_staking_router_address set_contract_cache
  init_cached_staking_router_abi_contract tag = do
    address ← get_staking_router_address tag
    set_contract_cache address staking_router_abi

  -- The order matters: the deposit contract depends on the security module.
  unfoldable pub init_cached_contracts : BlockTag → Action (Unit {0})
  unfolding init_cached_lido_contract init_cached_dsm_contract init_cached_deposit_contract
      init_cached_staking_router_abi_contract
  init_cached_contracts tag = do
    init_cached_lido_contract tag
    init_cached_dsm_contract tag
    init_cached_deposit_contract tag
    init_cached_staking_router_abi_contract tag

pub record Block : Type 0 where
  pub hash : String
  pub number : ℕ

-- `initOrWaitCachedContracts` retries until the contracts answer. Attempt `n` meets the answers
-- `envs n` and the latest block `blocks n`; the fuel is the number of attempts. A failure of
-- `getBlock` is outside the try block.
pub init_or_wait_cached_contracts : ℕ → (ℕ → RepositoryEnv) → (ℕ → Outcome Block) → ℕ → Action Block
unfolding init_cached_contracts
init_or_wait_cached_contracts zero envs blocks n = lift pending
init_or_wait_cached_contracts (suc fuel) envs blocks n = do
  block ← lift (blocks n)
  try_catch (do init_cached_contracts (envs n) block.hash; pure block)
      (λ error. init_or_wait_cached_contracts fuel envs blocks (suc n))
