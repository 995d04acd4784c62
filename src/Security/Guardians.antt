-- ===== src/Security/Guardians.antt =====
-- What src/contracts/security/security.service.ts finds for the guardian, and its pause transactions.
use lidofinance_lido_council.Shared.{
  ℕ, zero, suc, ◌+◌, ◌≤◌, ◌≡◌, ◌≢◌, refl, inl, inr, ap, String, Option, none, some, Bool, true,
  false, not, List, [], ◌∷◌, arith, eq_iff, str_eq, Bool-cases,
}
use lidofinance_lido_council.Shared.Int.{ℤ, pos, negsuc}
use lidofinance_lido_council.Outcome.{Outcome, ok}
use lidofinance_lido_council.Contracts.{BlockTag, Address, Signature}
use lidofinance_lido_council.Messages.Publishing.{Adds, Adds-refl}
use lidofinance_lido_council.Repository.{
  Repository, get_cached_dsm_contract, get_cached_lido_contract, get_cached_staking_router_contract,
  get_from_cache, staking_router_abi, lido_abi, dsm_abi, get_cached_dsm_contract, or_not_found,
}
use lidofinance_lido_council.Security.{
  SecurityEnv, PauseTransaction, Pausing, send_pause, index_of, shift, get_guardians,
  get_guardian_index, get_withdrawal_credentials, is_deposits_paused, pause_deposits,
}

-- Reading the credentials, the guardians or the state of a module changes no cached contract.
pub get_withdrawal_credentials_keeps :
    (env : SecurityEnv) (tag : BlockTag) (s : Repository)
    → (get_withdrawal_credentials env tag s).1 ≡ s
unfolding get_withdrawal_credentials get_cached_lido_contract
get_withdrawal_credentials_keeps env tag s = ground arith

pub is_deposits_paused_keeps :
    (env : SecurityEnv) (id : ℕ) (tag : BlockTag) (s : Repository)
    → (is_deposits_paused env id tag s).1 ≡ s
unfolding is_deposits_paused get_cached_staking_router_contract
is_deposits_paused_keeps env id tag s = ground arith

pub get_guardian_index_keeps :
    (env : SecurityEnv) (tag : BlockTag) (s : Repository) → (get_guardian_index env tag s).1 ≡ s
unfolding get_guardian_index get_guardians get_cached_dsm_contract
get_guardian_index_keeps env tag s = ground arith

-- An answer on a module's pause is that of the cached router contract.
pub is_deposits_paused-eq-ok :
    (env : SecurityEnv) (id : ℕ) (tag : BlockTag) (s : Repository) (paused : Bool)
    → (is_deposits_paused env id tag s).0 ≡ ok paused
    → (router : Address) × (s.temp_contracts_cache staking_router_abi ≡ some router)
      × (env.repository.contracts.get_staking_module_is_active router id tag ≡ ok (not paused))
unfolding is_deposits_paused get_cached_staking_router_contract get_from_cache
is_deposits_paused-eq-ok env id tag s paused got =
    by_contract (s.temp_contracts_cache staking_router_abi) refl
  where
    by_answer :
        (router : Address)
        → s.temp_contracts_cache staking_router_abi ≡ some router
        → (r : Outcome Bool)
        → env.repository.contracts.get_staking_module_is_active router id tag ≡ r
        → r ≡ ok (not paused)
    by_answer router e (ok true) er = ground arith
    by_answer router e (ok false) er = ground arith
    by_answer router e r er = absurd (ground arith)

    by_contract :
        (o : Option Address)
        → s.temp_contracts_cache staking_router_abi ≡ o
        → (router : Address) × (s.temp_contracts_cache staking_router_abi ≡ some router)
          × (env.repository.contracts.get_staking_module_is_active router id tag ≡ ok (not paused))
    by_contract none e = absurd (ground arith)
    by_contract (some router) e = (
      router,
      e,
      by_answer router e (env.repository.contracts.get_staking_module_is_active router id tag) refl,
    )

-- When the contract is cached and answers, the calls succeed.
pub is_deposits_paused-known :
    (env : SecurityEnv) (id : ℕ) (tag : BlockTag) (s : Repository) (router : Address)
    → s.temp_contracts_cache staking_router_abi ≡ some router
    → env.repository.contracts.get_staking_module_is_active router id tag ≡ ok true
    → (is_deposits_paused env id tag s).0 ≡ ok false
unfolding is_deposits_paused get_cached_staking_router_contract get_from_cache
is_deposits_paused-known env id tag s router cached active = ground arith

pub get_withdrawal_credentials-known :
    (env : SecurityEnv) (tag : BlockTag) (s : Repository) (lido : Address) (wc : String)
    → s.temp_contracts_cache lido_abi ≡ some lido
    → env.repository.contracts.get_withdrawal_credentials lido tag ≡ ok wc
    → (get_withdrawal_credentials env tag s).0 ≡ ok wc
unfolding get_withdrawal_credentials get_cached_lido_contract get_from_cache
get_withdrawal_credentials-known env tag s lido wc cached answer = ground arith

abbrev at? : List String → ℕ → Option String
at? [] i = none
at? (x ∷ xs) zero = some x
at? (x ∷ xs) (suc i) = at? xs i

-- The index is -1 exactly for an address that is no guardian's, and else the first place at which the
-- address stands.
pub IsIndexOf : List String → String → ℤ → Type 0
IsIndexOf guardians address (pos i) =
    (at? guardians i ≡ some address) × ((j : ℕ) → suc j ≤ i → at? guardians j ≢ some address)
IsIndexOf guardians address (negsuc n) = (n ≡ 0) × ((j : ℕ) → at? guardians j ≢ some address)

shift-IsIndexOf :
    (guardian : String) (guardians : List String) (address : String) (i : ℤ)
    → guardian ≢ address
    → IsIndexOf guardians address i
    → IsIndexOf (guardian ∷ guardians) address (shift i)
unfolding IsIndexOf
shift-IsIndexOf guardian guardians address (pos i) ne (found, first) =
    let e : i + 1 ≡ suc i = omega arith in rw e (found, below)
  where
    below : (j : ℕ) → suc j ≤ suc i → at? (guardian ∷ guardians) j ≢ some address
    below zero h same = ne (cc)
    below (suc j) h same = first j (omega arith) same
shift-IsIndexOf guardian guardians address (negsuc n) ne (e, never) = (e, everywhere)
  where
    everywhere : (j : ℕ) → at? (guardian ∷ guardians) j ≢ some address
    everywhere zero same = ne (cc)
    everywhere (suc j) same = never j same

-- `indexOf` finds the first place of the address, or is -1 when the address is not in the list.
pub index_of-IsIndexOf :
    (guardians : List String) (address : String)
    → IsIndexOf guardians address (index_of guardians address)
unfolding index_of IsIndexOf
index_of-IsIndexOf [] address = (omega arith, λ j e. cc)
index_of-IsIndexOf (guardian ∷ guardians) address = elim (Bool-cases (str_eq guardian address)) [
  | inl same ↦ rw same (ap some ((eq_iff guardian address).0 same), λ j h. absurd (omega arith))
  | inr differ ↦ rw differ (
      shift-IsIndexOf guardian guardians address (index_of guardians address)
        (λ e. ground (arith, (eq_iff guardian address).1 e)) (index_of-IsIndexOf guardians address))
]

-- While a pause transaction is under way, any further call is dropped: neither an attempt is counted
-- nor a transaction sent, for whatever module.
pub pause_deposits-under_way :
    (s : Repository) (block_number id : ℕ) (signature : Signature) (p : Pausing)
    → p.is_executing ≡ true
    → pause_deposits s block_number id signature p ≡ p
unfolding pause_deposits
pause_deposits-under_way s block_number id signature p busy = rw busy

-- A call adds at most one transaction, to the security contract that the repository holds.
pub pause_deposits-Adds :
    (J : PauseTransaction → Type 0) (s : Repository) (block_number id : ℕ) (signature : Signature)
    (p : Pausing)
    → ((contract : Address)
        → s.temp_contracts_cache dsm_abi ≡ some contract
        → J (record {
          contract = contract;
          block_number = block_number;
          staking_module_id = id;
          signature = signature;
        }))
    → Adds J p.transactions (pause_deposits s block_number id signature p).transactions
unfolding pause_deposits get_cached_dsm_contract get_from_cache
pause_deposits-Adds J s block_number id signature p judge = elim (Bool-cases p.is_executing) [
  | inl busy ↦ simp busy (Adds-refl J p.transactions)
  | inr idle ↦ simp idle (sent (s.temp_contracts_cache dsm_abi) refl)
]
  where
    sent :
        (found : Option Address)
        → s.temp_contracts_cache dsm_abi ≡ found
        → Adds J p.transactions
            (send_pause block_number id signature p (or_not_found dsm_abi found)).transactions
    sent none missing = Adds-refl J p.transactions
    sent (some contract) held = (
      record {
        contract = contract;
        block_number = block_number;
        staking_module_id = id;
        signature = signature;
      }
          ∷ [],
      refl,
      (judge contract held, tt),
    )
