-- ===== src/Security.antt =====
-- src/contracts/security/security.service.ts and src/contracts/lido/lido.service.ts.
pub mod Guardians
pub mod Signatures
use lidofinance_lido_council.Shared.{
  ℕ, suc, ◌+◌, String, Option, none, some, Bool, true, false, not, List, [], ◌∷◌, ◌++◌, str_eq,
  if◌then◌else◌,
}
use lidofinance_lido_council.Shared.Int.{ℤ, pos, negsuc}
use lidofinance_lido_council.Outcome.{
  Failure, Outcome, ok, throw, exit, pending, Exec, pure, lift, gets, modify, ◌>>=◌, ◌>>◌,
  try_catch, within,
}
use lidofinance_lido_council.Contracts.{BlockTag, Address, Signature, Contracts}
use lidofinance_lido_council.Repository.{
  Repository, RepositoryEnv, get_cached_dsm_contract, get_cached_lido_contract,
  get_cached_staking_router_contract, get_attest_message_prefix, get_pause_message_prefix,
}
use lidofinance_lido_council.Wallet.{Wallet}
use lidofinance_lido_council.Wallet

pub record SecurityEnv : Type 0 where
  pub repository : RepositoryEnv
  pub wallet : Wallet

-- `guardians.indexOf(address)`
abbrev shift : ℤ → ℤ
shift (pos n) = pos (n + 1)
shift (negsuc n) = negsuc n

unfoldable pub index_of : List String → String → ℤ
index_of [] address = negsuc 0
index_of (guardian ∷ guardians) address =
    let rest = shift (index_of guardians address) in if str_eq guardian address then pos 0 else rest

module _ (env : SecurityEnv) where
  unfoldable get_max_deposits : BlockTag → Exec Repository ℕ
  get_max_deposits tag = do
    contract ← get_cached_dsm_contract
    lift (env.repository.contracts.get_max_deposits contract tag)

  unfoldable pub get_guardians : BlockTag → Exec Repository (List Address)
  get_guardians tag = do
    contract ← get_cached_dsm_contract
    lift (env.repository.contracts.get_guardians contract tag)

  unfoldable pub get_guardian_index : BlockTag → Exec Repository ℤ
  unfolding get_guardians
  get_guardian_index tag = do
    guardians ← get_guardians tag
    pure (index_of guardians env.wallet.address)

  -- The index decides only which line is logged.
  pub initialize : BlockTag → Exec Repository (Unit {0})
  unfolding get_guardian_index
  initialize tag = do get_guardian_index tag; pure tt

  unfoldable pub get_guardian_address : String
  get_guardian_address = env.wallet.address

  unfoldable pub sign_deposit_data : String → ℕ → ℕ → String → ℕ → Exec Repository Signature
  sign_deposit_data deposit_root keys_op_index block_number block_hash staking_module_id = do
    prefix ← get_attest_message_prefix env.repository
    pure (
        Wallet.sign_deposit_data env.wallet (record {
          prefix = prefix;
          block_number = block_number;
          block_hash = block_hash;
          deposit_root = deposit_root;
          keys_op_index = keys_op_index;
          staking_module_id = staking_module_id;
        }))

  unfoldable pub sign_pause_data : ℕ → ℕ → Exec Repository Signature
  sign_pause_data block_number staking_module_id = do
    prefix ← get_pause_message_prefix env.repository
    pure (
        Wallet.sign_pause_data env.wallet (record {
          prefix = prefix;
          block_number = block_number;
          staking_module_id = staking_module_id;
        }))

  pub is_deposits_paused : ℕ → BlockTag → Exec Repository Bool
  is_deposits_paused staking_module_id tag = do
    staking_router_contract ← get_cached_staking_router_contract
    is_active ← lift (
        env.repository.contracts.get_staking_module_is_active staking_router_contract
          staking_module_id tag)
    pure (not is_active)

  -- lido.service.ts
  unfoldable pub get_withdrawal_credentials : BlockTag → Exec Repository String
  get_withdrawal_credentials tag = do
    contract ← get_cached_lido_contract
    lift (env.repository.contracts.get_withdrawal_credentials contract tag)

-- A call of the contract's `pauseDeposits`: the contract, the block, the module and the signature.
pub record PauseTransaction : Type 0 where
  pub contract : Address
  pub block_number : ℕ
  pub staking_module_id : ℕ
  pub signature : Signature

-- `pauseDeposits` is called without waiting for it. Its call begins in `pause_deposits`: under the
-- decorator's flag it counts the attempt and sends the transaction. It ends, in success or failure,
-- in `pause_settled`, at any later time.
pub record Pausing : Type 0 where
  pub is_executing : Bool
  pub pause_attempts : ℕ
  pub transactions : List PauseTransaction

abbrev pub send_pause : ℕ → ℕ → Signature → Pausing → Outcome Address → Pausing
send_pause block_number staking_module_id signature p (ok contract) = record p {
  is_executing = true;
  pause_attempts = p.pause_attempts + 1;
  transactions =
      p.transactions
      ++ record {
        contract = contract;
        block_number = block_number;
        staking_module_id = staking_module_id;
        signature = signature;
      }
        ∷ [];
}
send_pause _ _ _ p _ = record p { pause_attempts = p.pause_attempts + 1 }

unfoldable pub pause_deposits : Repository → ℕ → ℕ → Signature → Pausing → Pausing
pause_deposits repository block_number staking_module_id signature p =
    if p.is_executing
    then p
    else send_pause block_number staking_module_id signature p
        (get_cached_dsm_contract repository).0

unfoldable pub pause_settled : Pausing → Pausing
pause_settled p = record p { is_executing = false }
