-- ===== src/Wallet.antt =====
-- src/wallet/wallet.service.ts: what the guardian signs. The ABI coder, the hash and the key are of
-- the ethers libraries, outside the daemon.
pub mod Signing
pub mod Account
use lidofinance_lido_council.Shared.{
  ℕ, String, Bool, Option, none, some, List, [], ◌∷◌, str_eq, leb, if◌then◌else◌,
}
use lidofinance_lido_council.Contracts.{Signature}

pub data AbiType : Type 0 where
  bytes32 uint256 : AbiType

pub data AbiValue : Type 0 where
  text : String → AbiValue
  number : ℕ → AbiValue

pub record Wallet : Type 0 where
  pub address : String
  pub encode : List AbiType → List AbiValue → String
  pub keccak256 : String → String
  pub sign_digest : String → Signature

pub record SignDepositDataParams : Type 0 where
  pub prefix : String
  pub block_number : ℕ
  pub block_hash : String
  pub deposit_root : String
  pub keys_op_index : ℕ
  pub staking_module_id : ℕ

pub record SignPauseDataParams : Type 0 where
  pub prefix : String
  pub block_number : ℕ
  pub staking_module_id : ℕ

abbrev pub deposit_types : List AbiType
deposit_types = bytes32 ∷ uint256 ∷ bytes32 ∷ bytes32 ∷ uint256 ∷ uint256 ∷ []

abbrev pub deposit_values : SignDepositDataParams → List AbiValue
deposit_values p =
    text p.prefix
    ∷ number p.block_number
    ∷ text p.block_hash
    ∷ text p.deposit_root
    ∷ number p.staking_module_id
    ∷ number p.keys_op_index
    ∷ []

abbrev pub pause_types : List AbiType
pause_types = bytes32 ∷ uint256 ∷ uint256 ∷ []

abbrev pub pause_values : SignPauseDataParams → List AbiValue
pause_values p = text p.prefix ∷ number p.block_number ∷ number p.staking_module_id ∷ []

module _ (wallet : Wallet) where
  unfoldable pub sign_message : String → Signature
  sign_message = wallet.sign_digest

  unfoldable pub sign_deposit_data : SignDepositDataParams → Signature
  unfolding sign_message
  sign_deposit_data params =
      sign_message (wallet.keccak256 (wallet.encode deposit_types (deposit_values params)))

  unfoldable pub sign_pause_data : SignPauseDataParams → Signature
  unfolding sign_message
  sign_pause_data params =
      sign_message (wallet.keccak256 (wallet.encode pause_types (pause_values params)))
