-- ===== src/Contracts.antt =====
-- The contracts as src/contracts/ calls them through the generated classes and the node, which are
-- outside the daemon: each call is given the contract's address and answers or rejects.
-- Every caller asks at a block hash, `{ blockHash }`, so a `BlockTag` is that hash.
use lidofinance_lido_council.Shared.{ℕ, String, Bool, List}
use lidofinance_lido_council.Outcome.{Outcome}

abbrev pub BlockTag : Type 0
BlockTag = String

abbrev pub Address : Type 0
Address = String

-- `Signature` of @ethersproject/bytes, as far as the daemon reads it.
pub record Signature : Type 0 where
  pub r : String
  pub vs : String

pub record Contracts : Type 0 where
  pub lido : Address → BlockTag → Outcome Address
  pub deposit_security_module : Address → BlockTag → Outcome Address
  pub staking_router : Address → BlockTag → Outcome Address
  pub attest_message_prefix : Address → Outcome String
  pub pause_message_prefix : Address → Outcome String
  pub deposit_contract : Address → BlockTag → Outcome Address
  pub get_guardians : Address → BlockTag → Outcome (List Address)
  pub get_max_deposits : Address → BlockTag → Outcome ℕ
  pub get_staking_module_is_active : Address → ℕ → BlockTag → Outcome Bool
  pub get_withdrawal_credentials : Address → BlockTag → Outcome String
