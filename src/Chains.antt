-- ===== src/Chains.antt =====
-- The per-network tables: src/contracts/deposit/deposit.constants.ts,
-- src/messages/messages.constants.ts and src/contracts/repository/locator/locator.constants.ts.
-- The chain ids are those of `CHAINS` of @lido-sdk/constants, which is outside the repository.
use lidofinance_lido_council.Shared.{ℕ, String, ◌==◌, if◌then◌else◌}
use lidofinance_lido_council.Shared.Text.{join, decimal}
use lidofinance_lido_council.Outcome.{new_error, Outcome, ok, throw}

pub record Chains : Type 0 where
  pub mainnet : ℕ
  pub goerli : ℕ
  pub zhejiang : ℕ

-- An object with a key for each supported chain; the error of the lookup functions.
unfoldable pub by_network : {A : Type 0} → Chains → A → A → A → ℕ → Outcome A
by_network chains a b c id =
    if id == chains.mainnet
    then ok a
    else if id == chains.goerli
    then ok b
    else if id == chains.zhejiang
    then ok c
    else throw (new_error (join "Chain " (join (decimal id) " is not supported")))

unfoldable pub get_deployment_block_by_network : Chains → ℕ → Outcome ℕ
unfolding by_network
get_deployment_block_by_network chains = by_network chains 11_052_984 4_367_322 67_530

unfoldable pub get_message_topic_prefix : Chains → ℕ → Outcome String
unfolding by_network
get_message_topic_prefix chains = by_network chains "mainnet" "goerli" "testnet"

unfoldable pub get_lido_locator_address : Chains → ℕ → Outcome String
unfolding by_network
get_lido_locator_address chains =
    by_network chains "0xC1d0b3DE6792Bf6b4b37EccdcC24e45978Cfd2Eb"
      "0x1eDf09b5023DC86737b59dE68a8130De878984f5" "0x548C1ED5C83Bdf19e567F4cd7Dd9AC4097088589"
