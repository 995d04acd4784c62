-- ===== src/Guardian/Message.antt =====
-- src/guardian/guardian-message/guardian-message.service.ts.
use lidofinance_lido_council.Shared.{ℕ, Bool, List, if◌then◌else◌}
use lidofinance_lido_council.Shared.Int.{ℤ, negsuc, int_eq}
use lidofinance_lido_council.Outcome.{pure}
use lidofinance_lido_council.Messages.{
  deposit_body, pause_body, ping_body, SignedState, Sender, MessageData, Message, send_message,
}
use lidofinance_lido_council.Guardian.State.{BlockData, GuardianEnv, Action, on_broker}

-- `guardianIndex == -1`
abbrev pub is_unknown_guardian : ℤ → Bool
is_unknown_guardian index = int_eq index (negsuc 0)

module _ (env : GuardianEnv) where
  unfoldable pub add_message_meta_data : MessageData → Message
  add_message_meta_data message = record { content = message; app = env.app }

  unfoldable pub send_message_from_guardian : MessageData → Action (Unit {0})
  unfolding add_message_meta_data
  send_message_from_guardian message_data =
      if is_unknown_guardian message_data.sender.guardian_index
      then pure tt
      else on_broker (send_message env.messages (add_message_meta_data message_data))

  unfoldable pub ping_message_broker : List ℕ → BlockData → Action (Unit {0})
  unfolding send_message_from_guardian
  ping_message_broker staking_module_ids block_data = send_message_from_guardian (record {
    sender = record {
      guardian_address = block_data.guardian_address;
      guardian_index = block_data.guardian_index;
    };
    body = ping_body (record {
      block_number = block_data.block_number;
      staking_module_ids = staking_module_ids;
    });
  })

  unfoldable pub send_deposit_message : Sender → SignedState → Action (Unit {0})
  unfolding send_message_from_guardian
  send_deposit_message sender message =
      send_message_from_guardian (record { sender = sender; body = deposit_body message })

  unfoldable pub send_pause_message : Sender → SignedState → Action (Unit {0})
  unfolding send_message_from_guardian
  send_pause_message sender message =
      send_message_from_guardian (record { sender = sender; body = pause_body message })
