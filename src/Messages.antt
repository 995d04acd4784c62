-- ===== src/Messages.antt =====
-- src/messages/: what the guardian publishes, and the publishing. The broker's transport is outside:
-- it takes a message for a topic, or rejects.
pub mod Publishing
use lidofinance_lido_council.Shared.{ℕ, ◌+◌, String, List, [], ◌∷◌, ◌++◌}
use lidofinance_lido_council.Shared.Int.{ℤ}
use lidofinance_lido_council.Shared.Text.{join}
use lidofinance_lido_council.Outcome.{Outcome, ok, bind, Exec, lift, modify, ◌>>=◌, ◌>>◌}
use lidofinance_lido_council.Chains.{Chains, get_message_topic_prefix}
use lidofinance_lido_council.Contracts.{Signature}

pub data MessageType : Type 0 where
  pause deposit ping : MessageType

-- `MessageRequiredFields`, without the type
pub record Sender : Type 0 where
  pub guardian_address : String
  pub guardian_index : ℤ

pub record SignedState : Type 0 where
  pub deposit_root : String
  pub nonce : ℕ
  pub block_number : ℕ
  pub block_hash : String
  pub signature : Signature
  pub staking_module_id : ℕ

pub record PingState : Type 0 where
  pub block_number : ℕ
  pub staking_module_ids : List ℕ

-- `MessageDeposit`, `MessagePause` and the ping: the type and the fields that go with it
pub data Body : Type 0 where
  deposit_body pause_body : SignedState → Body
  ping_body : PingState → Body

pub record MessageData : Type 0 where
  pub sender : Sender
  pub body : Body

pub record MessageApp : Type 0 where
  pub version : String
  pub name : String

-- `T & MessageMeta`
pub record Message : Type 0 where
  pub content : MessageData
  pub app : MessageApp

abbrev pub type_of : Body → MessageType
type_of (deposit_body _) = deposit
type_of (pause_body _) = pause
type_of (ping_body _) = ping

pub record Published : Type 0 where
  pub topic : String
  pub message : Message
  pub message_type : MessageType

pub record MessagesEnv : Type 0 where
  pub chains : Chains
  pub chain_id : Outcome ℕ
  pub broker_topic : String
  pub publish : Published → Outcome (Unit {0})

-- What the broker has taken, the oldest first, and the counter of sent messages.
pub record Broker : Type 0 where
  pub published : List Published
  pub sent_messages : ℕ

module _ (env : MessagesEnv) where
  -- `${prefix}-${topic}`
  unfoldable pub get_message_topic : Outcome String
  get_message_topic = bind env.chain_id λ id.
      bind (get_message_topic_prefix env.chains id)
        λ prefix. ok (join prefix (join "-" env.broker_topic))

  -- `transportService.publish`
  abbrev publish : Published → Exec Broker (Unit {0})
  publish p = do lift (env.publish p); modify (λ b. record b { published = b.published ++ p ∷ [] })

  abbrev count : Exec Broker (Unit {0})
  count = modify (λ b. record b { sent_messages = b.sent_messages + 1 })

  abbrev pub published_on : Message → String → Published
  published_on message topic = record {
    topic = topic;
    message = message;
    message_type = type_of message.content.body;
  }

  abbrev pub publish_and_count : Message → String → Exec Broker (Unit {0})
  publish_and_count message topic = do publish (published_on message topic); count

  unfoldable pub send_message : Message → Exec Broker (Unit {0})
  send_message message = lift get_message_topic >>= publish_and_count message
