-- ===== src/Kafka.antt =====
-- src/transport/kafka/kafka.transport.ts: the transport over Kafka. The Kafka client is outside the
-- daemon: what its promises end with is an argument of each call, with the events that it emits.
pub mod Consumers
use lidofinance_lido_council.Shared.{
  ℕ, ◌+◌, String, Bool, true, false, Option, none, some, List, [], ◌∷◌, ◌++◌, str_eq, if◌then◌else◌,
}
use lidofinance_lido_council.Outcome.{Failure, Outcome, ok, throw, exit, pending}

-- 'producer.connect' and 'producer.disconnect'
pub data ProducerEvent : Type 0 where
  producer_connect producer_disconnect : ProducerEvent

-- A consumer of `this.consumers`: the callback of its `eachMessage` once it runs
pub record Consumer : Type 0 where
  pub topic : String
  pub each_message : Option ℕ

pub record KafkaTransport : Type 0 where
  pub consumers : List Consumer
  pub producer_connected : Bool
  -- the topics and values that were handed to the producer
  pub sent : List (String × String)

-- What the promises of the producer and of a consumer end with
pub record Client : Type 0 where
  pub producer_connect_result : Outcome (Unit {0})
  pub producer_events : List ProducerEvent
  pub producer_send : Outcome (Unit {0})
  pub producer_disconnect_result : Outcome (Unit {0})
  pub disconnect_events : List ProducerEvent
  pub consumers_disconnect : Outcome (Unit {0})
  pub consumer_connect : Outcome (Unit {0})
  pub consumer_subscribe : Outcome (Unit {0})
  pub consumer_run : Outcome (Unit {0})

abbrev pub new_transport : KafkaTransport
new_transport = record { consumers = []; producer_connected = false; sent = [] }

abbrev on_event : ProducerEvent → KafkaTransport → KafkaTransport
on_event producer_connect s = record s { producer_connected = true }
on_event producer_disconnect s = record s { producer_connected = false }

unfoldable pub on_events : List ProducerEvent → KafkaTransport → KafkaTransport
on_events [] s = s
on_events (e ∷ es) s = on_events es (on_event e s)

-- Goes on with the next call where this one succeeded.
abbrev pub then_do :
    Outcome (Unit {0})
    → (KafkaTransport → Outcome (Unit {0}) × KafkaTransport)
    → KafkaTransport
    → Outcome (Unit {0}) × KafkaTransport
then_do (ok _) next s = next s
then_do (throw e) next s = (throw e, s)
then_do exit next s = (exit, s)
then_do pending next s = (pending, s)

abbrev pub done : KafkaTransport → Outcome (Unit {0}) × KafkaTransport
done s = (ok tt, s)

-- `this.consumers[topic]`
unfoldable pub find_consumer : String → List Consumer → Option Consumer
find_consumer topic [] = none
find_consumer topic (c ∷ cs) = if str_eq c.topic topic then some c else find_consumer topic cs

unfoldable pub run_consumer : String → ℕ → List Consumer → List Consumer
run_consumer topic cb [] = []
run_consumer topic cb (c ∷ cs) =
    (if str_eq c.topic topic then record c { each_message = some cb } else c)
    ∷ run_consumer topic cb cs

module _ (client : Client) where
  abbrev connect_producer : KafkaTransport → KafkaTransport
  connect_producer = on_events client.producer_events

  -- An error of the connection is logged.
  unfoldable pub on_module_init : KafkaTransport → KafkaTransport
  unfolding on_events
  on_module_init = connect_producer

  abbrev send_to : String → String → KafkaTransport → Outcome (Unit {0}) × KafkaTransport
  send_to topic value s =
      then_do client.producer_send done (record s { sent = s.sent ++ (topic, value) ∷ [] })

  -- `value` is the JSON of the message.
  unfoldable pub publish : String → String → KafkaTransport → Outcome (Unit {0}) × KafkaTransport
  unfolding on_events
  publish topic value s =
      if s.producer_connected
      then send_to topic value s
      else then_do client.producer_connect_result (send_to topic value) (connect_producer s)

  abbrev pub start_consumer : String → ℕ → KafkaTransport → Outcome (Unit {0}) × KafkaTransport
  start_consumer topic cb s =
      then_do client.consumer_connect
        (then_do client.consumer_subscribe (
          then_do client.consumer_run
            (λ s. done (record s { consumers = run_consumer topic cb s.consumers }))))
        (record s { consumers = s.consumers ++ record { topic = topic; each_message = none } ∷ [] })

  abbrev pub unless_found :
      Option Consumer → String → ℕ → KafkaTransport → Outcome (Unit {0}) × KafkaTransport
  unless_found (some _) topic cb s = done s
  unless_found none topic cb s = start_consumer topic cb s

  -- The type of the messages plays no part.
  unfoldable pub subscribe : String → ℕ → KafkaTransport → Outcome (Unit {0}) × KafkaTransport
  unfolding find_consumer run_consumer
  subscribe topic cb s = unless_found (find_consumer topic s.consumers) topic cb s

-- `disconnect`; the consumers are disconnected side by side.
unfoldable pub disconnect_transport : Client → KafkaTransport → Outcome (Unit {0}) × KafkaTransport
unfolding on_events
disconnect_transport client s =
    then_do client.producer_disconnect_result (then_do client.consumers_disconnect done)
      (on_events client.disconnect_events s)

-- The callback of a message: `parse` is `JSON.parse`, where `none` is an error, and `truthy` the
-- test of the data. A message with no value is parsed as an empty text.
module _ {M : Type 0} (parse : String → Option M) (truthy : M → Bool) where
  abbrev with_data : ℕ → Option M → Option (ℕ × M)
  with_data cb none = none
  with_data cb (some m) = if truthy m then some (cb, m) else none

  abbrev or_empty : Option String → String
  or_empty none = ""
  or_empty (some value) = value

  abbrev handled_by : Option Consumer → Option String → Option (ℕ × M)
  handled_by none value = none
  handled_by (some c) value = elim c.each_message [
    | none ↦ none
    | some cb ↦ with_data cb (parse (or_empty value))
  ]

  unfoldable pub receive : String → Option String → KafkaTransport → Option (ℕ × M)
  unfolding find_consumer
  receive topic value s = handled_by (find_consumer topic s.consumers) value
