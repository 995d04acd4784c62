-- ===== src/Kafka/Consumers.antt =====
-- src/transport/kafka/kafka.transport.ts: which callback a topic's messages go to.
use lidofinance_lido_council.Shared.{
  ℕ, ◌≡◌, ◌≢◌, ◌⊎◌, inl, inr, refl, ap, String, none, some, List, [], ◌∷◌, ◌++◌, eq_iff, arith,
}
use lidofinance_lido_council.Outcome.{Outcome, ok, throw, exit, pending}
use lidofinance_lido_council.Kafka.{
  Consumer, KafkaTransport, Client, then_do, done, find_consumer, run_consumer, unless_found,
  subscribe,
}

abbrev pub new_consumer : String → Consumer
new_consumer topic = record { topic = topic; each_message = none }

find_consumer-new :
    (topic : String) (cs : List Consumer)
    → find_consumer topic cs ≡ none
    → find_consumer topic (cs ++ new_consumer topic ∷ []) ≡ some (new_consumer topic)
unfolding find_consumer
find_consumer-new topic [] h = rw ((eq_iff topic topic).1 refl) refl
find_consumer-new topic (c ∷ cs) h = ground (arith, find_consumer-new topic cs)

find_consumer-run :
    (topic : String) (cb : ℕ) (cs : List Consumer) (c : Consumer)
    → find_consumer topic cs ≡ some c
    → find_consumer topic (run_consumer topic cb cs) ≡ some (record c { each_message = some cb })
unfolding find_consumer run_consumer
find_consumer-run topic cb [] c h = cc
find_consumer-run topic cb (d ∷ cs) c h = ground (arith, find_consumer-run topic cb cs c)

abbrev started :
    Outcome (Unit {0})
    → Outcome (Unit {0})
    → Outcome (Unit {0})
    → String
    → ℕ
    → KafkaTransport
    → Outcome (Unit {0}) × KafkaTransport
started connect subscribe run topic cb s =
    then_do connect
      (then_do subscribe
        (then_do run (λ s. done (record s { consumers = run_consumer topic cb s.consumers }))))
      (record s { consumers = s.consumers ++ new_consumer topic ∷ [] })

-- A consumer that runs the callback exactly if the call succeeded, and else none
abbrev pub Registered : String → ℕ → Outcome (Unit {0}) × KafkaTransport → Type 0
Registered topic cb (result, s) =
    (c : Consumer) × (find_consumer topic s.consumers ≡ some c)
    × (((result ≡ ok tt) × (c.each_message ≡ some cb))
        ⊎ ((result ≢ ok tt) × (c.each_message ≡ none)))

started-Registered :
    (connect subscribe run : Outcome (Unit {0})) (topic : String) (cb : ℕ) (s : KafkaTransport)
    → find_consumer topic s.consumers ≡ none
    → Registered topic cb (started connect subscribe run topic cb s)
started-Registered (ok _) (ok _) (ok _) topic cb s fresh = (
  record (new_consumer topic) { each_message = some cb },
  find_consumer-run topic cb (s.consumers ++ new_consumer topic ∷ []) (new_consumer topic)
      (find_consumer-new topic s.consumers fresh),
  inl (refl, refl),
)
started-Registered (ok _) (ok _) (throw _) topic cb s fresh =
    (new_consumer topic, find_consumer-new topic s.consumers fresh, inr ((λ e. cc), refl))
started-Registered (ok _) (ok _) exit topic cb s fresh =
    (new_consumer topic, find_consumer-new topic s.consumers fresh, inr ((λ e. cc), refl))
started-Registered (ok _) (ok _) pending topic cb s fresh =
    (new_consumer topic, find_consumer-new topic s.consumers fresh, inr ((λ e. cc), refl))
started-Registered (ok _) (throw _) _ topic cb s fresh =
    (new_consumer topic, find_consumer-new topic s.consumers fresh, inr ((λ e. cc), refl))
started-Registered (ok _) exit _ topic cb s fresh =
    (new_consumer topic, find_consumer-new topic s.consumers fresh, inr ((λ e. cc), refl))
started-Registered (ok _) pending _ topic cb s fresh =
    (new_consumer topic, find_consumer-new topic s.consumers fresh, inr ((λ e. cc), refl))
started-Registered (throw _) _ _ topic cb s fresh =
    (new_consumer topic, find_consumer-new topic s.consumers fresh, inr ((λ e. cc), refl))
started-Registered exit _ _ topic cb s fresh =
    (new_consumer topic, find_consumer-new topic s.consumers fresh, inr ((λ e. cc), refl))
started-Registered pending _ _ topic cb s fresh =
    (new_consumer topic, find_consumer-new topic s.consumers fresh, inr ((λ e. cc), refl))

first_subscribe :
    (client : Client) (topic : String) (cb : ℕ) (s : KafkaTransport)
    → find_consumer topic s.consumers ≡ none
    → Registered topic cb (subscribe client topic cb s)
unfolding subscribe
first_subscribe client topic cb s fresh = rw fresh (
    started-Registered client.consumer_connect client.consumer_subscribe client.consumer_run topic
      cb s fresh)

subscribe-found :
    (client : Client) (topic : String) (cb : ℕ) (s : KafkaTransport) (c : Consumer)
    → find_consumer topic s.consumers ≡ some c
    → subscribe client topic cb s ≡ (ok tt, s)
unfolding subscribe
subscribe-found client topic cb s c found = ap (λ o. unless_found client o topic cb s) found

-- A topic is subscribed to once. After the first call for it there is a consumer for it, that runs
-- the callback if the call succeeded and none at all if it failed; and any later call for the topic
-- succeeds and changes nothing, so that its callback is never called.
pub second_subscribe :
    (client client' : Client) (topic : String) (cb cb' : ℕ) (s : KafkaTransport)
    → find_consumer topic s.consumers ≡ none
    → Registered topic cb (subscribe client topic cb s)
      × (subscribe client' topic cb' (subscribe client topic cb s).1
          ≡ (ok tt, (subscribe client topic cb s).1))
second_subscribe client client' topic cb cb' s fresh =
    let first = first_subscribe client topic cb s fresh in
    let (c, found, _) = first in
    (first, subscribe-found client' topic cb' (subscribe client topic cb s).1 c found)
