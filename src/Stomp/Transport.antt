-- ===== src/Stomp/Transport.antt =====
-- src/transport/stomp/stomp.transport.ts: the transport of the guardian's messages over the client.
-- JSON is outside the daemon: `stringify` and `parse` are parameters.
use lidofinance_lido_council.Shared.{
  ℕ, ◌≡◌, ◌≢◌, refl, ap, ◌∙◌, true, false, ◌&&◌, Option, none, some, List, [], ◌∷◌, ◌++◌, map,
  arith,
}
use mathlib.Core.List.{map-append}
use lidofinance_lido_council.Stomp.Text.{Text, codes, text_eq, Lacks, All-append, strip}
use lidofinance_lido_council.Stomp.Frame.{
  Headers, Read, frame, failed, lf, colon, content_length, get_header, has_header, set_header,
  marshall, unmarshall_single,
}
use lidofinance_lido_council.Stomp.Frame.Lines.{Readable}
use lidofinance_lido_council.Stomp.Frame.RoundTrip.{with_length, unmarshall-marshall}
use lidofinance_lido_council.Stomp.State.{
  StompDependencies, StompClient, Effect, receive, send, subscribe, Event, request, disconnect,
  transmit, perform,
}
use lidofinance_lido_council.Stomp.Client.{on_request, handle, step, run}
use lidofinance_lido_council.Stomp.Client.Delivery.{
  message_event, message_frame, subscription_id, subscribe-on_message,
}

pub record Json (M : Type 0) : Type 0 where
  pub stringify : M → Text
  -- `JSON.parse`; `none` where it throws
  pub parse : Text → Option M

-- `/exchange/${topic}/${messageType}`
unfoldable pub destination : Text → Text → Text
destination topic message_type = codes "/exchange/" ++ (topic ++ (codes "/" ++ message_type))

abbrev pub called_with : {M : Type 0} → ℕ → Option M → Option (ℕ × M)
called_with cb none = none
called_with cb (some message) = some (cb, message)

module _ {M : Type 0} (json : Json M) where
  -- The calls of the client that the methods make
  unfoldable pub publish : Text → M → Text → Event
  unfolding destination
  publish topic message message_type =
      request (send (destination topic message_type) [] (json.stringify message))

  unfoldable pub subscribe_to : Text → Text → ℕ → Event
  unfolding destination
  subscribe_to topic message_type cb = request (subscribe (destination topic message_type) cb [])

  -- `(frame) => { cb(JSON.parse(frame.body)) }`: the callback and the message that it is called with,
  -- or none where the body is no JSON and the error leaves the handler
  unfoldable pub received : Effect → Option (ℕ × M)
  received (receive cb f _ _) = called_with cb (json.parse f.body)
  received _ = none

unfoldable pub disconnect_transport : Event
disconnect_transport = disconnect []

-- What the broker takes out of a frame that it was sent
abbrev pub body_of : Read → Text
body_of (frame f) = f.body
body_of (failed _) = []

abbrev pub destination_headers : Text → Text → Headers
destination_headers topic message_type =
    (codes "destination", some (destination topic message_type)) ∷ []

destination-Lacks :
    (sep : ℕ) (topic message_type : Text)
    → Lacks sep (codes "/exchange/")
    → Lacks sep (codes "/")
    → Lacks sep topic
    → Lacks sep message_type
    → Lacks sep (destination topic message_type)
unfolding destination
destination-Lacks sep topic message_type a b t m =
    All-append (λ c. c ≢ sep) (codes "/exchange/") (topic ++ (codes "/" ++ message_type)) a
      (All-append (λ c. c ≢ sep) topic (codes "/" ++ message_type) t
        (All-append (λ c. c ≢ sep) (codes "/") message_type b m))

destination_headers-Readable :
    (topic message_type : Text)
    → Lacks lf topic
    → Lacks lf message_type
    → Lacks colon topic
    → Lacks colon message_type
    → Readable [] (destination_headers topic message_type)
unfolding has_header
destination_headers-Readable topic message_type lt lm ct cm = (
  omega arith,
  omega arith,
  destination-Lacks lf topic message_type (omega arith) (omega arith) lt lm,
  destination-Lacks colon topic message_type (omega arith) (omega arith) ct cm,
  refl,
  tt,
)

strip-send : strip (codes "SEND") ≡ codes "SEND"
unfolding strip
strip-send = refl

module _ {M : Type 0} (json : Json M) (env : StompDependencies) where
  -- The frame of a message, as it is handed to the socket
  abbrev pub published : Text → M → Text → Text
  published topic message message_type =
      marshall (codes "SEND") (destination_headers topic message_type) (json.stringify message)

  publish_lem :
      (topic : Text) (message : M) (message_type : Text) (st : StompClient) (socket : ℕ)
      → st.opened && st.connected ≡ true
      → st.ws ≡ some socket
      → (step env (publish json topic message message_type) st).sent
        ≡ st.sent ++ (socket, published topic message message_type) ∷ []
  unfolding publish step handle on_request perform transmit set_header
  publish_lem topic message message_type st socket ready ws = rw (ready, ws) refl

  read-published :
      (topic : Text) (message : M) (message_type : Text)
      → Lacks lf topic
      → Lacks lf message_type
      → Lacks colon topic
      → Lacks colon message_type
      → Lacks lf (json.stringify message)
      → unmarshall_single (published topic message message_type)
        ≡ frame (record {
          command = codes "SEND";
          headers = with_length (destination_headers topic message_type) (json.stringify message);
          body = json.stringify message;
        })
  unfolding has_header text_eq
  read-published topic message message_type lt lm ct cm one_line =
      unmarshall-marshall (codes "SEND") (destination_headers topic message_type)
        (json.stringify message) (omega arith) strip-send
        (destination_headers-Readable topic message_type lt lm ct cm) refl one_line

  -- A message that one guardian publishes is given to the callback that another one has subscribed
  -- to its topic and type: the text handed to the publisher's socket, read, has a body that the
  -- broker passes on under the subscription's id, and the callback is called with the same message.
  -- Both clients are connected, the publisher's has a socket, the broker's headers can be read, name
  -- the id and no content length, the topic, the type and the message's text have no line feed, the
  -- first two no colon either, and the message is what parsing gives for its own text.
  pub publish-received :
      (topic : Text) (message : M) (message_type : Text) (cb socket : ℕ) (headers : Headers)
      (publisher subscriber : StompClient)
      → json.parse (json.stringify message) ≡ some message
      → Lacks lf topic
      → Lacks lf message_type
      → Lacks colon topic
      → Lacks colon message_type
      → Lacks lf (json.stringify message)
      → publisher.opened && publisher.connected ≡ true
      → publisher.ws ≡ some socket
      → subscriber.opened && subscriber.connected ≡ true
      → Readable [] headers
      → has_header content_length headers ≡ false
      → get_header (codes "subscription") headers ≡ some (subscription_id subscriber.counter)
      → (text : Text) × ((step env (publish json topic message message_type) publisher).sent
          ≡ publisher.sent ++ (socket, text) ∷ [])
        × (map
              (received json)
              (run env
                (subscribe_to json topic message_type cb
                  ∷ message_event env headers (body_of (unmarshall_single text))
                  ∷ [])
                subscriber).effects
            ≡ map (received json) subscriber.effects ++ some (cb, message) ∷ [])
  unfolding subscribe_to received
  publish-received topic message message_type cb socket headers publisher subscriber law lt lm ct cm
        one_line ready ws ready' readable fresh h =
      (
        published topic message message_type,
        publish_lem topic message message_type publisher socket ready ws,
        received_once,
      )
    where
      events : Text → List Event
      events body = subscribe_to json topic message_type cb ∷ message_event env headers body ∷ []

      received_once :
          map
            (received json)
            (run env
              (events (body_of (unmarshall_single (published topic message message_type))))
              subscriber).effects
          ≡ map (received json) subscriber.effects ++ some (cb, message) ∷ []
      received_once =
          ap (λ r. map (received json) (run env (events (body_of r)) subscriber).effects)
            (read-published topic message message_type lt lm ct cm one_line)
          ∙ ap (map (received json)) (
              subscribe-on_message env (destination topic message_type) cb headers
                (json.stringify message) subscriber ready' readable fresh one_line h)
          ∙ map-append (received json) subscriber.effects (
              receive cb (message_frame headers (json.stringify message))
                (get_header (codes "message-id") (with_length headers (json.stringify message)))
                (some (subscription_id subscriber.counter))
              ∷ [])
          ∙ ap (λ o. map (received json) subscriber.effects ++ called_with cb o ∷ []) law
