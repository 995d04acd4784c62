-- ===== src/Stomp/Client/Delivery.antt =====
-- src/transport/stomp/stomp.client.ts: the messages of a subscription.
use lidofinance_lido_council.Shared.{
  ℕ, ◌≡◌, refl, ap, ◌∙◌, true, false, ◌&&◌, none, some, List, [], ◌∷◌, ◌++◌, length, arith,
}
use lidofinance_lido_council.Stomp.Text.{Text, codes, text_eq, text_eq_iff, strip, digits, Lacks}
use lidofinance_lido_council.Stomp.Frame.{
  Headers, StompFrame, lf, content_length, get_header, has_header, set_header, marshall,
}
use lidofinance_lido_council.Stomp.Frame.Lines.{Readable}
use lidofinance_lido_council.Stomp.Frame.RoundTrip.{with_length, unmarshall-marshall}
use lidofinance_lido_council.Stomp.State.{
  StompDependencies, StompClient, receive, subscribe, Event, on_message, request, unsubscribe,
  find_subscription, set_subscription, delete_subscription, with_id, next_counter, perform,
  transmit,
}
use lidofinance_lido_council.Stomp.Client.{
  deliver, dispatch, on_frame, on_request, handle, step, run,
}

text_eq-same : (s : Text) → text_eq s s ≡ true
text_eq-same s = (text_eq_iff s s).1 refl

find_subscription-set :
    (id : Text) (callback : ℕ) (subscriptions : List (Text × ℕ))
    → find_subscription id (set_subscription id callback subscriptions) ≡ some callback
unfolding find_subscription set_subscription
find_subscription-set id callback [] = rw (text_eq-same id) refl
find_subscription-set id callback ((key, old) ∷ subscriptions) =
    ground (arith, find_subscription-set id callback subscriptions)

find_subscription-delete :
    (id : Text) (subscriptions : List (Text × ℕ))
    → find_subscription id (delete_subscription id subscriptions) ≡ none
unfolding find_subscription delete_subscription
find_subscription-delete id [] = refl
find_subscription-delete id ((key, old) ∷ subscriptions) =
    ground (arith, find_subscription-delete id subscriptions)

get_header-append :
    (key value : Text) (headers more : Headers)
    → get_header key headers ≡ some value
    → get_header key (headers ++ more) ≡ some value
unfolding get_header
get_header-append key value [] more h = cc
get_header-append key value ((k, v) ∷ headers) more h =
    ground (arith, get_header-append key value headers more)

-- The id that `subscribe` makes
abbrev pub subscription_id : ℕ → Text
subscription_id counter = codes "sub-" ++ digits counter

-- A frame as the handler of the messages reads it
abbrev pub message_frame : Headers → Text → StompFrame
message_frame headers body = record {
  command = codes "MESSAGE";
  headers = with_length headers body;
  body = body;
}

strip-message : strip (codes "MESSAGE") ≡ codes "MESSAGE"
unfolding strip
strip-message = refl

module _ (env : StompDependencies) where
  dispatch-message :
      (headers : Headers) (body id : Text) (st : StompClient)
      → get_header (codes "subscription") headers ≡ some id
      → dispatch env (message_frame headers body) st
        ≡ deliver env (find_subscription id st.subscriptions) (message_frame headers body) st
  unfolding dispatch text_eq
  dispatch-message headers body id st h =
      rw
        (get_header-append (codes "subscription") id headers
          ((content_length, some (digits (length body))) ∷ []) h)
        refl

  -- The broker's message, as the client gets it
  abbrev pub message_event : Headers → Text → Event
  message_event headers body = on_message (marshall (codes "MESSAGE") headers body)

  step-message :
      (headers : Headers) (body id : Text) (st : StompClient)
      → Readable [] headers
      → has_header content_length headers ≡ false
      → Lacks lf body
      → get_header (codes "subscription") headers ≡ some id
      → step env (message_event headers body) st
        ≡ deliver env (find_subscription id st.subscriptions) (message_frame headers body) st
  unfolding step handle on_frame
  step-message headers body id st readable fresh one_line h =
      ap (λ r. on_frame env r st)
        (unmarshall-marshall (codes "MESSAGE") headers body (omega arith) strip-message readable
          fresh one_line)
      ∙ dispatch-message headers body id st h

  abbrev pub subscribed : Text → ℕ → StompClient → StompClient
  subscribed destination callback = step env (request (subscribe destination callback []))

  subscribed-table :
      (destination : Text) (callback : ℕ) (st : StompClient)
      → st.opened && st.connected ≡ true
      → ((subscribed destination callback st).subscriptions
          ≡ set_subscription (subscription_id st.counter) callback st.subscriptions)
        × ((subscribed destination callback st).effects ≡ st.effects)
  unfolding step handle on_request perform with_id next_counter transmit has_header set_header
      get_header text_eq
  subscribed-table destination callback st ready = rw ready (refl, refl)

  -- A message of the broker with the id that `subscribe` has just made is handed to the callback of
  -- that call, once, with the message's headers and body: for a connected client, a message whose
  -- headers can be read and name the id and no content length, and a body with no line feed.
  pub subscribe-on_message :
      (destination : Text) (callback : ℕ) (headers : Headers) (body : Text) (st : StompClient)
      → st.opened && st.connected ≡ true
      → Readable [] headers
      → has_header content_length headers ≡ false
      → Lacks lf body
      → get_header (codes "subscription") headers ≡ some (subscription_id st.counter)
      → (run env
          (request (subscribe destination callback []) ∷ message_event headers body ∷ [])
          st).effects
        ≡ st.effects
          ++ receive callback
              (message_frame headers body)
              (get_header (codes "message-id") (with_length headers body))
              (some (subscription_id st.counter))
            ∷ []
  unfolding run
  subscribe-on_message destination callback headers body st ready readable fresh one_line h =
      let id = subscription_id st.counter in
      let now = subscribed destination callback st in
      let (table, effects) = subscribed-table destination callback st ready in
      let found : find_subscription id now.subscriptions ≡ some callback =
        ap (find_subscription id) table ∙ find_subscription-set id callback st.subscriptions in
      ap (λ (s : StompClient). s.effects)
        (step-message headers body id now readable fresh one_line h
          ∙ ap (λ o. deliver env o (message_frame headers body) now) found)
      ∙ ap
          (λ es.
            es
            ++ receive callback (message_frame headers body)
                (get_header (codes "message-id") (with_length headers body))
                (get_header (codes "subscription") (with_length headers body))
              ∷ [])
          effects
      ∙ ap
          (λ s.
            st.effects
            ++ receive callback (message_frame headers body)
                (get_header (codes "message-id") (with_length headers body)) s
              ∷ [])
          (get_header-append (codes "subscription") id headers
            ((content_length, some (digits (length body))) ∷ []) h)

  -- Once `unsubscribe` was called, a message with that id calls nothing back and changes nothing,
  -- for a message whose headers can be read and name the id and no content length, and a body with
  -- no line feed.
  pub unsubscribe-on_message :
      (id : Text) (headers : Headers) (body : Text) (st : StompClient)
      → Readable [] headers
      → has_header content_length headers ≡ false
      → Lacks lf body
      → get_header (codes "subscription") headers ≡ some id
      → run env (unsubscribe id ∷ message_event headers body ∷ []) st ≡ step env (unsubscribe id) st
  unfolding run step handle transmit
  unsubscribe-on_message id headers body st readable fresh one_line h =
      let now = step env (unsubscribe id) st in
      step-message headers body id now readable fresh one_line h
      ∙ ap (λ o. deliver env o (message_frame headers body) now)
          (find_subscription-delete id st.subscriptions)
