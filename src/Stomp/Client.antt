-- ===== src/Stomp/Client.antt =====
-- src/transport/stomp/stomp.client.ts: the client as a machine that takes one event at a time. The
-- events are the calls of its methods, those of its sockets, and what its own awaits end with. The
-- sockets and the timers are outside: `socket_fault n` says whether making the socket number n throws.
pub mod Limits
pub mod Attempts
pub mod Settling
pub mod Sending
pub mod Delivery
use lidofinance_lido_council.Shared.{
  ℕ, suc, ◌+◌, String, Bool, true, false, ◌&&◌, ◌||◌, not, Option, none, some, List, [], ◌∷◌, ◌++◌,
  ltb, leb, ◌==◌, if◌then◌else◌,
}
use lidofinance_lido_council.Stomp.Text.{Text, codes, text_eq, digits}
use lidofinance_lido_council.Stomp.Frame.{
  Headers, StompFrame, Read, frame, failed, empty_frame, type_error, set_header, get_header,
  has_header, shown, marshall, unmarshall_single,
}
use lidofinance_lido_council.Stomp.State.{
  Connection, Effect, Event, Request, StompClient, StompDependencies, StompOptions, absent,
  acknowledged, broken, clean_up, close, connect, connect_callback, connect_sent,
  delete_subscription, disconnect, disconnect_sent, error_callback, find_subscription, hand,
  new_client, next_counter, on_close, on_error, on_message, on_open, opening, perform, perform_all,
  receive, request, send, set_subscription, sleeping, subscribe, thrown, tick, transmit,
  transmitting, unsubscribe, wake, with_destination, with_id,
}

module _ (env : StompDependencies) where
  -- `webSocketConnectTimeout = 10_000`
  abbrev pub connect_timeout : ℕ
  connect_timeout = elim env.options.web_socket_connect_timeout [
    | none ↦ 10000
    | some timeout ↦ timeout
  ]

  abbrev session_text : Text
  session_text = digits env.options.max_wait_socket_session

  abbrev optional_header : String → Option Text → Headers → Headers
  optional_header key none headers = headers
  optional_header key (some value) headers = set_header (codes key) (some value) headers

  unfoldable pub connect_headers : Headers
  connect_headers = optional_header "passcode" env.passcode (
      optional_header "login" env.login (
        (codes "host", some (codes "/"))
        ∷ (codes "accept-version", some (codes "1.0,1.1"))
        ∷ (codes "heart-beat", some (session_text ++ (codes "," ++ session_text)))
        ∷ []))

  -- The promise is fulfilled: the calls that waited go on.
  unfoldable pub fulfil : StompClient → StompClient
  unfolding perform_all
  fulfil st = perform_all st.waiting (record st { connection = absent; waiting = [] })

  -- The promise is rejected, and with it the calls that wait.
  unfoldable pub reject : Connection → StompClient → StompClient
  reject left st = record st {
    connection = left;
    waiting = [];
    rejected = st.rejected ++ st.waiting;
  }

  -- The catch block of `connectWithRetry`; `left` is what `connectionPromise` holds after the last
  -- attempt.
  unfoldable pub attempt_failed : Connection → ℕ → StompClient → StompClient
  unfolding reject clean_up
  attempt_failed left attempt st =
      if leb env.options.reconnect_attempts attempt
      then reject left st
      else record (clean_up st) { connection = sleeping (suc attempt) }

  unfoldable pub transmit_connect : ℕ → StompClient → StompClient
  unfolding transmit connect_headers
  transmit_connect attempt st = record (transmit "CONNECT" connect_headers [] st) {
    connection = transmitting attempt;
  }

  -- `connectWithRetry` up to its first await
  unfoldable pub begin_attempt : Connection → ℕ → StompClient → StompClient
  unfolding attempt_failed transmit_connect
  begin_attempt left attempt st =
      if env.socket_fault st.sockets
      then attempt_failed left attempt (record st { sockets = suc st.sockets })
      else (let made = record st { ws = some st.sockets; sockets = suc st.sockets } in
          if st.opened
          then transmit_connect attempt made
          else record made { connection = opening attempt 0 })

  -- The first attempt. Where it throws before its first await, the assignment of its promise comes
  -- after `connectionPromise = null`.
  unfoldable pub connect_with_retry : StompClient → StompClient
  unfolding begin_attempt
  connect_with_retry = begin_attempt broken 1

  unfoldable pub reconnect : StompClient → StompClient
  unfolding connect_with_retry clean_up
  reconnect st = connect_with_retry (clean_up st)

  -- One round of the loop of `waitWsConnection`
  unfoldable pub wait_round : ℕ → ℕ → StompClient → StompClient
  unfolding attempt_failed transmit_connect
  wait_round attempt passed st =
      if ltb connect_timeout (passed + 250)
      then attempt_failed absent attempt st
      else if st.opened
      then transmit_connect attempt st
      else record st { connection = opening attempt (passed + 250) }

  -- A request that finds the client not ready waits for the connection that is under way, or for a
  -- new one.
  unfoldable pub on_request : Request → Connection → StompClient → StompClient
  unfolding reconnect perform
  on_request r connection st = if st.opened && st.connected then perform r st else elim connection [
    | absent ↦ reconnect (record st { waiting = st.waiting ++ r ∷ [] })
    | broken ↦ record st { rejected = st.rejected ++ r ∷ [] }
    | other ↦ record st { waiting = st.waiting ++ r ∷ [] }
  ]

  abbrev pub add_effect : Effect → StompClient → StompClient
  add_effect effect st = record st { effects = st.effects ++ effect ∷ [] }

  abbrev pub deliver : Option ℕ → StompFrame → StompClient → StompClient
  deliver none f st = st
  deliver (some callback) f st =
      add_effect
        (receive callback f (get_header (codes "message-id") f.headers)
          (get_header (codes "subscription") f.headers))
        st

  unfoldable pub dispatch : StompFrame → StompClient → StompClient
  unfolding find_subscription
  dispatch f st =
      if text_eq f.command (codes "CONNECTED")
      then add_effect (connect_callback f) (record st { connected = true })
      else if text_eq f.command (codes "MESSAGE")
      then deliver
          (find_subscription (shown (get_header (codes "subscription") f.headers)) st.subscriptions)
          f st
      else if text_eq f.command (codes "ERROR")
      then add_effect (error_callback f) st
      else st

  unfoldable pub on_frame : Read → StompClient → StompClient
  unfolding dispatch
  on_frame (frame f) st = dispatch f st
  on_frame (failed empty_frame) st = st
  on_frame (failed type_error) st = add_effect thrown st

  unfoldable pub closed_by_peer : ℕ → StompClient → StompClient
  unfolding reconnect clean_up
  closed_by_peer code st = if code == 1000 then clean_up st else reconnect (clean_up st)

  unfoldable pub acknowledge :
      Bool → Option Text → Option Text → Headers → StompClient → StompClient
  unfolding transmit
  acknowledge ack message_id subscription headers =
      transmit (if ack then "ACK" else "NACK")
        (set_header (codes "subscription") subscription
          (set_header (codes "message-id") message_id headers))
        []

  abbrev unsubscribe_from : Text → StompClient → StompClient
  unsubscribe_from id st =
      transmit "UNSUBSCRIBE" ((codes "id", some id) ∷ []) []
        (record st { subscriptions = delete_subscription id st.subscriptions })

  -- `disconnect` up to its await
  abbrev send_disconnect : Headers → StompClient → StompClient
  send_disconnect headers st = transmit "DISCONNECT" headers [] st

  -- One event; what depends on the connection is matched on it.
  unfoldable pub handle : Event → Connection → StompClient → StompClient
  unfolding fulfil attempt_failed begin_attempt connect_with_retry reconnect wait_round on_request
      on_frame closed_by_peer acknowledge clean_up transmit delete_subscription unmarshall_single
  handle on_open _ st = record st { opened = true }
  handle (on_message text) _ st = on_frame (unmarshall_single text) st
  handle (on_close code) absent st = closed_by_peer code st
  handle (on_close code) _ st = st
  handle on_error absent st = reconnect st
  handle on_error _ st = st
  handle tick (opening attempt passed) st = wait_round attempt passed st
  handle tick _ st = st
  handle wake (sleeping attempt) st = begin_attempt absent attempt st
  handle wake _ st = st
  handle (connect_sent sent) (transmitting attempt) st =
      if sent then fulfil st else attempt_failed absent attempt st
  handle (connect_sent sent) _ st = st
  handle connect absent st = connect_with_retry st
  handle connect _ st = st
  handle (request r) connection st = on_request r connection st
  handle (unsubscribe id) _ st = unsubscribe_from id st
  handle (disconnect headers) _ st = send_disconnect headers st
  handle (disconnect_sent sent) _ st = if sent then clean_up st else st
  handle (acknowledged ack message_id subscription headers) _ st =
      acknowledge ack message_id subscription headers st

  unfoldable pub step : Event → StompClient → StompClient
  unfolding handle
  step event st = handle event st.connection st

  unfoldable pub run : List Event → StompClient → StompClient
  unfolding step
  run [] st = st
  run (event ∷ events) st = run events (step event st)
