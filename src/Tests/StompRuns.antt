-- ===== src/Tests/StompRuns.antt =====
-- The theorems on src/transport/stomp/ at concrete runs.
use lidofinance_lido_council.Shared.{
  ◌≡◌, refl, true, false, none, some, List, [], ◌∷◌, ◌++◌, map, arith,
}
use lidofinance_lido_council.Stomp.Text.{Text, codes, text_eq, strip, digits, slice_last}
use lidofinance_lido_council.Stomp.Frame.{
  Headers, frame, get_header, has_header, marshall, unmarshall_single,
}
use lidofinance_lido_council.Stomp.Frame.Lines.{Readable}
use lidofinance_lido_council.Stomp.Frame.RoundTrip.{
  with_length, unmarshall-marshall, unmarshall-marshall_lines,
}
use lidofinance_lido_council.Stomp.State.{
  StompDependencies, StompClient, Request, send, subscribe, Event, on_open, on_close, on_error,
  tick, wake, connect_sent, request, opening, receive, new_client, perform, perform_all,
}
use lidofinance_lido_council.Stomp.Client.{connect_headers, run, step}
use lidofinance_lido_council.Stomp.Client.Limits.{IsValid}
use lidofinance_lido_council.Stomp.Client.Attempts.{run-IsValid}
use lidofinance_lido_council.Stomp.Client.Settling.{
  Round, AllOther, AllRounds, is_pending, await_connection, await_connection_settles,
}
use lidofinance_lido_council.Stomp.Client.Sending.{
  opens_after, reopened, reopening, requests_performed, reconnection_renews_nothing,
  early_request_reconnects,
}
use lidofinance_lido_council.Stomp.Client.Delivery.{
  message_event, message_frame, subscription_id, subscribe-on_message,
}
use lidofinance_lido_council.Stomp.Transport.{
  Json, publish, subscribe_to, received, body_of, publish-received,
}

abbrev deps : StompDependencies
deps = record {
  login = some (codes "guest");
  passcode = none;
  options = record {
    reconnect_timeout = 5_000;
    reconnect_attempts = 2;
    max_wait_socket_session = 100_000;
    web_socket_connect_timeout = some 1_000;
  };
  socket_fault = λ n. false;
}

abbrev ping_headers : Headers
ping_headers = (codes "destination", some (codes "/exchange/t/ping")) ∷ []

abbrev ping : Text
ping = codes "{\"type\":\"ping\"}"

unmarshall-marshall_example :
    unmarshall_single (marshall (codes "SEND") ping_headers ping)
    ≡ frame
        (record { command = codes "SEND"; headers = with_length ping_headers ping; body = ping })
unfolding strip has_header text_eq
unmarshall-marshall_example =
    unmarshall-marshall (codes "SEND") ping_headers ping (omega arith) refl
      (omega arith, omega arith, omega arith, omega arith, refl, tt) refl (omega arith)

unmarshall-marshall_lines_example :
    unmarshall_single (marshall (codes "ERROR") [] (codes "first" ++ (10 ∷ codes "second")))
    ≡ frame (record {
      command = codes "ERROR";
      headers = with_length [] (codes "first" ++ (10 ∷ codes "second"));
      body = codes "firs";
    })
unfolding strip has_header text_eq slice_last
unmarshall-marshall_lines_example =
    unmarshall-marshall_lines (codes "ERROR") [] (codes "first") (codes "second") (omega arith) tt
      refl (omega arith) (λ e. cc)

-- The first socket does not open in time, the second one does.
abbrev late_socket : List Event
late_socket =
    request (send (codes "/exchange/t/ping") [] ping)
    ∷ tick
    ∷ tick
    ∷ on_close 1006
    ∷ tick
    ∷ tick
    ∷ tick
    ∷ wake
    ∷ on_open
    ∷ tick
    ∷ connect_sent true
    ∷ []

new_client-IsValid : IsValid deps new_client
new_client-IsValid = record { within_limits = tt; attended = refl }

run-IsValid_example : IsValid deps (run deps late_socket new_client)
run-IsValid_example = run-IsValid deps late_socket new_client new_client-IsValid

abbrev last_attempt : StompClient
last_attempt = record new_client { connection = opening 2 0; ws = some 1; sockets = 2 }

abbrev silent : Round
silent = (on_error ∷ on_close 1006 ∷ [], false)

abbrev seven : List Round
seven = silent ∷ silent ∷ silent ∷ silent ∷ silent ∷ silent ∷ silent ∷ []

silent-AllOther : AllOther (on_error ∷ on_close 1006 ∷ [])
silent-AllOther = (refl, (refl, tt))

seven_silent : AllRounds seven
seven_silent = (
  silent-AllOther,
  (
    silent-AllOther,
    (
      silent-AllOther,
      (silent-AllOther, (silent-AllOther, (silent-AllOther, (silent-AllOther, tt)))),
    ),
  ),
)

await_connection_settles_example :
    is_pending (await_connection deps seven last_attempt).connection ≡ false
await_connection_settles_example =
    await_connection_settles deps seven last_attempt seven_silent (omega arith)

abbrev first_send : Request
first_send = send (codes "/exchange/t/ping") [] ping

abbrev then_subscribe : Request
then_subscribe = subscribe (codes "/exchange/t/ping") 3 []

requests_performed_example :
    run deps (map request (first_send ∷ then_subscribe ∷ []) ++ opens_after 1) new_client
    ≡ perform_all (first_send ∷ then_subscribe ∷ []) (reopened deps new_client)
requests_performed_example =
    requests_performed deps new_client first_send (then_subscribe ∷ []) 1 refl refl refl refl
      (omega arith)

abbrev subscribed_client : StompClient
subscribed_client = record new_client {
  opened = true;
  connected = true;
  ws = some 0;
  sockets = 1;
  subscriptions = (codes "sub-0", 3) ∷ [];
}

reconnection_renews_nothing_example :
    ((run deps (on_close 1006 ∷ opens_after 1) subscribed_client).subscriptions
      ≡ (codes "sub-0", 3) ∷ [])
    × ((run deps (on_close 1006 ∷ opens_after 1) subscribed_client).sent
        ≡ (1, marshall (codes "CONNECT") (connect_headers deps) []) ∷ [])
reconnection_renews_nothing_example =
    reconnection_renews_nothing deps subscribed_client 1006 1 (λ e. absurd (omega arith)) refl refl
      refl (omega arith)

early_request_reconnects_example :
    run deps ((request first_send ∷ opens_after 1) ++ request first_send ∷ []) new_client
    ≡ reopening deps (perform first_send (reopened deps new_client)) (first_send ∷ []) 0
early_request_reconnects_example =
    early_request_reconnects deps new_client first_send first_send 1 refl refl refl refl refl
      (omega arith)

abbrev connected_client : StompClient
connected_client = record new_client { opened = true; connected = true; ws = some 0; sockets = 1 }

abbrev message_headers : Headers
message_headers =
    (codes "subscription", some (codes "sub-0")) ∷ (codes "message-id", some (codes "7")) ∷ []

message_headers-Readable : Readable [] message_headers
unfolding has_header text_eq
message_headers-Readable = (
  omega arith,
  omega arith,
  omega arith,
  omega arith,
  refl,
  (omega arith, omega arith, omega arith, omega arith, refl, tt),
)

subscribe-on_message_example :
    (run deps
      (request then_subscribe ∷ message_event deps message_headers ping ∷ [])
      connected_client).effects
    ≡ receive 3
        (message_frame message_headers ping)
        (get_header (codes "message-id") (with_length message_headers ping))
        (some (subscription_id 0))
      ∷ []
unfolding has_header text_eq get_header digits
subscribe-on_message_example =
    subscribe-on_message deps (codes "/exchange/t/ping") 3 message_headers ping connected_client
      refl message_headers-Readable refl (omega arith) refl

abbrev json : Json Text
json = record { stringify = λ m. m; parse = λ t. some t }

publish-received_example :
    (text : Text) × ((step deps
        (publish json (codes "t") ping (codes "ping"))
        connected_client).sent
      ≡ (0, text) ∷ [])
    × (map
          (received json)
          (run deps
            (subscribe_to json (codes "t") (codes "ping") 3
              ∷ message_event deps message_headers (body_of (unmarshall_single text))
              ∷ [])
            connected_client).effects
        ≡ some (3, ping) ∷ [])
unfolding has_header text_eq get_header digits
publish-received_example =
    publish-received json deps (codes "t") ping (codes "ping") 3 0 message_headers connected_client
      connected_client refl (omega arith) (omega arith) (omega arith) (omega arith) (omega arith)
      refl refl refl message_headers-Readable refl refl
