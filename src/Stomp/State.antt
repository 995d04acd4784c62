-- ===== src/Stomp/State.antt =====
-- src/transport/stomp/stomp.client.ts: the state of the client, its events, and what it does to its
-- socket and to its subscriptions.
use lidofinance_lido_council.Shared.{
  ℕ, suc, String, Bool, false, Option, none, some, List, [], ◌∷◌, ◌++◌, if◌then◌else◌,
}
use lidofinance_lido_council.Stomp.Text.{Text, codes, text_eq, digits}
use lidofinance_lido_council.Stomp.Frame.{
  Headers, StompFrame, set_header, get_header, has_header, shown, marshall,
}

pub record StompOptions : Type 0 where
  pub reconnect_timeout : ℕ
  pub reconnect_attempts : ℕ
  pub max_wait_socket_session : ℕ
  pub web_socket_connect_timeout : Option ℕ

-- The arguments of the constructor, and the sockets.
pub record StompDependencies : Type 0 where
  pub login : Option Text
  pub passcode : Option Text
  pub options : StompOptions
  pub socket_fault : ℕ → Bool

-- The calls that may wait for a connection; a callback is a number.
pub data Request : Type 0 where
  send : Text → Headers → Text → Request
  subscribe : Text → ℕ → Headers → Request

-- `connectionPromise`: `null`, where the attempt that it stands for is, or a promise that has been
-- rejected and stays. Attempts count from 1.
pub data Connection : Type 0 where
  absent : Connection
  -- in `waitWsConnection`, with the time that has passed
  opening : ℕ → ℕ → Connection
  -- in the `transmit` of CONNECT
  transmitting : ℕ → Connection
  -- in the pause before the attempt
  sleeping : ℕ → Connection
  broken : Connection

-- What the client calls back.
pub data Effect : Type 0 where
  connect_callback error_callback : StompFrame → Effect
  -- the callback, the frame, and the message id and subscription of its `ack` and `nack`
  receive : ℕ → StompFrame → Option Text → Option Text → Effect
  -- a TypeError that leaves the handler of the socket's event
  thrown : Effect

pub record StompClient : Type 0 where
  pub opened : Bool
  pub connected : Bool
  pub connection : Connection
  pub counter : ℕ
  pub subscriptions : List (Text × ℕ)
  -- the socket in use, and the number of sockets asked for
  pub ws : Option ℕ
  pub sockets : ℕ
  -- what was handed to which socket, and the calls of `close`
  pub sent : List (ℕ × Text)
  pub closed : List ℕ
  -- the calls that wait for `connectionPromise`, and those that it rejected
  pub waiting : List Request
  pub rejected : List Request
  pub effects : List Effect

pub data Event : Type 0 where
  -- 'open', 'message', 'close' with its code, and 'error' of a socket
  on_open on_error : Event
  on_message : Text → Event
  on_close : ℕ → Event
  -- 250 milliseconds of `waitWsConnection`, and the pause of `connectWithRetry`
  tick wake : Event
  -- the CONNECT or the DISCONNECT frame was sent, or not
  connect_sent disconnect_sent : Bool → Event
  connect : Event
  request : Request → Event
  unsubscribe : Text → Event
  disconnect : Headers → Event
  -- ACK or NACK, the message id and the subscription
  acknowledged : Bool → Option Text → Option Text → Headers → Event

-- `new StompClient(…)`
abbrev pub new_client : StompClient
new_client = record {
  opened = false;
  connected = false;
  connection = absent;
  counter = 0;
  subscriptions = [];
  ws = none;
  sockets = 0;
  sent = [];
  closed = [];
  waiting = [];
  rejected = [];
  effects = [];
}

-- `this.ws.send(StompFrame.marshall(…))`: nothing is sent where no socket was made.
abbrev pub hand : Option ℕ → Text → List (ℕ × Text) → List (ℕ × Text)
hand none text sent = sent
hand (some socket) text sent = sent ++ (socket, text) ∷ []

unfoldable pub transmit : String → Headers → Text → StompClient → StompClient
transmit command headers body st = record st {
  sent = hand st.ws (marshall (codes command) headers body) st.sent;
}

abbrev pub close : Option ℕ → List ℕ → List ℕ
close none closed = closed
close (some socket) closed = closed ++ socket ∷ []

unfoldable pub clean_up : StompClient → StompClient
clean_up st = record st { connected = false; opened = false; closed = close st.ws st.closed }

-- `this.subscriptions[id]`, as read, written and deleted
unfoldable pub find_subscription : Text → List (Text × ℕ) → Option ℕ
find_subscription id [] = none
find_subscription id ((key, callback) ∷ subscriptions) =
    if text_eq key id then some callback else find_subscription id subscriptions

unfoldable pub set_subscription : Text → ℕ → List (Text × ℕ) → List (Text × ℕ)
set_subscription id callback [] = (id, callback) ∷ []
set_subscription id callback ((key, old) ∷ subscriptions) =
    if text_eq key id
    then (key, callback) ∷ subscriptions
    else (key, old) ∷ set_subscription id callback subscriptions

unfoldable pub delete_subscription : Text → List (Text × ℕ) → List (Text × ℕ)
delete_subscription id [] = []
delete_subscription id ((key, callback) ∷ subscriptions) =
    let rest = delete_subscription id subscriptions in
    if text_eq key id then rest else (key, callback) ∷ rest

-- `headers['id']`, made of the counter where the caller gave none
unfoldable pub with_id : ℕ → Headers → Headers
with_id counter headers =
    if has_header (codes "id") headers
    then headers
    else set_header (codes "id") (some (codes "sub-" ++ digits counter)) headers

unfoldable pub next_counter : Headers → ℕ → ℕ
next_counter headers counter = if has_header (codes "id") headers then counter else suc counter

abbrev pub with_destination : Text → Headers → Headers
with_destination destination = set_header (codes "destination") (some destination)

-- What `send` and `subscribe` do once they need not wait.
unfoldable pub perform : Request → StompClient → StompClient
unfolding transmit with_id next_counter
perform (send destination headers body) st =
    transmit "SEND" (with_destination destination headers) body st
perform (subscribe destination callback headers) st =
    let named = with_destination destination (with_id st.counter headers) in
    transmit "SUBSCRIBE" named [] (record st {
      counter = next_counter headers st.counter;
      subscriptions =
          set_subscription (shown (get_header (codes "id") named)) callback st.subscriptions;
    })

unfoldable pub perform_all : List Request → StompClient → StompClient
unfolding perform
perform_all [] st = st
perform_all (r ∷ requests) st = perform_all requests (perform r st)
