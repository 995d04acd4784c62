-- ===== src/Stomp/Client/Sending.antt =====
-- src/transport/stomp/stomp.client.ts: what becomes of the calls that find the client not connected.
use lidofinance_lido_council.Shared.{
  ℕ, zero, suc, ◌+◌, ◌*◌, ◌≤◌, ◌≡◌, ◌≢◌, refl, ap, ◌∙◌, Bool, true, false, ◌&&◌, some, List, [],
  ◌∷◌, ◌++◌, map, append_assoc, append-nil, ltb, ◌==◌, arith, Bool-cases, inl, inr, sym,
}
use lidofinance_lido_council.Stomp.Text.{codes}
use lidofinance_lido_council.Stomp.Frame.{marshall}
use lidofinance_lido_council.Stomp.State.{
  StompDependencies, StompClient, absent, opening, Request, send, subscribe, Event, on_open,
  on_close, tick, connect_sent, request, transmit, clean_up, perform, perform_all,
}
use lidofinance_lido_council.Stomp.Client.{
  connect_timeout, connect_headers, fulfil, transmit_connect, begin_attempt, connect_with_retry,
  reconnect, wait_round, on_request, closed_by_peer, handle, step, run,
}

abbrev pub ticks : ℕ → List Event
ticks zero = []
ticks (suc n) = tick ∷ ticks n

-- The socket opens in the round after those that passed, and takes the CONNECT frame.
abbrev pub opens_after : ℕ → List Event
opens_after rounds = ticks rounds ++ (on_open ∷ tick ∷ connect_sent true ∷ [])

run-append :
    (env : StompDependencies) (es fs : List Event) (st : StompClient)
    → run env (es ++ fs) st ≡ run env fs (run env es st)
unfolding run
run-append env [] fs st = refl
run-append env (e ∷ es) fs st = run-append env es fs (step env e st)

perform-fields :
    (r : Request) (st : StompClient)
    → ((perform r st).connected ≡ st.connected)
      × ((perform r st).connection ≡ st.connection)
      × ((perform r st).waiting ≡ st.waiting)
      × ((perform r st).sockets ≡ st.sockets)
unfolding perform transmit
perform-fields (send _ _ _) st = (refl, refl, refl, refl)
perform-fields (subscribe _ _ _) st = (refl, refl, refl, refl)

not_ready : (opened connected : Bool) → connected ≡ false → opened && connected ≡ false
not_ready opened connected h = ground arith

module _ (env : StompDependencies) where
  -- The first attempt of a reconnection
  abbrev pub reopening : StompClient → List Request → ℕ → StompClient
  reopening st requests passed = record (clean_up st) {
    ws = some st.sockets;
    sockets = suc st.sockets;
    waiting = requests;
    connection = opening 1 passed;
  }

  -- What a successful reconnection leaves: a new socket that was given the CONNECT frame
  abbrev pub reopened : StompClient → StompClient
  reopened st = record (clean_up st) {
    opened = true;
    ws = some st.sockets;
    sockets = suc st.sockets;
    sent = st.sent ++ (st.sockets, marshall (codes "CONNECT") (connect_headers env) []) ∷ [];
    waiting = [];
    connection = absent;
  }

  reconnect-opening :
      (st : StompClient)
      → env.socket_fault st.sockets ≡ false
      → reconnect env st ≡ reopening st st.waiting 0
  unfolding reconnect connect_with_retry begin_attempt clean_up
  reconnect-opening st fault = simp (fault) refl

  run-requests :
      (st : StompClient) (before requests : List Request) (passed : ℕ)
      → run env (map request requests) (reopening st before passed)
        ≡ reopening st (before ++ requests) passed
  unfolding run step handle on_request clean_up
  run-requests st before [] passed = ap (λ rs. reopening st rs passed) (sym (append-nil before))
  run-requests st before (r ∷ requests) passed =
      run-requests st (before ++ r ∷ []) requests passed
      ∙ ap (λ rs. reopening st rs passed) (append_assoc before (r ∷ []) requests)

  in_time :
      (passed : ℕ)
      → passed + 250 ≤ connect_timeout env
      → ltb (connect_timeout env) (passed + 250) ≡ false
  in_time passed h = ground arith

  step-tick :
      (st : StompClient) (requests : List Request) (passed : ℕ)
      → passed + 250 ≤ connect_timeout env
      → step env tick (reopening st requests passed) ≡ reopening st requests (passed + 250)
  unfolding step handle wait_round clean_up
  step-tick st requests passed h = rw (in_time passed h) refl

  run-ticks :
      (st : StompClient) (requests : List Request) (rounds passed : ℕ)
      → passed + 250 * rounds ≤ connect_timeout env
      → run env (ticks rounds) (reopening st requests passed)
        ≡ reopening st requests (passed + 250 * rounds)
  unfolding run
  run-ticks st requests zero passed h = ap (reopening st requests) (omega arith)
  run-ticks st requests (suc rounds) passed h =
      ap (run env (ticks rounds)) (step-tick st requests passed (omega arith))
      ∙ run-ticks st requests rounds (passed + 250) (omega arith)
      ∙ ap (reopening st requests) (omega arith)

  run-opens :
      (st : StompClient) (requests : List Request) (passed : ℕ)
      → passed + 250 ≤ connect_timeout env
      → run env (on_open ∷ tick ∷ connect_sent true ∷ []) (reopening st requests passed)
        ≡ perform_all requests (reopened st)
  unfolding run step handle wait_round clean_up fulfil transmit_connect transmit
  run-opens st requests passed h = rw (in_time passed h) refl

  reconnection :
      (st : StompClient) (waiting requests : List Request) (rounds : ℕ)
      → 250 * rounds + 250 ≤ connect_timeout env
      → run env (map request requests ++ opens_after rounds) (reopening st waiting 0)
        ≡ perform_all (waiting ++ requests) (reopened st)
  reconnection st waiting requests rounds h =
      run-append env (map request requests) (opens_after rounds) (reopening st waiting 0)
      ∙ ap (run env (opens_after rounds)) (run-requests st waiting requests 0)
      ∙ run-append env (ticks rounds) (on_open ∷ tick ∷ connect_sent true ∷ [])
          (reopening st (waiting ++ requests) 0)
      ∙ ap (run env (on_open ∷ tick ∷ connect_sent true ∷ []))
          (run-ticks st (waiting ++ requests) rounds 0 (omega arith))
      ∙ run-opens st (waiting ++ requests) (0 + 250 * rounds) (omega arith)

  on_request-absent :
      (r : Request) (st : StompClient)
      → st.opened && st.connected ≡ false
      → env.socket_fault st.sockets ≡ false
      → on_request env r absent st ≡ reopening st (st.waiting ++ r ∷ []) 0
  unfolding on_request clean_up
  on_request-absent r st offline fault =
      simp (offline) (reconnect-opening (record st { waiting = st.waiting ++ r ∷ [] }) fault)

  step-request :
      (r : Request) (st : StompClient)
      → st.opened && st.connected ≡ false
      → st.connection ≡ absent
      → env.socket_fault st.sockets ≡ false
      → step env (request r) st ≡ reopening st (st.waiting ++ r ∷ []) 0
  unfolding step handle
  step-request r st offline idle fault =
      ap (λ c. on_request env r c st) idle ∙ on_request-absent r st offline fault

  close_absent :
      (code : ℕ) (st : StompClient)
      → code ≢ 1000
      → env.socket_fault st.sockets ≡ false
      → handle env (on_close code) absent st ≡ reopening (clean_up st) st.waiting 0
  unfolding handle closed_by_peer clean_up
  close_absent code st abnormal fault = elim (Bool-cases (code == 1000)) [
    | inl e ↦ ground arith
    | inr e ↦ rw e (reconnect-opening (clean_up st) fault)
  ]

  step-close :
      (code : ℕ) (st : StompClient)
      → code ≢ 1000
      → st.connection ≡ absent
      → env.socket_fault st.sockets ≡ false
      → step env (on_close code) st ≡ reopening (clean_up st) st.waiting 0
  unfolding step
  step-close code st abnormal idle fault =
      ap (λ c. handle env (on_close code) c st) idle ∙ close_absent code st abnormal fault

  -- Calls to send or to subscribe on a client that is not connected, where no attempt is under way
  -- and nothing waits: where the new socket can be made, opens in time and takes the CONNECT frame,
  -- all of them are performed, in their order, on that socket, behind that frame.
  pub requests_performed :
      (st : StompClient) (r : Request) (requests : List Request) (rounds : ℕ)
      → st.opened && st.connected ≡ false
      → st.connection ≡ absent
      → st.waiting ≡ []
      → env.socket_fault st.sockets ≡ false
      → 250 * rounds + 250 ≤ connect_timeout env
      → run env (map request (r ∷ requests) ++ opens_after rounds) st
        ≡ perform_all (r ∷ requests) (reopened st)
  unfolding run
  requests_performed st r requests rounds offline idle nobody fault h =
      ap (run env (map request requests ++ opens_after rounds))
        (step-request r st offline idle fault ∙ ap (λ w. reopening st (w ++ r ∷ []) 0) nobody)
      ∙ reconnection st (r ∷ []) requests rounds h

  -- A connection lost: the subscriptions of the client stay in its table, but the new socket gets
  -- the CONNECT frame alone, so the broker that serves it knows of none of them. This is so for any
  -- close code but 1000, where no attempt is under way, nothing waits, and the new socket can be
  -- made, opens in time and takes the frame.
  pub reconnection_renews_nothing :
      (st : StompClient) (code rounds : ℕ)
      → code ≢ 1000
      → st.connection ≡ absent
      → st.waiting ≡ []
      → env.socket_fault st.sockets ≡ false
      → 250 * rounds + 250 ≤ connect_timeout env
      → ((run env (on_close code ∷ opens_after rounds) st).subscriptions ≡ st.subscriptions)
        × ((run env (on_close code ∷ opens_after rounds) st).sent
            ≡ st.sent ++ (st.sockets, marshall (codes "CONNECT") (connect_headers env) []) ∷ [])
  unfolding run perform_all clean_up
  reconnection_renews_nothing st code rounds abnormal idle nobody fault h =
      let reopens : run env (on_close code ∷ opens_after rounds) st ≡ reopened (clean_up st) =
        ap (run env (opens_after rounds))
          (step-close code st abnormal idle fault ∙ ap (λ w. reopening (clean_up st) w 0) nobody)
        ∙ reconnection (clean_up st) [] [] rounds h in
      (ap (λ (s : StompClient). s.subscriptions) reopens, ap (λ (s : StompClient). s.sent) reopens)

  -- A call made between the CONNECT frame and the CONNECTED frame that answers it closes the socket
  -- that has just been connected, and waits for another one. The call before it was performed on the
  -- closed socket. This is so for a client that is not connected, where no attempt is under way,
  -- nothing waits and the new sockets can be made, the first of them opening in time.
  pub early_request_reconnects :
      (st : StompClient) (r early : Request) (rounds : ℕ)
      → st.opened && st.connected ≡ false
      → st.connection ≡ absent
      → st.waiting ≡ []
      → env.socket_fault st.sockets ≡ false
      → env.socket_fault (suc st.sockets) ≡ false
      → 250 * rounds + 250 ≤ connect_timeout env
      → run env ((request r ∷ opens_after rounds) ++ request early ∷ []) st
        ≡ reopening (perform r (reopened st)) (early ∷ []) 0
  unfolding run perform_all
  early_request_reconnects st r early rounds offline idle nobody fault fault' h =
      let done = perform r (reopened st) in
      let (connected, connection, waiting, sockets) = perform-fields r (reopened st) in
      run-append env (request r ∷ opens_after rounds) (request early ∷ []) st
      ∙ ap (run env (request early ∷ []))
          (requests_performed st r [] rounds offline idle nobody fault h)
      ∙ step-request early done (not_ready done.opened done.connected connected) connection
          (ap env.socket_fault sockets ∙ fault')
      ∙ ap (λ w. reopening done (w ++ early ∷ []) 0) waiting
