-- ===== src/Stomp/Client/Attempts.antt =====
-- src/transport/stomp/stomp.client.ts: how many attempts a connection takes, how long each one waits,
-- and that the calls which wait for a connection are attended to.
use lidofinance_lido_council.Shared.{
  ℕ, ◌≡◌, refl, true, false, Option, none, some, List, [], ◌∷◌, ◌++◌, ◌==◌, ◌&&◌, arith, Bool-cases,
  inl, inr,
}
use mathlib.Core.Path.{subst}
use lidofinance_lido_council.Stomp.Frame.{
  get_header, shown, unmarshall_single, Read, frame, failed, empty_frame, type_error, StompFrame,
}
use lidofinance_lido_council.Stomp.Text.{codes}
use lidofinance_lido_council.Stomp.State.{
  StompDependencies, StompClient, Connection, absent, opening, transmitting, sleeping, broken,
  Request, Event, on_open, on_error, on_message, on_close, tick, wake, connect_sent,
  disconnect_sent, connect, request, unsubscribe, disconnect, acknowledged, transmit, clean_up,
  find_subscription,
}
use lidofinance_lido_council.Stomp.Client.{
  reconnect, on_request, deliver, dispatch, on_frame, closed_by_peer, acknowledge, handle, step,
  run,
}
use lidofinance_lido_council.Stomp.Client.Limits.{
  WithinLimits, IsValid, perform-connection, valid, fulfil-IsValid, attempt_failed-IsValid,
  begin_attempt-IsValid, reconnect-IsValid, connect_with_retry-IsValid, wait_round-IsValid,
}

module _ (env : StompDependencies) where
  -- What leaves the connection and the waiting calls alone
  kept :
      {st st' : StompClient}
      → st'.connection ≡ st.connection
      → st'.waiting ≡ st.waiting
      → IsValid env st
      → IsValid env st'
  kept {st} c w h = valid st.connection st.waiting c w h.within_limits h.attended

  deliver-kept :
      (found : Option ℕ) (f : StompFrame) (st : StompClient)
      → ((deliver env found f st).connection ≡ st.connection)
        × ((deliver env found f st).waiting ≡ st.waiting)
  deliver-kept none f st = (refl, refl)
  deliver-kept (some callback) f st = (refl, refl)

  dispatch-kept :
      (f : StompFrame) (st : StompClient)
      → ((dispatch env f st).connection ≡ st.connection)
        × ((dispatch env f st).waiting ≡ st.waiting)
  unfolding dispatch
  dispatch-kept f st = ground (
    arith,
    deliver-kept
        (find_subscription (shown (get_header (codes "subscription") f.headers)) st.subscriptions) f
        st,
  )

  pub on_frame-kept :
      (read : Read) (st : StompClient)
      → ((on_frame env read st).connection ≡ st.connection)
        × ((on_frame env read st).waiting ≡ st.waiting)
  unfolding on_frame
  on_frame-kept (frame f) st = dispatch-kept f st
  on_frame-kept (failed empty_frame) st = (refl, refl)
  on_frame-kept (failed type_error) st = (refl, refl)

  closed_by_peer-IsValid :
      (code : ℕ) (st : StompClient)
      → st.connection ≡ absent
      → IsValid env st
      → IsValid env (closed_by_peer env code st)
  unfolding closed_by_peer clean_up
  closed_by_peer-IsValid code st c h = elim (Bool-cases (code == 1000)) [
    | inl e ↦ rw e (kept refl refl h)
    | inr e ↦ rw e (reconnect-IsValid env (clean_up st))
  ]

  on_request-IsValid :
      (r : Request) (connection : Connection) (st : StompClient)
      → st.connection ≡ connection
      → IsValid env st
      → IsValid env (on_request env r connection st)
  unfolding on_request
  on_request-IsValid r connection st c h = elim (Bool-cases (st.opened && st.connected)) [
    | inl e ↦ let (pc, pw) = perform-connection r st in rw e (kept pc pw h)
    | inr e ↦ rw e (by_connection connection c)
  ]
    where
      by_connection :
          (connection : Connection)
          → st.connection ≡ connection
          → IsValid env (elim connection [
            | absent ↦ reconnect env (record st { waiting = st.waiting ++ r ∷ [] })
            | broken ↦ record st { rejected = st.rejected ++ r ∷ [] }
            | other ↦ record st { waiting = st.waiting ++ r ∷ [] }
          ])
      by_connection absent c = reconnect-IsValid env (record st { waiting = st.waiting ++ r ∷ [] })
      by_connection broken c = kept refl refl h
      by_connection (opening a p) c =
          valid (opening a p) (st.waiting ++ r ∷ []) c refl
            (subst (WithinLimits env) c h.within_limits) tt
      by_connection (transmitting a) c =
          valid (transmitting a) (st.waiting ++ r ∷ []) c refl
            (subst (WithinLimits env) c h.within_limits) tt
      by_connection (sleeping a) c =
          valid (sleeping a) (st.waiting ++ r ∷ []) c refl
            (subst (WithinLimits env) c h.within_limits) tt

  handle-IsValid :
      (event : Event) (connection : Connection) (st : StompClient)
      → st.connection ≡ connection
      → IsValid env st
      → IsValid env (handle env event connection st)
  unfolding handle transmit clean_up acknowledge
  handle-IsValid on_open _ st c h = kept refl refl h
  handle-IsValid (on_message text) _ st c h =
      let (fc, fw) = on_frame-kept (unmarshall_single text) st in kept fc fw h
  handle-IsValid (on_close code) absent st c h = closed_by_peer-IsValid code st c h
  handle-IsValid on_error absent st c h = reconnect-IsValid env st
  handle-IsValid tick (opening attempt passed) st c h =
      let (first, last, _) : WithinLimits env (opening attempt passed) =
        subst (WithinLimits env) c h.within_limits in
      wait_round-IsValid env attempt passed st first last
  handle-IsValid wake (sleeping attempt) st c h =
      let limits : WithinLimits env (sleeping attempt) =
        subst (WithinLimits env) c h.within_limits in
      begin_attempt-IsValid env absent attempt st tt refl (omega arith) (ground arith)
  handle-IsValid (connect_sent true) (transmitting attempt) st c h = fulfil-IsValid env st
  handle-IsValid (connect_sent false) (transmitting attempt) st c h =
      let (first, last) : WithinLimits env (transmitting attempt) =
        subst (WithinLimits env) c h.within_limits in
      attempt_failed-IsValid env absent attempt st tt refl first
  handle-IsValid connect absent st c h = connect_with_retry-IsValid env st
  handle-IsValid (request r) connection st c h = on_request-IsValid r connection st c h
  handle-IsValid (unsubscribe id) _ st c h = kept refl refl h
  handle-IsValid (disconnect headers) _ st c h = kept refl refl h
  handle-IsValid (disconnect_sent true) _ st c h = kept refl refl h
  handle-IsValid (disconnect_sent false) _ st c h = h
  handle-IsValid (acknowledged true message_id subscription headers) _ st c h = kept refl refl h
  handle-IsValid (acknowledged false message_id subscription headers) _ st c h = kept refl refl h
  handle-IsValid _ _ st c h = h

  -- Every event, in every state, keeps the limits of the attempts, and leaves no call waiting
  -- where no attempt is under way.
  pub step-IsValid :
      (event : Event) (st : StompClient) → IsValid env st → IsValid env (step env event st)
  unfolding step
  step-IsValid event st h = handle-IsValid event st.connection st refl h

  -- Whatever happens to a client of which this holds, such as a new one, an attempt is never more
  -- than the last one that the options allow, or the first, it waits for its socket no longer than
  -- the timeout, and no call to send or to subscribe is left waiting where no attempt is under way.
  pub run-IsValid :
      (events : List Event) (st : StompClient) → IsValid env st → IsValid env (run env events st)
  unfolding run
  run-IsValid [] st h = h
  run-IsValid (event ∷ events) st h =
      run-IsValid events (step env event st) (step-IsValid event st h)
