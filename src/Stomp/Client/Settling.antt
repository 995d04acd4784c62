-- ===== src/Stomp/Client/Settling.antt =====
-- src/transport/stomp/stomp.client.ts: `connectionPromise` settles, whatever the sockets do meanwhile.
use lidofinance_lido_council.Shared.{
  ℕ, suc, ◌+◌, ◌-◌, ◌*◌, ◌/◌, ◌≤◌, ◌<◌, ◌≡◌, refl, ap, ◌∙◌, Bool, true, false, List, [], ◌∷◌,
  length, leb, if◌then◌else◌, arith, Bool-cases, inl, inr,
}
use lidofinance_lido_council.Stomp.Frame.{unmarshall_single}
use lidofinance_lido_council.Stomp.Client.Limits.{
  attempt_limit, perform-connection, perform_all-connection,
}
use lidofinance_lido_council.Stomp.Client.Attempts.{on_frame-kept}
use lidofinance_lido_council.Stomp.State.{
  StompDependencies, StompClient, Connection, absent, opening, transmitting, sleeping, broken,
  Request, Event, on_open, on_error, on_message, on_close, tick, wake, connect_sent,
  disconnect_sent, connect, request, unsubscribe, disconnect, acknowledged, transmit, clean_up,
}
use lidofinance_lido_council.Stomp.Client.{
  connect_timeout, fulfil, reject, attempt_failed, transmit_connect, begin_attempt, wait_round,
  on_request, acknowledge, handle, step, run,
}

-- The promise is there and has not settled.
abbrev pub is_pending : Connection → Bool
is_pending absent = false
is_pending broken = false
is_pending _ = true

-- What `connectWithRetry` awaits itself: its timers, and its CONNECT.
abbrev pub is_own : Event → Bool
is_own tick = true
is_own wake = true
is_own (connect_sent _) = true
is_own _ = false

-- The await of `connectWithRetry` ends; `answer` says whether CONNECT was sent.
abbrev pub await_ends : Bool → Connection → Event
await_ends answer (sleeping _) = wake
await_ends answer (transmitting _) = connect_sent answer
await_ends answer _ = tick

-- Other events come before each end of an await.
abbrev pub Round : Type 0
Round = List Event × Bool

abbrev pub AllOther : List Event → Type 0
AllOther [] = Unit
AllOther (event ∷ events) = (is_own event ≡ false) × AllOther events

abbrev pub AllRounds : List Round → Type 0
AllRounds [] = Unit
AllRounds ((others, answer) ∷ rounds) = AllOther others × AllRounds rounds

one_attempt_less :
    (limit attempt k : ℕ) → attempt < limit → (limit - suc attempt) * k + k ≤ (limit - attempt) * k
one_attempt_less limit attempt k h =
    let e : limit - attempt ≡ suc (limit - suc attempt) = omega arith in
    omega (arith, ap (λ (t : ℕ). t * k) e)

module _ (env : StompDependencies) where
  -- As many rounds as are given, while the promise has not settled
  unfoldable pub await_connection : List Round → StompClient → StompClient
  unfolding run step
  await_connection [] st = st
  await_connection ((others, answer) ∷ rounds) st =
      let before = run env others st in
      let rest = await_connection rounds (step env (await_ends answer before.connection) before) in
      if is_pending st.connection then rest else st

  abbrev pub rounds_of_attempt : ℕ
  rounds_of_attempt = connect_timeout env / 250 + 4

  abbrev attempts_left : ℕ → ℕ
  attempts_left attempt = (attempt_limit env - attempt) * rounds_of_attempt

  -- The rounds that a promise may take
  abbrev pub rounds_left : Connection → ℕ
  rounds_left absent = 0
  rounds_left broken = 0
  rounds_left (opening attempt passed) =
      attempts_left attempt + ((connect_timeout env - passed) / 250 + 3)
  rounds_left (transmitting attempt) = attempts_left attempt + 2
  rounds_left (sleeping attempt) = attempts_left attempt + rounds_of_attempt

  settled-rounds :
      (connection : Connection) → is_pending connection ≡ false → rounds_left connection ≡ 0
  settled-rounds absent h = refl
  settled-rounds broken h = refl
  settled-rounds (opening _ _) h = cc
  settled-rounds (transmitting _) h = cc
  settled-rounds (sleeping _) h = cc

  attempt_failed-rounds :
      (left : Connection) (attempt : ℕ) (st : StompClient)
      → is_pending left ≡ false
      → rounds_left (attempt_failed env left attempt st).connection ≤ attempts_left attempt
  unfolding attempt_failed reject clean_up
  attempt_failed-rounds left attempt st h =
      elim (Bool-cases (leb env.options.reconnect_attempts attempt)) [
        | inl e ↦ rw (e, settled-rounds left h) (omega arith)
        | inr e ↦
            rw e (one_attempt_less (attempt_limit env) attempt rounds_of_attempt (ground arith))
      ]

  begin_attempt-rounds :
      (attempt : ℕ) (st : StompClient)
      → rounds_left (begin_attempt env absent attempt st).connection
        < rounds_left (sleeping attempt)
  unfolding begin_attempt transmit_connect transmit
  begin_attempt-rounds attempt st =
      ground (arith, attempt_failed-rounds absent attempt (record st { sockets = suc st.sockets }))

  wait_round-rounds :
      (attempt passed : ℕ) (st : StompClient)
      → rounds_left (wait_round env attempt passed st).connection
        < rounds_left (opening attempt passed)
  unfolding wait_round transmit_connect transmit
  wait_round-rounds attempt passed st = ground (arith, attempt_failed-rounds absent attempt st)

  on_request-keeps :
      (r : Request) (connection : Connection) (st : StompClient)
      → is_pending connection ≡ true
      → st.connection ≡ connection
      → (on_request env r connection st).connection ≡ connection
  unfolding on_request
  on_request-keeps r absent st p c = cc
  on_request-keeps r broken st p c = cc
  on_request-keeps r connection st p c = ground (arith, perform-connection r st)

  -- What is not an own event leaves a pending promise where it is.
  others_keep :
      (event : Event) (connection : Connection) (st : StompClient)
      → is_own event ≡ false
      → is_pending connection ≡ true
      → st.connection ≡ connection
      → (handle env event connection st).connection ≡ connection
  unfolding handle transmit clean_up acknowledge
  others_keep on_open _ st o p c = c
  others_keep (on_message text) _ st o p c = (on_frame-kept env (unmarshall_single text) st).0 ∙ c
  others_keep (on_close code) absent st o p c = cc
  others_keep on_error absent st o p c = cc
  others_keep connect absent st o p c = cc
  others_keep (request r) connection st o p c = on_request-keeps r connection st p c
  others_keep (unsubscribe id) _ st o p c = c
  others_keep (disconnect headers) _ st o p c = c
  others_keep (disconnect_sent true) _ st o p c = c
  others_keep (disconnect_sent false) _ st o p c = c
  others_keep (acknowledged true message_id subscription headers) _ st o p c = c
  others_keep (acknowledged false message_id subscription headers) _ st o p c = c
  others_keep tick _ st o p c = cc
  others_keep wake _ st o p c = cc
  others_keep (connect_sent _) _ st o p c = cc
  others_keep _ _ st o p c = c

  fulfilled_less :
      (attempt : ℕ) (st : StompClient)
      → (fulfil env st).connection ≡ absent
      → rounds_left (fulfil env st).connection < rounds_left (transmitting attempt)
  fulfilled_less attempt st c = rw c (omega arith)

  await_ends-rounds :
      (answer : Bool) (connection : Connection) (st : StompClient)
      → is_pending connection ≡ true
      → rounds_left (handle env (await_ends answer connection) connection st).connection
        < rounds_left connection
  unfolding handle fulfil
  await_ends-rounds answer absent st p = cc
  await_ends-rounds answer broken st p = cc
  await_ends-rounds answer (opening a b) st p = wait_round-rounds a b st
  await_ends-rounds answer (sleeping a) st p = begin_attempt-rounds a st
  await_ends-rounds true (transmitting a) st p =
      let (c, _) =
        perform_all-connection st.waiting (record st { connection = absent; waiting = [] }) in
      fulfilled_less a st c
  await_ends-rounds false (transmitting a) st p =
      omega (arith, attempt_failed-rounds absent a st refl)

  run-others :
      (events : List Event) (st : StompClient)
      → AllOther events
      → is_pending st.connection ≡ true
      → (run env events st).connection ≡ st.connection
  unfolding run step
  run-others [] st h p = refl
  run-others (event ∷ events) st (o, h) p =
      let kept = others_keep event st.connection st o p refl in
      run-others events (step env event st) h (ap is_pending kept ∙ p) ∙ kept

  no_rounds : (connection : Connection) → rounds_left connection ≤ 0 → is_pending connection ≡ false
  no_rounds absent h = refl
  no_rounds broken h = refl
  no_rounds (opening _ _) h = absurd (omega arith)
  no_rounds (transmitting _) h = absurd (omega arith)
  no_rounds (sleeping _) h = absurd (omega arith)

  -- The promise of a connection settles within the rounds that its place leaves, the rounds of all
  -- the attempts that are left at most, whatever calls are made and whatever the sockets do between
  -- the ends of its awaits.
  pub await_connection_settles :
      (rounds : List Round) (st : StompClient)
      → AllRounds rounds
      → rounds_left st.connection ≤ length rounds
      → is_pending (await_connection rounds st).connection ≡ false
  unfolding await_connection run step
  await_connection_settles [] st h enough = no_rounds st.connection enough
  await_connection_settles ((others, answer) ∷ rounds) st (other, h) enough =
      elim (Bool-cases (is_pending st.connection)) [
        | inl p ↦
            let before = run env others st in
            let same = run-others others st other p in
            let fewer =
              await_ends-rounds answer before.connection before (ap is_pending same ∙ p) in
            rw p (
              await_connection_settles rounds
                (step env (await_ends answer before.connection) before) h
                (omega (arith, fewer, ap rounds_left same)))
        | inr p ↦ rw p p
      ]
