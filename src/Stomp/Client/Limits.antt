-- ===== src/Stomp/Client/Limits.antt =====
-- src/transport/stomp/stomp.client.ts: the limits of the attempts to connect.
use lidofinance_lido_council.Shared.{
  ℕ, suc, ◌+◌, ◌≤◌, ◌≡◌, refl, List, [], ◌∷◌, ltb, leb, if◌then◌else◌, arith, Bool-cases, sym, inl,
  inr,
}
use mathlib.Core.Path.{subst, subst₂}
use lidofinance_lido_council.Stomp.State.{
  StompDependencies, StompClient, Connection, absent, opening, transmitting, sleeping, broken,
  Request, send, subscribe, transmit, clean_up, perform, perform_all,
}
use lidofinance_lido_council.Stomp.Client.{
  connect_timeout, fulfil, reject, attempt_failed, transmit_connect, begin_attempt,
  connect_with_retry, reconnect, wait_round,
}

-- The attempt is one of `reconnectAttempts`, or the only one.
abbrev pub attempt_limit : StompDependencies → ℕ
attempt_limit env = let limit = env.options.reconnect_attempts in if leb 1 limit then limit else 1

-- Attempts are between the first and the last, the pause comes before the second at the earliest,
-- and the time that `waitWsConnection` has waited is no more than its timeout.
abbrev pub WithinLimits : StompDependencies → Connection → Type 0
WithinLimits env absent = Unit
WithinLimits env broken = Unit
WithinLimits env (opening attempt passed) =
    (1 ≤ attempt) × (attempt ≤ attempt_limit env) × (passed ≤ connect_timeout env)
WithinLimits env (transmitting attempt) = (1 ≤ attempt) × (attempt ≤ attempt_limit env)
WithinLimits env (sleeping attempt) = (2 ≤ attempt) × (attempt ≤ env.options.reconnect_attempts)

-- No call waits where no attempt is under way.
abbrev pub Attended : Connection → List Request → Type 0
Attended absent waiting = waiting ≡ []
Attended broken waiting = waiting ≡ []
Attended _ waiting = Unit

pub record IsValid (env : StompDependencies) (st : StompClient) : Type 0 where
  pub within_limits : WithinLimits env st.connection
  pub attended : Attended st.connection st.waiting

pub perform-connection :
    (r : Request) (st : StompClient)
    → ((perform r st).connection ≡ st.connection) × ((perform r st).waiting ≡ st.waiting)
unfolding perform transmit
perform-connection (send _ _ _) st = (refl, refl)
perform-connection (subscribe _ _ _) st = (refl, refl)

pub perform_all-connection :
    (rs : List Request) (st : StompClient)
    → ((perform_all rs st).connection ≡ st.connection) × ((perform_all rs st).waiting ≡ st.waiting)
unfolding perform_all
perform_all-connection [] st = (refl, refl)
perform_all-connection (r ∷ rs) st =
    ground (arith, perform_all-connection rs (perform r st), perform-connection r st)

pub valid :
    {env : StompDependencies} {st : StompClient} (connection : Connection) (waiting : List Request)
    → st.connection ≡ connection
    → st.waiting ≡ waiting
    → WithinLimits env connection
    → Attended connection waiting
    → IsValid env st
valid {env} connection waiting c w limits attended = record {
  within_limits = subst (WithinLimits env) (sym c) limits;
  attended = subst₂ Attended (sym c) (sym w) attended;
}

module _ (env : StompDependencies) where
  pub fulfil-IsValid : (st : StompClient) → IsValid env (fulfil env st)
  unfolding fulfil
  fulfil-IsValid st =
      let (c, w) =
        perform_all-connection st.waiting (record st { connection = absent; waiting = [] }) in
      valid absent [] c w tt refl

  pub attempt_failed-IsValid :
      (left : Connection) (attempt : ℕ) (st : StompClient)
      → WithinLimits env left
      → Attended left []
      → 1 ≤ attempt
      → IsValid env (attempt_failed env left attempt st)
  unfolding attempt_failed reject clean_up
  attempt_failed-IsValid left attempt st limits nobody first =
      elim (Bool-cases (leb env.options.reconnect_attempts attempt)) [
        | inl e ↦ rw e (valid left [] refl refl limits nobody)
        | inr e ↦ rw e (valid (sleeping (suc attempt)) st.waiting refl refl (ground arith) tt)
      ]

  pub begin_attempt-IsValid :
      (left : Connection) (attempt : ℕ) (st : StompClient)
      → WithinLimits env left
      → Attended left []
      → 1 ≤ attempt
      → attempt ≤ attempt_limit env
      → IsValid env (begin_attempt env left attempt st)
  unfolding begin_attempt transmit_connect transmit
  begin_attempt-IsValid left attempt st limits nobody first last =
      elim (Bool-cases (env.socket_fault st.sockets)) [
        | inl e ↦ rw e (
            attempt_failed-IsValid left attempt (record st { sockets = suc st.sockets }) limits
              nobody first)
        | inr e ↦ elim (Bool-cases st.opened) [
          | inl o ↦ rw (e, o) (valid (transmitting attempt) st.waiting refl refl (first, last) tt)
          | inr o ↦
              rw (e, o)
                (valid (opening attempt 0) st.waiting refl refl (first, last, omega arith) tt)
        ]
      ]

  pub reconnect-IsValid : (st : StompClient) → IsValid env (reconnect env st)
  unfolding reconnect connect_with_retry
  reconnect-IsValid st =
      begin_attempt-IsValid broken 1 (clean_up st) tt refl (omega arith) (ground arith)

  pub connect_with_retry-IsValid : (st : StompClient) → IsValid env (connect_with_retry env st)
  unfolding connect_with_retry
  connect_with_retry-IsValid st =
      begin_attempt-IsValid broken 1 st tt refl (omega arith) (ground arith)

  pub wait_round-IsValid :
      (attempt passed : ℕ) (st : StompClient)
      → 1 ≤ attempt
      → attempt ≤ attempt_limit env
      → IsValid env (wait_round env attempt passed st)
  unfolding wait_round transmit_connect transmit
  wait_round-IsValid attempt passed st first last =
      elim (Bool-cases (ltb (connect_timeout env) (passed + 250))) [
        | inl e ↦ rw e (attempt_failed-IsValid absent attempt st tt refl first)
        | inr e ↦ elim (Bool-cases st.opened) [
          | inl o ↦ rw (e, o) (valid (transmitting attempt) st.waiting refl refl (first, last) tt)
          | inr o ↦
              rw (e, o)
                (valid (opening attempt (passed + 250)) st.waiting refl refl
                  (first, last, ground arith) tt)
        ]
      ]
