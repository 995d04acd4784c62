-- ===== src/Deposit/Node.antt =====
-- The node that src/contracts/deposit/deposit.service.ts asks for events, and what its answers become.
use lidofinance_lido_council.Shared.{
  ℕ, zero, suc, ◌+◌, ◌-◌, ◌≤◌, String, ◌≡◌, refl, Option, none, some, List, [], arith,
}
use lidofinance_lido_council.Outcome.{Outcome, ok, throw, exit, pending, traverse, traverse-append}
use lidofinance_lido_council.Provider.{Turn}
use lidofinance_lido_council.Provider.BlockLog.{BlockLog, between, group_between, events_from}
use lidofinance_lido_council.Provider.FallOver.{IsHonest}
use lidofinance_lido_council.Provider.FallOver.{fetch_events_fall_over-eq-between}
use lidofinance_lido_council.Deposit.{
  VerifiedDepositEvent, VerifiedDepositEventGroup, DepositEventEvent, DepositEnv, verified,
  get_deployment_block_by_network, fetch_events_fall_over, fetch_events,
}

-- The node: `raw` is what the chain logged in each block, `log` the same after verification. Blocks
-- up to the deployment of the contract have no events.
pub record IsNode (env : DepositEnv) (raw : BlockLog DepositEventEvent)
    (log : BlockLog VerifiedDepositEvent) : Type 0 where
  pub verifies : (b : ℕ) → traverse (verified env) (raw b) ≡ ok (log b)
  pub honest :
      (contract : String) (turns : List Turn) (s e : ℕ) (events : List DepositEventEvent)
      → s ≤ e + 1
      → env.query_filter contract turns s e ≡ ok events
      → events ≡ between raw s e
  pub genesis : log 0 ≡ []
  pub silent :
      (deployment b : ℕ)
      → get_deployment_block_by_network env ≡ ok deployment
      → b ≤ deployment
      → log b ≡ []

module _ (env : DepositEnv) (raw : BlockLog DepositEventEvent) (log : BlockLog VerifiedDepositEvent)
    (node : IsNode env raw log) where
  pub traverse-events_from :
      (s n : ℕ) → traverse (verified env) (events_from raw s n) ≡ ok (events_from log s n)
  unfolding events_from
  traverse-events_from s zero = refl
  traverse-events_from s (suc n) =
      rw (traverse-append, node.verifies s, traverse-events_from (s + 1) n)

  -- Honest log queries make honest event groups.
  pub fetch_events-IsHonest : IsHonest log (fetch_events env)
  unfolding fetch_events
  fetch_events-IsHonest turns s e g range h = by_contract env.deposit_contract refl
    where
      by_answer :
          (contract : String)
          → env.deposit_contract ≡ some contract
          → (r : Outcome (List DepositEventEvent)) → env.query_filter contract turns s e ≡ r
          → g ≡ group_between log s e
      by_answer contract ec (ok raw_events) er =
          let shown : raw_events ≡ between raw s e =
            node.honest contract turns s e raw_events range er in
          let checked : traverse (verified env) raw_events ≡ ok (between log s e) =
            rw shown (traverse-events_from s (e + 1 - s)) in
          ground arith
      by_answer contract ec (throw _) er = absurd (ground arith)
      by_answer contract ec exit er = absurd (ground arith)
      by_answer contract ec pending er = absurd (ground arith)

      by_contract : (c : Option String) → env.deposit_contract ≡ c → g ≡ group_between log s e
      by_contract none ec = absurd (ground arith)
      by_contract (some contract) ec =
          by_answer contract ec (env.query_filter contract turns s e) refl

  pub chunk-eq-between :
      (s e : ℕ) (g : VerifiedDepositEventGroup)
      → s ≤ e + 1
      → fetch_events_fall_over env s e ≡ ok g
      → g ≡ group_between log s e
  unfolding fetch_events_fall_over
  chunk-eq-between s e g range h =
      fetch_events_fall_over-eq-between log (fetch_events env) fetch_events-IsHonest env.rounds [] s
        e g range h
