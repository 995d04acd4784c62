-- ===== src/Guardian/Schedule/Pauses.antt =====
-- How often the daemon of src/guardian/guardian.service.ts sends a pause transaction, over its whole life.
use lidofinance_lido_council.Shared.{
  ◌≡◌, ◌≤◌, ◌+◌, inl, inr, refl, ap, ◌∙◌, ℕ, Bool, true, false, List, [], ◌∷◌, Bool-cases, arith,
  length, length-append,
}
use lidofinance_lido_council.Outcome.{Outcome, ok}
use lidofinance_lido_council.Contracts.{Address, Signature}
use lidofinance_lido_council.Repository.{Repository, get_cached_dsm_contract}
use lidofinance_lido_council.Deposit.{Deposits}
use lidofinance_lido_council.Security.{
  Pausing, PauseTransaction, send_pause, pause_deposits, pause_settled,
}
use lidofinance_lido_council.Guardian.State.{Daemon, GuardianEnv}
use lidofinance_lido_council.Guardian.Cycle.{handle_new_block}
use lidofinance_lido_council.Guardian.Cycle.BlockRead.{get_current_block_data-pausing}
use lidofinance_lido_council.Guardian.Cycle.Safety.{KeepsEvents}
use lidofinance_lido_council.Guardian.Cycle.Announced.{handle_new_block-Announces}
use lidofinance_lido_council.Guardian.Schedule.{
  Happening, job_fires, pause_settles, on_happening, subscribe_to_modules_updates,
}

-- The transactions sent, and the one that may be sent at once
abbrev pub free : Bool → ℕ
free true = 0
free false = 1

abbrev spent : Pausing → ℕ
spent p = length p.transactions + free p.is_executing

-- How often a transaction settles
abbrev pub settles : List Happening → ℕ
settles [] = 0
settles (job_fires env ∷ later) = settles later
settles (pause_settles ∷ later) = settles later + 1

spent-send_pause :
    (block_number id : ℕ) (signature : Signature) (p : Pausing)
    → p.is_executing ≡ false
    → (found : Outcome Address)
    → spent (send_pause block_number id signature p found) ≡ length p.transactions + 1
spent-send_pause block_number id signature p idle (ok contract) =
    let sent : PauseTransaction = record {
      contract = contract;
      block_number = block_number;
      staking_module_id = id;
      signature = signature;
    } in
    omega (arith, length-append p.transactions (sent ∷ []))
spent-send_pause block_number id signature p idle failed = simp idle

-- A transaction is sent only when it is free to be, and then no other is.
spent-pause_deposits :
    (repository : Repository) (block_number id : ℕ) (signature : Signature) (p : Pausing)
    → spent (pause_deposits repository block_number id signature p) ≡ spent p
unfolding pause_deposits
spent-pause_deposits repository block_number id signature p = elim (Bool-cases p.is_executing) [
  | inl busy ↦ simp busy
  | inr idle ↦
      simp idle
        (spent-send_pause block_number id signature p idle (get_cached_dsm_contract repository).0)
]

abbrev Spends : ℕ → Deposits → Pausing → Type 0
Spends n deposits p = spent p ≡ n

keeps-Spends : (env : GuardianEnv) (n : ℕ) → KeepsEvents env (Spends n)
keeps-Spends env n = record {
  updating = λ meta d same. same;
  reading = λ meta d same. ap spent (get_current_block_data-pausing env meta d) ∙ same;
  pauses = λ repository block_number id signature deposits p same.
      spent-pause_deposits repository block_number id signature p ∙ same;
}

-- However a cycle ends
spent-handle_new_block :
    (env : GuardianEnv) (d : Daemon) → spent (handle_new_block env d).1.pausing ≡ spent d.pausing
spent-handle_new_block env d =
    (handle_new_block-Announces env (λ id response. Unit {0}) (λ id response got. tt)
      (Spends (spent d.pausing)) (keeps-Spends env (spent d.pausing)) d (λ id response kept. tt)
      refl).2

spent-on_happening :
    (h : Happening) (d : Daemon)
    → spent (on_happening h d).pausing ≤ spent d.pausing + settles (h ∷ [])
unfolding on_happening pause_settled
spent-on_happening (job_fires env) d = omega (arith, spent-handle_new_block env d)
spent-on_happening pause_settles d = omega arith

-- Whatever cycles run and whatever they see, the pause transactions that the daemon sends are at most
-- one for each time that one settles, and one more if none is under way before; and one less than that
-- if none is under way in the end.
pub transactions-subscribe_to_modules_updates :
    (happenings : List Happening) (d : Daemon)
    → length (subscribe_to_modules_updates happenings d).pausing.transactions
        + free (subscribe_to_modules_updates happenings d).pausing.is_executing
      ≤ length d.pausing.transactions + free d.pausing.is_executing + settles happenings
unfolding subscribe_to_modules_updates
transactions-subscribe_to_modules_updates [] d = omega arith
transactions-subscribe_to_modules_updates (job_fires env ∷ later) d = omega (
  arith,
  transactions-subscribe_to_modules_updates later (on_happening (job_fires env) d),
  spent-on_happening (job_fires env) d,
)
transactions-subscribe_to_modules_updates (pause_settles ∷ later) d = omega (
  arith,
  transactions-subscribe_to_modules_updates later (on_happening pause_settles d),
  spent-on_happening pause_settles d,
)
