-- ===== src/Guardian/Schedule.antt =====
-- `subscribeToModulesUpdates` of src/guardian/guardian.service.ts: the cron job that starts the cycles.
pub mod Safety
pub mod History
pub mod Start
pub mod Pauses
use lidofinance_lido_council.Shared.{List, [], ◌∷◌}
use lidofinance_lido_council.Security.{pause_settled}
use lidofinance_lido_council.Guardian.State.{Daemon, GuardianEnv}
use lidofinance_lido_council.Guardian.Cycle.{handle_new_block}

-- The job fires and a cycle runs, with what lies outside as it answers during this cycle; or the pause
-- transaction that was started and not waited for settles. A firing while a cycle runs is dropped by
-- the decorator of `handleNewBlock`.
pub data Happening : Type 0 where
  job_fires : GuardianEnv → Happening
  pause_settles : Happening

unfoldable pub on_happening : Happening → Daemon → Daemon
unfolding pause_settled
on_happening (job_fires env) d = (handle_new_block env d).1
on_happening pause_settles d = record d { pausing = pause_settled d.pausing }

-- The oldest comes first.
unfoldable pub subscribe_to_modules_updates : List Happening → Daemon → Daemon
subscribe_to_modules_updates [] d = d
subscribe_to_modules_updates (h ∷ later) d = subscribe_to_modules_updates later (on_happening h d)
