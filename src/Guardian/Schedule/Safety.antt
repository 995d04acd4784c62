-- ===== src/Guardian/Schedule/Safety.antt =====
-- What the daemon of src/guardian/guardian.service.ts says in its whole life: the cycles one after another.
use lidofinance_lido_council.Shared.{◌≡◌, ◌⊎◌, inl, inr, refl, ℕ, some, List, [], ◌∷◌}
use lidofinance_lido_council.Outcome.{ok}
use lidofinance_lido_council.KeysApi.{SrModuleKeysResponse, get_unused_module_keys}
use lidofinance_lido_council.StakingRouter.{RouterCache}
use lidofinance_lido_council.StakingRouter.Known.{Known, IsKnownCache}
use lidofinance_lido_council.Messages.{Published}
use lidofinance_lido_council.Messages.Publishing.{Adds, Adds-refl, Adds-map, Adds-trans}
use lidofinance_lido_council.Deposit.{Deposits}
use lidofinance_lido_council.Security.{PauseTransaction, pause_settled}
use lidofinance_lido_council.Guardian.State.{Daemon, GuardianEnv}
use lidofinance_lido_council.Shared.{Occurs}
use lidofinance_lido_council.Guardian.Cycle.{handle_new_block}
use lidofinance_lido_council.Guardian.Cycle.Announced.{
  IsAnnounced, IsCommanded, handle_new_block-Announces,
}
use lidofinance_lido_council.Guardian.Cycle.Safety.{KeepsEvents}
use lidofinance_lido_council.Guardian.Schedule.{
  Happening, job_fires, pause_settles, on_happening, subscribe_to_modules_updates,
}

-- What the keys service answered in some of the cycles, or the cache held before them.
abbrev pub WasAnsweredFrom : List Happening → RouterCache → Known
WasAnsweredFrom happenings cache id response =
    (cache id ≡ some response)
    ⊎ ((env : GuardianEnv) × Occurs (job_fires env) happenings
        × (get_unused_module_keys env.keys_api id ≡ ok response))

abbrev pub WasAnswered : List Happening → Daemon → Known
WasAnswered happenings d = WasAnsweredFrom happenings d.router

-- A message that some cycle announced, in the state that it met, and a pause that one commanded.
abbrev pub WasIn : List Happening → (Deposits → Type 0) → (GuardianEnv → Daemon → Type 0) → Type 0
WasIn happenings sound Claim =
    (env : GuardianEnv) × Occurs (job_fires env) happenings
    × (d : Daemon) × sound d.deposits.state
    × Claim env d

abbrev pub WasAnnounced : List Happening → Known → (Deposits → Type 0) → Published → Type 0
WasAnnounced happenings known sound p = WasIn happenings sound (λ env d. IsAnnounced env known d p)

abbrev pub WasCommanded : List Happening → Known → (Deposits → Type 0) → PauseTransaction → Type 0
WasCommanded happenings known sound t = WasIn happenings sound (λ env d. IsCommanded env known d t)

-- What the daemon publishes from one state to another was announced, and the pauses it starts were commanded.
abbrev pub Says : List Happening → Known → (Deposits → Type 0) → Daemon → Daemon → Type 0
Says happenings known sound d x =
    Adds (WasAnnounced happenings known sound) d.broker.published x.broker.published
    × Adds (WasCommanded happenings known sound) d.pausing.transactions x.pausing.transactions

module _ (all : List Happening) (known : Known) (sound : Deposits → Type 0)
    (answers : (env : GuardianEnv) (id : ℕ) (response : SrModuleKeysResponse)
      → Occurs (job_fires env) all
      → get_unused_module_keys env.keys_api id ≡ ok response
      → known id response)
    (keeps : (env : GuardianEnv)
      → Occurs (job_fires env) all
      → KeepsEvents env (λ deposits pausing. sound deposits)) where
  abbrev Said : Daemon → Daemon → Type 0
  Said d x = Says all known sound d x × IsKnownCache known x.router × sound x.deposits.state

  Says-refl : (d : Daemon) → Says all known sound d d
  Says-refl d = (
    Adds-refl (WasAnnounced all known sound) d.broker.published,
    Adds-refl (WasCommanded all known sound) d.pausing.transactions,
  )

  on_happening-Said :
      (h : Happening) (d : Daemon)
      → Occurs h all
      → IsKnownCache known d.router
      → sound d.deposits.state
      → Said d (on_happening h d)
  unfolding on_happening pause_settled
  on_happening-Said (job_fires env) d among ready history =
      let ((said, paused), kept, sound_after) =
        handle_new_block-Announces env known (λ id response. answers env id response among)
          (λ deposits pausing. sound deposits) (keeps env among) d ready history in
      let after : Daemon = (handle_new_block env d).1 in
      (
        (
          Adds-map (λ p announced. (env, among, d, history, announced)) d.broker.published
              after.broker.published said,
          Adds-map (λ t commanded. (env, among, d, history, commanded)) d.pausing.transactions
              after.pausing.transactions paused,
        ),
        kept,
        sound_after,
      )
  on_happening-Said pause_settles d among ready history = (Says-refl d, ready, history)

  updates-Said :
      (happenings : List Happening) (d : Daemon)
      → ((h : Happening) → Occurs h happenings → Occurs h all)
      → IsKnownCache known d.router
      → sound d.deposits.state
      → Said d (subscribe_to_modules_updates happenings d)
  unfolding subscribe_to_modules_updates
  updates-Said [] d within ready history = (Says-refl d, ready, history)
  updates-Said (h ∷ later) d within ready history =
      let first : Daemon = on_happening h d in
      let last : Daemon = subscribe_to_modules_updates later first in
      let ((said, paused), kept, sound_after) =
        on_happening-Said h d (within h (inl refl)) ready history in
      let ((more_said, more_paused), end, sound_end) =
        updates-Said later first (λ x o. within x (inr o)) kept sound_after in
      (
        (
          Adds-trans (WasAnnounced all known sound) d.broker.published first.broker.published
              last.broker.published said more_said,
          Adds-trans (WasCommanded all known sound) d.pausing.transactions
              first.pausing.transactions last.pausing.transactions paused more_paused,
        ),
        end,
        sound_end,
      )

-- In general, with a property of the cached events that the cycles keep.
pub updates-Says :
    (happenings : List Happening) (d : Daemon) (sound : Deposits → Type 0)
    → ((env : GuardianEnv)
        → Occurs (job_fires env) happenings
        → KeepsEvents env (λ deposits pausing. sound deposits))
    → sound d.deposits.state
    → Says happenings (WasAnswered happenings d) sound d (subscribe_to_modules_updates happenings d)
updates-Says happenings d sound keeps history =
    (updates-Said happenings (WasAnswered happenings d) sound
      (λ env id response among answered. inr (env, among, answered)) keeps happenings d (λ h o. o)
      (λ id response kept. inl kept) history).0

-- Whatever happens, everything that the daemon publishes was announced by one of its cycles: the
-- sender is a listed guardian; a deposit message is about a module that was not paused at the block
-- and whose unused keys have only deposits with Lido's credentials; a pause message is about one with
-- an attack; the fields and the signature are those of the block and of the module; and the keys are
-- an answer of the keys service. And every pause transaction that it sends goes to the security
-- contract of one of its cycles, for a module that was not paused at the block and had an attack, with
-- the block's number and the guardian's signature.
pub subscribe_to_modules_updates-Says :
    (happenings : List Happening) (d : Daemon)
    → Says happenings
        (WasAnswered happenings d)
        (λ deposits. Unit {0})
        d
        (subscribe_to_modules_updates happenings d)
subscribe_to_modules_updates-Says happenings d =
    updates-Says happenings d (λ deposits. Unit {0})
      (λ env among. record {
        updating = λ meta x h. tt;
        reading = λ meta x h. tt;
        pauses = λ repository block_number id signature deposits p h. tt;
      })
      tt
