-- ===== src/Guardian/Cycle/Safety.antt =====
-- What a whole cycle of src/guardian/guardian.service.ts adds to the broker's messages.
use mathlib.Core.Path.{subst}
use lidofinance_lido_council.Shared.{◌≡◌, sym, ◌∙◌, ℕ, String, Option, List, map}
use lidofinance_lido_council.Outcome.{Outcome, ok, continue_keeps}
use lidofinance_lido_council.Contracts.{Address}
use lidofinance_lido_council.KeysApi.{SrModule, SrModuleKeysResponse, get_unused_module_keys}
use lidofinance_lido_council.StakingRouter.Known.{Known, IsKnownCache}
use lidofinance_lido_council.Messages.{Published, Broker}
use lidofinance_lido_council.Messages.Publishing.{Adds, Adds-refl, Adds-map}
use lidofinance_lido_council.Deposit.{Deposits}
use lidofinance_lido_council.Security.{PauseTransaction, Pausing}
use lidofinance_lido_council.Guardian.State.{BlockData, StateMeta, Daemon, GuardianEnv}
use lidofinance_lido_council.Guardian.BlockGuard.{
  set_last_processed_state_meta, get_current_block_data,
}
use lidofinance_lido_council.Guardian.Message.{ping_message_broker}
use lidofinance_lido_council.Guardian.Cycle.{
  process_modules, process_block, process_state, update_deposits,
}
use lidofinance_lido_council.Guardian.Cycle.BlockRead.{
  IsBlock, get_current_block_data-others, get_current_block_data-pausing,
  get_current_block_data-IsBlock,
}
use lidofinance_lido_council.Guardian.Cycle.Claims.{KeepsPausing, IsReady, IsTrue, IsTruePause}
use lidofinance_lido_council.Guardian.Cycle.Steps.{Speaks, Speaks-trans}
use lidofinance_lido_council.Guardian.Cycle.Modules.{
  process_modules-Speaks, ping_message_broker-Speaks,
}

-- The two steps of a cycle that read the deposits keep the property of the cached events.
pub record KeepsEvents (env : GuardianEnv) (sound : Deposits → Pausing → Type 0) : Type 0 where
  pub updating :
      (meta : StateMeta) (d : Daemon)
      → sound d.deposits.state d.pausing
      → sound (update_deposits env meta d).1.deposits.state d.pausing
  pub reading :
      (meta : StateMeta) (d : Daemon)
      → sound d.deposits.state d.pausing
      → sound
          (get_current_block_data env meta d).1.deposits.state
          (get_current_block_data env meta d).1.pausing
  pub pauses : KeepsPausing sound

module _ (env : GuardianEnv) (contracts : String → Option Address) (known : Known)
    (sound : Deposits → Pausing → Type 0) (modules : List SrModule)
    (answers : (id : ℕ) (response : SrModuleKeysResponse)
      → get_unused_module_keys env.keys_api id ≡ ok response
      → known id response)
    (keeps : KeepsEvents env sound) where
  process_block-Speaks :
      (meta : StateMeta) (b : BlockData) (d : Daemon)
      → b.block_hash ≡ meta.block_hash
      → IsReady contracts known sound d
      → Speaks env contracts known sound modules b d (process_block env meta modules b d).1
  unfolding process_block set_last_processed_state_meta
  process_block-Speaks meta b d at_block ready =
      continue_keeps Q _ processed.0 processed.1 said (λ _ _.
        continue_keeps Q _ pinged.0 pinged.1 pinged_said (λ _ _. (
          pinged_said.0,
          record {
            contracts_kept = pinged_said.1.contracts_kept;
            keys_known = pinged_said.1.keys_known;
            events_sound = pinged_said.1.events_sound;
          },
        )))
    where
      Q : Daemon → Type 0
      Q = Speaks env contracts known sound modules b d

      processed : Outcome (Unit {0}) × Daemon
      processed = process_modules env meta b modules d

      said : Q processed.1
      said =
          process_modules-Speaks env contracts known sound modules b keeps.pauses answers meta
            at_block modules d (λ s h. h) ready

      pinged : Outcome (Unit {0}) × Daemon
      pinged = ping_message_broker env (map (λ (s : SrModule). s.id) modules) b processed.1

      pinged_said : Q pinged.1
      pinged_said = Speaks-trans env contracts known sound modules b d processed.1 pinged.1 said (
          ping_message_broker-Speaks env contracts known sound modules b keeps.pauses processed.1
            said.1)

  -- A claim that the cycle makes of the block that the daemon reads after `d`.
  abbrev pub IsSoAfter : StateMeta → Daemon → (BlockData → Type 0) → Type 0
  IsSoAfter meta d Claim =
      (b : BlockData) × IsBlock env meta (update_deposits env meta d).1 b × Claim b

  abbrev IsTrueAfter : StateMeta → Daemon → Published → Type 0
  IsTrueAfter meta d p = IsSoAfter meta d (λ b. IsTrue env contracts known modules b p)

  abbrev IsTruePauseAfter : StateMeta → Daemon → PauseTransaction → Type 0
  IsTruePauseAfter meta d t = IsSoAfter meta d (λ b. IsTruePause env contracts known modules b t)

  -- What the rest of a cycle says, and what it keeps
  abbrev Says : StateMeta → Daemon → Broker → Pausing → Daemon → Type 0
  Says meta d broker pausing x =
      Adds (IsTrueAfter meta d) broker.published x.broker.published
      × Adds (IsTruePauseAfter meta d) pausing.transactions x.pausing.transactions

  abbrev pub Keeps : StateMeta → Daemon → Daemon → Type 0
  Keeps meta d x = Says meta d d.broker d.pausing x × IsReady contracts known sound x

  Says-refl : (meta : StateMeta) (d : Daemon) → Says meta d d.broker d.pausing d
  Says-refl meta d = (
    Adds-refl (IsTrueAfter meta d) d.broker.published,
    Adds-refl (IsTruePauseAfter meta d) d.pausing.transactions,
  )

  pub process_state-Keeps :
      (meta : StateMeta) (d : Daemon)
      → IsReady contracts known sound d
      → Keeps meta d (process_state env meta modules d).1
  unfolding process_state
  process_state-Keeps meta d ready =
      continue_keeps (Keeps meta d) _ (update_deposits env meta d).0 updated
        (Says-refl meta d, updated_ready)
        (λ _ _.
          continue_keeps (Keeps meta d) (process_block env meta modules) read.0 read.1
            (
              of_reading read.1 (
                Adds-refl (IsTrueAfter meta d) read.1.broker.published,
                Adds-refl (IsTruePauseAfter meta d) read.1.pausing.transactions,
              ),
              read_ready,
            )
            (λ b got.
              let block : IsBlock env meta updated b =
                get_current_block_data-IsBlock env meta updated b got in
              let ((said, paused), kept) =
                process_block-Speaks meta b read.1 block.hash read_ready in
              let after : Daemon = (process_block env meta modules b read.1).1 in
              (
                of_reading after (
                  Adds-map (λ p t. (b, block, t)) read.1.broker.published after.broker.published
                      said,
                  Adds-map (λ p t. (b, block, t)) read.1.pausing.transactions
                      after.pausing.transactions paused,
                ),
                kept,
              )))
    where
      updated : Daemon
      updated = (update_deposits env meta d).1

      updated_ready : IsReady contracts known sound updated
      updated_ready = record {
        contracts_kept = ready.contracts_kept;
        keys_known = ready.keys_known;
        events_sound = keeps.updating meta d ready.events_sound;
      }

      read : Outcome BlockData × Daemon
      read = get_current_block_data env meta updated

      read_ready : IsReady contracts known sound read.1
      read_ready =
          let (_, router, repository) = get_current_block_data-others env meta updated in
          record {
            contracts_kept = repository ∙ ready.contracts_kept;
            keys_known = subst (IsKnownCache known) (sym router) ready.keys_known;
            events_sound = keeps.reading meta updated updated_ready.events_sound;
          }

      -- Reading the block says nothing.
      of_reading :
          (x : Daemon)
          → Says meta d read.1.broker read.1.pausing x
          → Says meta d d.broker d.pausing x
      of_reading x (said, paused) =
          let (broker, _, _) = get_current_block_data-others env meta updated in
          (
            subst (λ (a : Broker). Adds (IsTrueAfter meta d) a.published x.broker.published) broker
                said,
            subst
                (λ (a : Pausing).
                  Adds (IsTruePauseAfter meta d) a.transactions x.pausing.transactions)
                (get_current_block_data-pausing env meta updated) paused,
          )
