-- ===== src/Guardian/Schedule/History.antt =====
-- The whole life of the daemon of src/guardian/guardian.service.ts over a chain whose node is honest:
-- what is announced takes all deposits of the chain into account.
use mathlib.Core.Path.{subst}
use lidofinance_lido_council.Shared.{◌≢◌, some, true, ◌≡◌, sym, ap, ◌∙◌, String, List, Option}
use lidofinance_lido_council.Outcome.{Outcome}
use lidofinance_lido_council.Provider.BlockLog.{BlockLog, upto}
use lidofinance_lido_council.Repository.{get_cached_deposit_contract}
use lidofinance_lido_council.Deposit.{
  VerifiedDepositEvent, VerifiedDepositEventsCache, DepositEventEvent,
}
use lidofinance_lido_council.Deposit.History.{
  IsStored, IsHonest, contract-IsHonest, handle_new_block-IsStored,
  get_all_deposited_events-IsStored, get_all_deposited_events-upto,
}
use lidofinance_lido_council.Messages.{Published, Broker}
use lidofinance_lido_council.Security.{PauseTransaction, Pausing}
use lidofinance_lido_council.Contracts.{Address}
use lidofinance_lido_council.Guardian.Cycle.Claims.{IsTrue, IsTruePause}
use lidofinance_lido_council.Messages.Publishing.{Adds, Adds-map}
use lidofinance_lido_council.StakingRouter.Known.{Known}
use lidofinance_lido_council.Guardian.State.{BlockData, Daemon, GuardianEnv, StateMeta, deposit_env}
use lidofinance_lido_council.Shared.{Occurs}
use lidofinance_lido_council.Guardian.Cycle.{handle_new_block, update_deposits, meta_of}
use lidofinance_lido_council.Guardian.Cycle.BlockRead.{
  IsBlock, get_current_block_data-IsBlock, get_current_block_data-deposits,
}
use lidofinance_lido_council.Guardian.Cycle.Safety.{KeepsEvents}
use lidofinance_lido_council.Guardian.Cycle.Announced.{IsClaimed, initialised}
use lidofinance_lido_council.KeysApi.{SrModule, SrModuleKeysResponse, SrModuleListResponse}
use lidofinance_lido_council.Guardian.Cycle.Attacked.{active_module, IsServed, HasPause}
use lidofinance_lido_council.Guardian.Cycle.Alarm.{
  IsUnderWay, contracts_of, handle_new_block-HasPause,
}
use lidofinance_lido_council.Guardian.Schedule.{Happening, job_fires, subscribe_to_modules_updates}
use lidofinance_lido_council.Guardian.Schedule.Safety.{WasAnswered, updates-Says}

module _ (raw : BlockLog DepositEventEvent) (log : BlockLog VerifiedDepositEvent) (file : String)
    (parse : String → Outcome VerifiedDepositEventsCache) where
  module _ (env : GuardianEnv) (honest : IsHonest raw log file parse env.deposit) where
    pub asked-IsHonest : (d : Daemon) → IsHonest raw log file parse (deposit_env env d)
    asked-IsHonest d =
        contract-IsHonest raw log file parse env.deposit (get_cached_deposit_contract d.repository)
          honest

    keeps-IsStored : KeepsEvents env (λ deposits pausing. IsStored log file parse deposits)
    keeps-IsStored = record {
      updating = λ meta d kept.
          handle_new_block-IsStored raw log file parse (deposit_env env d) (asked-IsHonest d)
            meta.block_number d.deposits kept;
      reading = λ meta d kept.
          subst (IsStored log file parse) (sym (get_current_block_data-deposits env meta d)) (
            get_all_deposited_events-IsStored raw log file parse (deposit_env env d)
              (asked-IsHonest d) meta.block_number meta.block_hash d.deposits.state kept);
      pauses = λ repository block_number id signature deposits p kept. kept;
    }

    -- The data of a block hold all deposits of the chain up to the block.
    block-upto :
        (meta : StateMeta) (d : Daemon) (b : BlockData)
        → IsStored log file parse d.deposits.state
        → IsBlock env meta (update_deposits env meta d).1 b
        → b.deposited_events.events ≡ upto log b.block_number
    block-upto meta d b kept block =
        let updated : Daemon = (update_deposits env meta d).1 in
        get_all_deposited_events-upto raw log file parse (deposit_env env updated)
          (asked-IsHonest updated) meta.block_number meta.block_hash updated.deposits.state
          b.deposited_events (keeps-IsStored.updating meta d kept) block.events
        ∙ ap (upto log) (sym block.number)

    claimed-upto :
        (Claim : (String → Option Address) → List SrModule → BlockData → Type 0) (d : Daemon)
        → IsStored log file parse d.deposits.state
        → (a : IsClaimed env d Claim) → a.b.deposited_events.events ≡ upto log a.b.block_number
    claimed-upto Claim d kept a =
        block-upto (meta_of env a.response) (initialised env a.response d).1 a.b kept a.block

    -- The node answers log queries honestly, the cache codec reads back what was written, and what is
    -- cached is complete. A cycle is under way that lists the module and reads the block, the check of
    -- the module has what it needs, and no other keys are cached for it. If the chain up to the block
    -- has a valid deposit with one of the module's unused keys and credentials that are not Lido's, then
    -- the cycle leaves the broker with a message that asks to pause the module at this block.
    pub handle_new_block-alarm :
        (d : Daemon) (listed : SrModuleListResponse) (b : BlockData) (s : SrModule)
        (response : SrModuleKeysResponse) (wc topic : String) (e : VerifiedDepositEvent)
        → IsStored log file parse d.deposits.state
        → IsUnderWay env d listed b
        → Occurs s listed.content
        → IsServed env (contracts_of env listed d) b s response wc topic
        → ((kept : SrModuleKeysResponse) → d.router s.id ≡ some kept → kept ≡ response)
        → Occurs e (upto log b.block_number)
        → Occurs e.pubkey (active_module s response b.block_hash).unused_keys
        → e.valid ≡ true
        → e.wc ≢ wc
        → HasPause env b
            (active_module s response b.block_hash)
            topic
            (handle_new_block env d).1.broker.published
    handle_new_block-alarm d listed b s response wc topic e kept cycle among served only deposited
          unused valid foreign =
        let meta : StateMeta = meta_of env listed in
        let ready : Daemon = (initialised env listed d).1 in
        let all : b.deposited_events.events ≡ upto log b.block_number =
          block-upto meta ready b kept (
            get_current_block_data-IsBlock env meta (update_deposits env meta ready).1 b
              cycle.read) in
        handle_new_block-HasPause env d listed b s response wc topic e cycle among served only
          (record {
            deposited = subst (Occurs e) (sym all) deposited;
            unused = unused;
            valid = valid;
            foreign = foreign;
          })

  -- A claim of a cycle that has all deposits of the chain before its eyes, of a message and of a pause
  -- transaction.
  abbrev pub WasClaimedOf :
      List Happening
      → (GuardianEnv → (String → Option Address) → List SrModule → BlockData → Type 0)
      → Type 0
  WasClaimedOf happenings Claim =
      (env : GuardianEnv) × Occurs (job_fires env) happenings
      × (d : Daemon) × (a : IsClaimed env d (Claim env)) × (a.b.deposited_events.events
          ≡ upto log a.b.block_number)

  abbrev pub WasAnnouncedOf : List Happening → Known → Published → Type 0
  WasAnnouncedOf happenings known p =
      WasClaimedOf happenings (λ env contracts modules b. IsTrue env contracts known modules b p)

  abbrev pub WasCommandedOf : List Happening → Known → PauseTransaction → Type 0
  WasCommandedOf happenings known t =
      WasClaimedOf happenings
        (λ env contracts modules b. IsTruePause env contracts known modules b t)

  -- What the daemon `x` has beyond the messages and pause transactions of before was so claimed.
  abbrev pub SaysOf : List Happening → Known → Broker → Pausing → Daemon → Type 0
  SaysOf happenings known broker pausing x =
      Adds (WasAnnouncedOf happenings known) broker.published x.broker.published
      × Adds (WasCommandedOf happenings known) pausing.transactions x.pausing.transactions

  -- In every cycle the node answers log queries honestly, the cache codec reads back what was written,
  -- and the cache file is the same; and at the start what is cached is complete. Then, whatever
  -- happens, everything that the daemon publishes was announced by one of its cycles, every pause
  -- transaction that it sends was commanded by one, and the deposits that the verdict was about are
  -- all deposits of the chain up to the block.
  pub subscribe_to_modules_updates_complete :
      (happenings : List Happening) (d : Daemon)
      → ((env : GuardianEnv)
          → Occurs (job_fires env) happenings
          → IsHonest raw log file parse env.deposit)
      → IsStored log file parse d.deposits.state
      → SaysOf happenings
          (WasAnswered happenings d)
          d.broker
          d.pausing
          (subscribe_to_modules_updates happenings d)
  subscribe_to_modules_updates_complete happenings d honest kept =
      let (said, paused) =
        updates-Says happenings d (IsStored log file parse)
          (λ env among. keeps-IsStored env (honest env among)) kept in
      let last : Daemon = subscribe_to_modules_updates happenings d in
      (
        Adds-map
            (λ p (env, among, x, history, a).
              (env, among, x, a, claimed-upto env (honest env among) _ x history a))
            d.broker.published last.broker.published said,
        Adds-map
            (λ t (env, among, x, history, a).
              (env, among, x, a, claimed-upto env (honest env among) _ x history a))
            d.pausing.transactions last.pausing.transactions paused,
      )
