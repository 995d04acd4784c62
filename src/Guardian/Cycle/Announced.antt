-- ===== src/Guardian/Cycle/Announced.antt =====
-- What the daemon announces in a cycle: `handleNewBlock` of src/guardian/guardian.service.ts.
use mathlib.Core.Path.{subst}
use lidofinance_lido_council.Shared.{
  ◌≡◌, inl, inr, refl, sym, ℕ, true, Bool-cases, arith, String, Option, List,
}
use lidofinance_lido_council.Contracts.{Address}
use lidofinance_lido_council.Outcome.{Outcome, ok, continue_keeps}
use lidofinance_lido_council.KeysApi.{
  SrModule, SrModuleKeysResponse, SrModuleListResponse, get_unused_module_keys,
}
use lidofinance_lido_council.StakingRouter.{get_staking_modules}
use lidofinance_lido_council.StakingRouter.Known.{Known, IsKnownCache}
use lidofinance_lido_council.Repository.{init_cached_contracts}
use lidofinance_lido_council.Messages.{Published}
use lidofinance_lido_council.Messages.Publishing.{Adds, Adds-refl, Adds-map}
use lidofinance_lido_council.Deposit.{Deposits}
use lidofinance_lido_council.Security.{PauseTransaction, Pausing}
use lidofinance_lido_council.Guardian.State.{BlockData, Daemon, GuardianEnv, on_repository}
use lidofinance_lido_council.Guardian.BlockGuard.{is_need_to_process_new_state}
use lidofinance_lido_council.Guardian.Cycle.{
  process_if_new, run_cycle, handle_new_block, meta_of, update_deposits,
}
use lidofinance_lido_council.Guardian.Cycle.BlockRead.{IsBlock}
use lidofinance_lido_council.Guardian.Cycle.Claims.{IsTrue, IsTruePause}
use lidofinance_lido_council.Guardian.Cycle.Safety.{KeepsEvents, process_state-Keeps}

module _ (env : GuardianEnv) where
  -- The daemon once the contracts are initialised at the block of the response.
  abbrev pub initialised : SrModuleListResponse → Daemon → Outcome (Unit {0}) × Daemon
  initialised response d =
      on_repository
        (init_cached_contracts env.security.repository response.el_block_snapshot.block_hash) d

  -- A claim of the cycle that begins in `d`: it is about the block of the listed modules, as the
  -- contracts that the locator gave at this block, the keys service and the deposits tell it.
  pub record IsClaimed (d : Daemon)
      (Claim : (String → Option Address) → List SrModule → BlockData → Type 0) : Type 0 where
    pub response : SrModuleListResponse
    pub b : BlockData
    pub listed : get_staking_modules env.keys_api ≡ ok response
    pub contracts_found : (initialised response d).0 ≡ ok tt
    pub needed :
        is_need_to_process_new_state d.last_processed_state_meta (meta_of env response) ≡ true
    pub block :
        IsBlock env
          (meta_of env response)
          (update_deposits env (meta_of env response) (initialised response d).1).1
          b
    pub claim : Claim (initialised response d).1.repository.temp_contracts_cache response.content b

  -- A message of the cycle that begins in `d`, and a pause transaction of it
  abbrev pub IsAnnounced : Known → Daemon → Published → Type 0
  IsAnnounced known d p =
      IsClaimed d (λ contracts modules b. IsTrue env contracts known modules b p)

  abbrev pub IsCommanded : Known → Daemon → PauseTransaction → Type 0
  IsCommanded known d t =
      IsClaimed d (λ contracts modules b. IsTruePause env contracts known modules b t)

  -- A failure is logged, and leaves the state as it was then.
  pub handle_new_block-run_cycle : (d : Daemon) → (handle_new_block env d).1 ≡ (run_cycle env d).1
  unfolding handle_new_block
  handle_new_block-run_cycle d = ground arith

  claimed :
      {Claim : (String → Option Address) → List SrModule → BlockData → Type 0}
      (response : SrModuleListResponse) (d : Daemon)
      → get_staking_modules env.keys_api ≡ ok response
      → (initialised response d).0 ≡ ok tt
      → is_need_to_process_new_state d.last_processed_state_meta (meta_of env response) ≡ true
      → (b : BlockData) × IsBlock env
          (meta_of env response)
          (update_deposits env (meta_of env response) (initialised response d).1).1
          b
        × Claim (initialised response d).1.repository.temp_contracts_cache response.content b
      → IsClaimed d Claim
  claimed response d listed found new (b, block, claim) = record {
    response = response;
    b = b;
    listed = listed;
    contracts_found = found;
    needed = new;
    block = block;
    claim = claim;
  }

  module _ (known : Known)
      (answers : (id : ℕ) (response : SrModuleKeysResponse)
        → get_unused_module_keys env.keys_api id ≡ ok response
        → known id response)
      (sound : Deposits → Pausing → Type 0) (keeps : KeepsEvents env sound) where
    abbrev pub Announces : Daemon → Daemon → Type 0
    Announces d x =
        (Adds (IsAnnounced known d) d.broker.published x.broker.published
          × Adds (IsCommanded known d) d.pausing.transactions x.pausing.transactions)
        × IsKnownCache known x.router
        × sound x.deposits.state x.pausing

    announces_nothing :
        (d : Daemon)
        → Adds (IsAnnounced known d) d.broker.published d.broker.published
          × Adds (IsCommanded known d) d.pausing.transactions d.pausing.transactions
    announces_nothing d = (
      Adds-refl (IsAnnounced known d) d.broker.published,
      Adds-refl (IsCommanded known d) d.pausing.transactions,
    )

    process_if_new-Announces :
        (response : SrModuleListResponse) (d : Daemon)
        → get_staking_modules env.keys_api ≡ ok response
        → (initialised response d).0 ≡ ok tt
        → IsKnownCache known d.router
        → sound d.deposits.state d.pausing
        → Announces d
            (process_if_new env
              (meta_of env response)
              response.content
              (initialised response d).1).1
    unfolding process_if_new
    process_if_new-Announces response d listed found ready history =
        elim (Bool-cases
          (is_need_to_process_new_state d.last_processed_state_meta (meta_of env response))) [
            | inl new ↦ rw new (
                let ((said, paused), kept) =
                  process_state-Keeps env (initialised response d).1.repository.temp_contracts_cache
                    known sound response.content answers keeps (meta_of env response)
                    (initialised response d).1
                    (record {
                      contracts_kept = refl;
                      keys_known = ready;
                      events_sound = history;
                    }) in
                (
                  (
                    Adds-map (λ p so. claimed response d listed found new so) d.broker.published _
                        said,
                    Adds-map (λ t so. claimed response d listed found new so) d.pausing.transactions
                        _ paused,
                  ),
                  kept.keys_known,
                  kept.events_sound,
                ))
            | inr old ↦ rw old (announces_nothing d, ready, history)
          ]

    run_cycle-Announces :
        (d : Daemon)
        → IsKnownCache known d.router
        → sound d.deposits.state d.pausing
        → Announces d (run_cycle env d).1
    unfolding run_cycle
    run_cycle-Announces d ready history =
        continue_keeps (Announces d) _ (get_staking_modules env.keys_api) d
          (announces_nothing d, ready, history)
          (λ response listed.
            continue_keeps (Announces d)
              (λ _. process_if_new env (meta_of env response) response.content)
              (initialised response d).0 (initialised response d).1
              (announces_nothing d, ready, history)
              (λ _ found. process_if_new-Announces response d listed found ready history))

    -- What a cycle publishes, however its calls end, are announcements of that cycle, the pauses that it
    -- starts are commanded by it, and the keys that the cache holds are still answers of the keys service.
    pub handle_new_block-Announces :
        (d : Daemon)
        → IsKnownCache known d.router
        → sound d.deposits.state d.pausing
        → Announces d (handle_new_block env d).1
    handle_new_block-Announces d ready history =
        subst (Announces d) (sym (handle_new_block-run_cycle d))
          (run_cycle-Announces d ready history)
