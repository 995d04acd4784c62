-- ===== src/Guardian/Cycle/Alarm.antt =====
-- A cycle of src/guardian/guardian.service.ts that meets an attack publishes the pause message.
use mathlib.Core.Path.{subst}
use lidofinance_lido_council.Shared.{
  ◌≡◌, inl, inr, refl, sym, ap, ◌∙◌, ℕ, String, Option, some, true, List, [], ◌∷◌, map,
}
use lidofinance_lido_council.Outcome.{Outcome, ok, continue_keeps, both}
use lidofinance_lido_council.Contracts.{Address}
use lidofinance_lido_council.KeysApi.{
  SrModule, SrModuleKeysResponse, SrModuleListResponse, get_unused_module_keys,
}
use lidofinance_lido_council.StakingRouter.{get_staking_modules}
use lidofinance_lido_council.Deposit.{VerifiedDepositEvent}
use lidofinance_lido_council.Guardian.State.{
  BlockData, StateMeta, StakingModuleData, Daemon, GuardianEnv,
}
use lidofinance_lido_council.Guardian.BlockGuard.{
  is_need_to_process_new_state, set_last_processed_state_meta, get_current_block_data,
}
use lidofinance_lido_council.Guardian.Message.{ping_message_broker}
use lidofinance_lido_council.Guardian.Metrics.{collect_metrics}
use lidofinance_lido_council.Guardian.ModuleGuard.{
  check_keys_intersections, get_staking_router_module_data,
}
use lidofinance_lido_council.Shared.{Occurs}
use lidofinance_lido_council.Guardian.ModuleGuard.Intersections.{IsAttack}
use lidofinance_lido_council.Guardian.Cycle.{
  process_module, process_modules, process_block, process_state, process_if_new, run_cycle,
  handle_new_block, meta_of, update_deposits,
}
use lidofinance_lido_council.Guardian.Cycle.Claims.{AnyState, KeepsPausing, IsReady}
use lidofinance_lido_council.Guardian.Cycle.Steps.{Speaks}
use lidofinance_lido_council.Guardian.Cycle.Reading.{get_staking_router_module_data-Speaks}
use lidofinance_lido_council.Guardian.Cycle.Modules.{
  process_module-Speaks, process_modules-Speaks, ping_message_broker-Speaks,
}
use lidofinance_lido_council.Guardian.Cycle.Announced.{initialised, handle_new_block-run_cycle}
use lidofinance_lido_council.Guardian.Cycle.BlockRead.{
  IsBlock, get_current_block_data-IsBlock, get_current_block_data-others,
}
use lidofinance_lido_council.Guardian.Cycle.Attacked.{
  active_module, Only, IsServed, HasPause, Occurs-more, get_staking_router_module_data-active,
  check_keys_intersections-HasPause,
}

module _ (env : GuardianEnv) (contracts : String → Option Address) (modules : List SrModule)
    (meta : StateMeta) (b : BlockData) (s : SrModule) (response : SrModuleKeysResponse)
    (wc topic : String) (served : IsServed env contracts b s response wc topic)
    (at_block : b.block_hash ≡ meta.block_hash) (e : VerifiedDepositEvent)
    (attack : IsAttack (active_module s response b.block_hash) b wc e) where
  any_pause : KeepsPausing AnyState
  any_pause repository n id signature deposits p h = tt

  abbrev Alarmed : Daemon → Type 0
  Alarmed x = HasPause env b (active_module s response b.block_hash) topic x.broker.published

  answers-Only :
      (id : ℕ) (other : SrModuleKeysResponse)
      → get_unused_module_keys env.keys_api id ≡ ok other
      → Only s response id other
  answers-Only id other answer same =
      cc (ap (get_unused_module_keys env.keys_api) same, answer, served.keys)

  -- An alarm is not taken back by what is said later.
  Alarmed-Speaks :
      (x y : Daemon)
      → Speaks env contracts (Only s response) AnyState modules b x y
      → Alarmed x
      → Alarmed y
  Alarmed-Speaks x y (((added, more, _), _), _) (signature, occurs) =
      (signature, subst (Occurs _) (sym more) (Occurs-more _ x.broker.published added occurs))

  process_module-Alarmed :
      (d : Daemon)
      → IsReady contracts (Only s response) AnyState d
      → Alarmed (process_module env meta b s d).1
  unfolding process_module collect_metrics
  process_module-Alarmed d ready = rw read (
      continue_keeps Alarmed (λ _. collect_metrics m b)
        (check_keys_intersections env m b reading.1).0
        (check_keys_intersections env m b reading.1).1 alarmed (λ _ _. alarmed))
    where
      m : StakingModuleData
      m = active_module s response b.block_hash

      reading : Outcome StakingModuleData × Daemon
      reading = get_staking_router_module_data env s meta.block_hash d

      read : reading.0 ≡ ok m
      read =
          subst (λ h. (get_staking_router_module_data env s h d).0 ≡ ok m) at_block
            (get_staking_router_module_data-active env contracts AnyState b s response wc topic
              served d ready)

      alarmed : Alarmed (check_keys_intersections env m b reading.1).1
      alarmed =
          check_keys_intersections-HasPause env contracts AnyState b s response wc topic served e
            reading.1 attack
            (get_staking_router_module_data-Speaks env contracts (Only s response) AnyState modules
              answers-Only b s meta.block_hash d ready).1.contracts_kept

  process_modules-Alarmed :
      (listed : List SrModule) (d : Daemon)
      → ((x : SrModule) → Occurs x listed → Occurs x modules)
      → Occurs s listed
      → IsReady contracts (Only s response) AnyState d
      → Alarmed (process_modules env meta b listed d).1
  unfolding process_modules
  process_modules-Alarmed [] d within never ready = absurd never
  process_modules-Alarmed (x ∷ rest) d within occurs ready =
      let first : Daemon = (process_module env meta b x d).1 in
      let ready_after : IsReady contracts (Only s response) AnyState first =
        (process_module-Speaks env contracts (Only s response) AnyState modules b any_pause
          answers-Only meta at_block x d (within x (inl refl)) ready).1 in
      let alarmed : Alarmed (process_modules env meta b rest first).1 = elim occurs [
        | inl here ↦
            Alarmed-Speaks first (process_modules env meta b rest first).1
              (process_modules-Speaks env contracts (Only s response) AnyState modules b any_pause
                answers-Only meta at_block rest first (λ y o. within y (inr o)) ready_after)
              (subst (λ y. Alarmed (process_module env meta b y d).1) (sym here)
                (process_module-Alarmed d ready))
        | inr later ↦ process_modules-Alarmed rest first (λ y o. within y (inr o)) later ready_after
      ] in
      continue_keeps Alarmed _
        (both (process_module env meta b x) (process_modules env meta b rest) d).0
        (process_modules env meta b rest first).1 alarmed (λ _ _. alarmed)

  pub process_block-Alarmed :
      (d : Daemon)
      → Occurs s modules
      → IsReady contracts (Only s response) AnyState d
      → Alarmed (process_block env meta modules b d).1
  unfolding process_block set_last_processed_state_meta
  process_block-Alarmed d listed ready =
      continue_keeps Alarmed _ processed.0 processed.1 alarmed
        (λ _ _. continue_keeps Alarmed _ pinged.0 pinged.1 pinged_alarmed (λ _ _. pinged_alarmed))
    where
      processed : Outcome (Unit {0}) × Daemon
      processed = process_modules env meta b modules d

      alarmed : Alarmed processed.1
      alarmed = process_modules-Alarmed modules d (λ y o. o) listed ready

      pinged : Outcome (Unit {0}) × Daemon
      pinged = ping_message_broker env (map (λ (x : SrModule). x.id) modules) b processed.1

      pinged_alarmed : Alarmed pinged.1
      pinged_alarmed =
          Alarmed-Speaks processed.1 pinged.1
            (ping_message_broker-Speaks env contracts (Only s response) AnyState modules b any_pause
              processed.1
              (process_modules-Speaks env contracts (Only s response) AnyState modules b any_pause
                answers-Only meta at_block modules d (λ y o. o) ready).1)
            alarmed

-- The cycle that begins in `d` lists these modules at a new block, finds the contracts, and reads the
-- data of the block.
pub record IsUnderWay (env : GuardianEnv) (d : Daemon) (listed : SrModuleListResponse)
    (b : BlockData) : Type 0 where
  pub ended : Option (Unit {0})
  pub modules : get_staking_modules env.keys_api ≡ ok listed
  pub found : (initialised env listed d).0 ≡ ok tt
  pub needed : is_need_to_process_new_state d.last_processed_state_meta (meta_of env listed) ≡ true
  pub updates : (update_deposits env (meta_of env listed) (initialised env listed d).1).0 ≡ ok ended
  pub read :
      (get_current_block_data env
        (meta_of env listed)
        (update_deposits env (meta_of env listed) (initialised env listed d).1).1).0
      ≡ ok b

module _ (env : GuardianEnv) where
  abbrev pub contracts_of : SrModuleListResponse → Daemon → String → Option Address
  contracts_of listed d = (initialised env listed d).1.repository.temp_contracts_cache

  -- A cycle is under way, the check of a listed module has what it needs, and no other keys are cached
  -- for it. If a deposit is an attack on it, then the broker has a message that asks to pause the module at
  -- this block, whatever happens to the checks of the other modules.
  pub handle_new_block-HasPause :
      (d : Daemon) (listed : SrModuleListResponse) (b : BlockData) (s : SrModule)
      (response : SrModuleKeysResponse) (wc topic : String) (e : VerifiedDepositEvent)
      → IsUnderWay env d listed b
      → Occurs s listed.content
      → IsServed env (contracts_of listed d) b s response wc topic
      → ((kept : SrModuleKeysResponse) → d.router s.id ≡ some kept → kept ≡ response)
      → IsAttack (active_module s response b.block_hash) b wc e
      → HasPause env b
          (active_module s response b.block_hash)
          topic
          (handle_new_block env d).1.broker.published
  unfolding run_cycle process_if_new process_state
  handle_new_block-HasPause d listed b s response wc topic e cycle among served only attack =
      rw
        (
          handle_new_block-run_cycle env d,
          cycle.modules,
          cycle.found,
          cycle.needed,
          cycle.updates,
          cycle.read,
        )
        (process_block-Alarmed env (contracts_of listed d) listed.content meta b s response wc topic
          served block.hash e attack read.1 among
          (let (_, router, repository) = get_current_block_data-others env meta updated in
            record {
              contracts_kept = repository;
              keys_known = λ id kept cached same.
                  only kept
                    (ap (λ i. d.router i) (sym same) ∙ ap (λ r. r id) (sym router) ∙ cached);
              events_sound = tt;
            }))
    where
      meta : StateMeta
      meta = meta_of env listed

      updated : Daemon
      updated = (update_deposits env meta (initialised env listed d).1).1

      read : Outcome BlockData × Daemon
      read = get_current_block_data env meta updated

      block : IsBlock env meta updated b
      block = get_current_block_data-IsBlock env meta updated b cycle.read
