-- ===== src/Guardian/Cycle/Frame.antt =====
-- What the steps of a cycle leave alone: the block that was processed last is written at the end only.
use lidofinance_lido_council.Shared.{ℕ, ◌≡◌, refl, String, Option, some, List, [], ◌∷◌, arith}
use lidofinance_lido_council.Outcome.{ok}
use lidofinance_lido_council.KeysApi.{SrModule}
use lidofinance_lido_council.Deposit.{VerifiedDepositEvent}
use lidofinance_lido_council.Messages.{MessageData}
use lidofinance_lido_council.Guardian.State.{
  BlockData, StateMeta, StakingModuleData, Daemon, GuardianEnv,
}
use lidofinance_lido_council.Guardian.BlockGuard.{
  get_current_block_data, set_last_processed_state_meta,
}
use lidofinance_lido_council.Guardian.Message.{
  send_message_from_guardian, send_deposit_message, send_pause_message, ping_message_broker,
}
use lidofinance_lido_council.Guardian.Metrics.{collect_metrics, collect_intersections_metrics}
use lidofinance_lido_council.Guardian.ModuleGuard.{
  get_staking_router_module_data, exclude_eligible_intersections, get_keys_intersections,
  handle_keys_intersections, handle_correct_keys, act_on_intersections, check_keys_intersections,
}
use lidofinance_lido_council.Guardian.Cycle.{
  process_module, process_modules, process_block, process_state,
}

abbrev pub last_meta : Daemon → Option StateMeta
last_meta d = d.last_processed_state_meta

module _ (env : GuardianEnv) where
  meta-get_staking_router_module_data :
      (m : SrModule) (h : String) (d : Daemon)
      → last_meta (get_staking_router_module_data env m h d).1 ≡ last_meta d
  unfolding get_staking_router_module_data
  meta-get_staking_router_module_data m h d = ground arith

  meta-send_message_from_guardian :
      (message : MessageData) (d : Daemon)
      → last_meta (send_message_from_guardian env message d).1 ≡ last_meta d
  unfolding send_message_from_guardian
  meta-send_message_from_guardian message d = ground arith

  pub meta-ping_message_broker :
      (ids : List ℕ) (b : BlockData) (d : Daemon)
      → last_meta (ping_message_broker env ids b d).1 ≡ last_meta d
  unfolding ping_message_broker
  meta-ping_message_broker ids b d = ground arith

  meta-handle_correct_keys :
      (m : StakingModuleData) (b : BlockData) (d : Daemon)
      → last_meta (handle_correct_keys env m b d).1 ≡ last_meta d
  unfolding handle_correct_keys send_deposit_message
  meta-handle_correct_keys m b d = ground arith

  meta-handle_keys_intersections :
      (m : StakingModuleData) (b : BlockData) (d : Daemon)
      → last_meta (handle_keys_intersections env m b d).1 ≡ last_meta d
  unfolding handle_keys_intersections send_pause_message
  meta-handle_keys_intersections m b d = ground arith

  meta-exclude_eligible_intersections :
      (b : BlockData) (events : List VerifiedDepositEvent) (d : Daemon)
      → last_meta (exclude_eligible_intersections env b events d).1 ≡ last_meta d
  unfolding exclude_eligible_intersections
  meta-exclude_eligible_intersections b events d = ground arith

  meta-act_on_intersections :
      (m : StakingModuleData) (b : BlockData) (filtered : List VerifiedDepositEvent) (d : Daemon)
      → last_meta (act_on_intersections env m b filtered d).1 ≡ last_meta d
  unfolding act_on_intersections collect_intersections_metrics
  meta-act_on_intersections m b [] d = ground (
    arith,
    meta-handle_correct_keys m b
        (collect_intersections_metrics m.staking_module_id (get_keys_intersections m b) [] d).1,
  )
  meta-act_on_intersections m b (e ∷ es) d = ground (
    arith,
    meta-handle_keys_intersections m b
        (collect_intersections_metrics m.staking_module_id (get_keys_intersections m b) (e ∷ es)
          d).1,
  )

  meta-check_keys_intersections :
      (m : StakingModuleData) (b : BlockData) (d : Daemon)
      → last_meta (check_keys_intersections env m b d).1 ≡ last_meta d
  unfolding check_keys_intersections
  meta-check_keys_intersections m b d =
      grind (arith, meta-exclude_eligible_intersections, meta-act_on_intersections)

  meta-collect_metrics :
      (m : StakingModuleData) (b : BlockData) (d : Daemon)
      → last_meta (collect_metrics m b d).1 ≡ last_meta d
  unfolding collect_metrics
  meta-collect_metrics m b d = ground arith

  meta-process_module :
      (m : StateMeta) (b : BlockData) (s : SrModule) (d : Daemon)
      → last_meta (process_module env m b s d).1 ≡ last_meta d
  unfolding process_module
  meta-process_module m b s d = grind (
    arith, meta-get_staking_router_module_data, meta-check_keys_intersections, meta-collect_metrics,
  )

  meta-process_modules :
      (m : StateMeta) (b : BlockData) (modules : List SrModule) (d : Daemon)
      → last_meta (process_modules env m b modules d).1 ≡ last_meta d
  unfolding process_modules
  meta-process_modules m b [] d = refl
  meta-process_modules m b (s ∷ modules) d = grind (
    arith,
    meta-process_module m b s d,
    meta-process_modules m b modules (process_module env m b s d).1,
  )

  meta-get_current_block_data :
      (m : StateMeta) (d : Daemon) → last_meta (get_current_block_data env m d).1 ≡ last_meta d
  unfolding get_current_block_data
  meta-get_current_block_data m d = ground arith

  meta-process_block :
      (m : StateMeta) (modules : List SrModule) (b : BlockData) (d : Daemon)
      → last_meta (process_block env m modules b d).1
        ≡ elim (process_block env m modules b d).0 [ ok _ ↦ some m | _ ↦ last_meta d ]
  unfolding process_block set_last_processed_state_meta
  meta-process_block m modules b d = grind (arith, meta-process_modules, meta-ping_message_broker)

  -- A cycle that does not end well leaves the last processed block; one that does sets it.
  pub meta-process_state :
      (m : StateMeta) (modules : List SrModule) (d : Daemon)
      → last_meta (process_state env m modules d).1
        ≡ elim (process_state env m modules d).0 [ ok _ ↦ some m | _ ↦ last_meta d ]
  unfolding process_state
  meta-process_state m modules d = grind (arith, meta-get_current_block_data, meta-process_block)
