-- ===== src/Guardian/BlockGuard.antt =====
-- src/guardian/block-guard/block-guard.service.ts.
use lidofinance_lido_council.Shared.{
  ◌+◌, String, Option, none, some, Bool, true, false, not, ltb, str_eq, if◌then◌else◌,
}
use lidofinance_lido_council.Shared.Int.{ℤ}
use lidofinance_lido_council.Outcome.{pure, raise, modify, ◌>>=◌, ◌>>◌, both, try_catch}
use lidofinance_lido_council.Security.{get_guardian_index, get_guardian_address}
use lidofinance_lido_council.Deposit.{
  VerifiedDepositEventGroup, get_deposit_root, get_all_deposited_events,
}
use lidofinance_lido_council.Guardian.State.{
  BlockData, StateMeta, GuardianEnv, Action, on_repository, on_events, deposit_env,
}

-- `isNeedToProcessNewState`
unfoldable pub is_need_to_process_new_state : Option StateMeta → StateMeta → Bool
is_need_to_process_new_state none new_meta = true
is_need_to_process_new_state (some last_meta) new_meta =
    if ltb new_meta.block_number last_meta.block_number
    then false
    else not (str_eq last_meta.block_hash new_meta.block_hash)

unfoldable pub set_last_processed_state_meta : StateMeta → Action (Unit {0})
set_last_processed_state_meta new_meta =
    modify (λ d. record d { last_processed_state_meta = some new_meta })

module _ (env : GuardianEnv) where
  abbrev pub read_deposit_root : StateMeta → Action String
  read_deposit_root m d = (get_deposit_root (deposit_env env d) m.block_hash, d)

  abbrev pub read_deposited_events : StateMeta → Action VerifiedDepositEventGroup
  read_deposited_events m d =
      on_events (get_all_deposited_events (deposit_env env d) m.block_number m.block_hash) d

  abbrev count_error : Action (Unit {0})
  count_error = modify (λ d. record d { block_data_errors = d.block_data_errors + 1 })

  -- `Promise.all` of the root, the events and the guardian's index
  abbrev pub read_contracts : StateMeta → Action (String × (VerifiedDepositEventGroup × ℤ))
  read_contracts m = both (read_deposit_root m) (
      both (read_deposited_events m) (on_repository (get_guardian_index env.security m.block_hash)))

  unfoldable pub get_current_block_data : StateMeta → Action BlockData
  get_current_block_data m =
      try_catch
        (do
          (deposit_root, (deposited_events, guardian_index)) ← read_contracts m
          pure (record {
            block_number = m.block_number;
            block_hash = m.block_hash;
            deposit_root = deposit_root;
            deposited_events = deposited_events;
            guardian_address = get_guardian_address env.security;
            guardian_index = guardian_index;
          }))
        (λ error. count_error >> raise error)
