-- ===== src/Guardian/ModuleGuard.antt =====
-- src/guardian/staking-module-guard/staking-module-guard.service.ts.
pub mod Intersections
pub mod Resigning
pub mod Messages
use lidofinance_lido_council.Shared.{
  ℕ, ◌/◌, ◌+◌, String, Option, none, some, Bool, true, false, not, ◌&&◌, List, [], ◌∷◌, map, length,
  filter, any, ltb, ◌==◌, str_eq, if◌then◌else◌,
}
use lidofinance_lido_council.Outcome.{Exec, pure, lift, gets, modify, ◌>>=◌, ◌>>◌}
use lidofinance_lido_council.Contracts.{Signature}
use lidofinance_lido_council.KeysApi.{SrModule, RegistryKey}
use lidofinance_lido_council.StakingRouter.{get_staking_module_unused_keys}
use lidofinance_lido_council.Deposit.{VerifiedDepositEvent}
use lidofinance_lido_council.Messages.{SignedState, Sender}
use lidofinance_lido_council.Security.{
  sign_deposit_data, sign_pause_data, is_deposits_paused, get_withdrawal_credentials,
  pause_deposits,
}
use lidofinance_lido_council.Guardian.State.{
  BlockData, ContractsState, StakingModuleData, Daemon, GuardianEnv, Action, on_repository,
  on_router,
}
use lidofinance_lido_council.Guardian.Message.{send_deposit_message, send_pause_message}
use lidofinance_lido_council.Guardian.Metrics.{collect_intersections_metrics}

-- GUARDIAN_DEPOSIT_RESIGNING_BLOCKS
abbrev guardian_deposit_resigning_blocks : ℕ
guardian_deposit_resigning_blocks = 10

-- `isSameContractsStates`; the current state is never missing
pub is_same_contracts_states : ContractsState → Option ContractsState → Bool
is_same_contracts_states first_state none = false
is_same_contracts_states first_state (some second_state) =
    if not (str_eq first_state.deposit_root second_state.deposit_root)
    then false
    else if not (first_state.nonce == second_state.nonce)
    then false
    else if not (
        (first_state.block_number / guardian_deposit_resigning_blocks)
        == (second_state.block_number / guardian_deposit_resigning_blocks))
    then false
    else true

-- `getKeysIntersections`
unfoldable pub get_keys_intersections : StakingModuleData → BlockData → List VerifiedDepositEvent
get_keys_intersections m b =
    filter (λ (event : VerifiedDepositEvent). any (str_eq event.pubkey) m.unused_keys)
      b.deposited_events.events

abbrev pub sender_of : BlockData → Sender
sender_of b = record { guardian_address = b.guardian_address; guardian_index = b.guardian_index }

abbrev pub signed_state : StakingModuleData → BlockData → Signature → SignedState
signed_state m b signature = record {
  deposit_root = b.deposit_root;
  nonce = m.nonce;
  block_number = b.block_number;
  block_hash = b.block_hash;
  signature = signature;
  staking_module_id = m.staking_module_id;
}

abbrev pub contracts_state : StakingModuleData → BlockData → ContractsState
contracts_state m b = record {
  block_number = b.block_number;
  nonce = m.nonce;
  deposit_root = b.deposit_root;
}

abbrev pub set_state : Daemon → ℕ → ContractsState → Daemon
set_state d id state = record d {
  last_contracts_state = λ i. if id == i then some state else d.last_contracts_state i;
}

module _ (env : GuardianEnv) where
  unfoldable pub get_staking_router_module_data : SrModule → String → Action StakingModuleData
  get_staking_router_module_data staking_router_module block_hash = do
    response ←
        on_router (get_staking_module_unused_keys env.keys_api block_hash staking_router_module)
    paused ← on_repository (is_deposits_paused env.security staking_router_module.id block_hash)
    pure (record {
      nonce = response.content.sr_module.nonce;
      unused_keys = map (λ (k : RegistryKey). k.key) response.content.keys;
      is_deposits_paused = paused;
      staking_module_id = staking_router_module.id;
      block_hash = block_hash;
    })

  abbrev with_other_wc : String → List VerifiedDepositEvent → List VerifiedDepositEvent
  with_other_wc lido_wc events =
      filter (λ (deposit : VerifiedDepositEvent). not (str_eq deposit.wc lido_wc)) events

  abbrev exclude_lido : BlockData → List VerifiedDepositEvent → Action (List VerifiedDepositEvent)
  exclude_lido b [] = pure []
  exclude_lido b (event ∷ events) = do
    lido_wc ← on_repository (get_withdrawal_credentials env.security b.block_hash)
    pure (with_other_wc lido_wc (event ∷ events))

  unfoldable pub exclude_eligible_intersections :
      BlockData → List VerifiedDepositEvent → Action (List VerifiedDepositEvent)
  exclude_eligible_intersections b intersections =
      exclude_lido b (filter (λ (event : VerifiedDepositEvent). event.valid) intersections)

  -- The pause transaction is started and not waited for.
  abbrev start_pause : ℕ → ℕ → Signature → Action (Unit {0})
  start_pause block_number staking_module_id signature = modify (λ d. record d {
    pausing = pause_deposits d.repository block_number staking_module_id signature d.pausing;
  })

  abbrev pub pause_and_send : StakingModuleData → BlockData → Signature → Action (Unit {0})
  pause_and_send m b signature = do
    start_pause b.block_number m.staking_module_id signature
    send_pause_message env (sender_of b) (signed_state m b signature)

  unfoldable pub handle_keys_intersections : StakingModuleData → BlockData → Action (Unit {0})
  handle_keys_intersections m b =
      on_repository (sign_pause_data env.security b.block_number m.staking_module_id)
      >>= pause_and_send m b

  abbrev pub send_signed : StakingModuleData → BlockData → Signature → Action (Unit {0})
  send_signed m b signature = send_deposit_message env (sender_of b) (signed_state m b signature)

  abbrev sign_and_send : StakingModuleData → BlockData → Action (Unit {0})
  sign_and_send m b =
      on_repository (
        sign_deposit_data env.security b.deposit_root m.nonce b.block_number b.block_hash
          m.staking_module_id)
      >>= send_signed m b

  -- The new state is stored whatever the comparison says, and before anything is signed or sent.
  unfoldable pub handle_correct_keys : StakingModuleData → BlockData → Action (Unit {0})
  handle_correct_keys m b d =
      let same =
        is_same_contracts_states (contracts_state m b)
          (d.last_contracts_state m.staking_module_id) in
      let d' = set_state d m.staking_module_id (contracts_state m b) in
      if same then (pure tt d') else sign_and_send m b d'

  abbrev pub act_on : StakingModuleData → BlockData → List VerifiedDepositEvent → Action (Unit {0})
  act_on m b [] = handle_correct_keys m b
  act_on m b (_ ∷ _) = handle_keys_intersections m b

  -- The rest of `checkKeysIntersections`, once the intersections are filtered.
  unfoldable pub act_on_intersections :
      StakingModuleData → BlockData → List VerifiedDepositEvent → Action (Unit {0})
  act_on_intersections m b filtered = do
    collect_intersections_metrics m.staking_module_id (get_keys_intersections m b) filtered
    if m.is_deposits_paused then pure tt else act_on m b filtered

  unfoldable pub check_keys_intersections : StakingModuleData → BlockData → Action (Unit {0})
  check_keys_intersections m b = do
    filtered ← exclude_eligible_intersections b (get_keys_intersections m b)
    act_on_intersections m b filtered
