-- ===== src/Guardian/ModuleGuard/Resigning.antt =====
-- When a deposit message is signed again: `isSameContractsStates` and `handleCorrectKeys`.
use lidofinance_lido_council.Shared.{
  ℕ, ◌+◌, ◌*◌, ◌/◌, ◌≤◌, ◌<◌, ◌≡◌, ◌↔◌, some, true, arith, eq_iff,
}
use lidofinance_lido_council.Outcome.{ok}
use lidofinance_lido_council.Guardian.State.{
  BlockData, StakingModuleData, ContractsState, Daemon, GuardianEnv,
}
use lidofinance_lido_council.Guardian.Message.{send_deposit_message}
use lidofinance_lido_council.Guardian.ModuleGuard.{
  is_same_contracts_states, handle_correct_keys, contracts_state, set_state,
}

-- Two block numbers lie in the same window of ten blocks.
abbrev pub SameWindow : ℕ → ℕ → Type 0
SameWindow a b = (k : ℕ) × (10 * k ≤ a) × (a < 10 * k + 10) × (10 * k ≤ b) × (b < 10 * k + 10)

-- Two states are the same exactly when they have the same root and nonce and their blocks lie in the
-- same window of ten.
pub is_same_contracts_states_iff :
    (a b : ContractsState)
    → (is_same_contracts_states a (some b) ≡ true) ↔ (
        (a.deposit_root ≡ b.deposit_root)
        × (a.nonce ≡ b.nonce)
        × SameWindow a.block_number b.block_number)
unfolding is_same_contracts_states
is_same_contracts_states_iff a b = (
  λ h.
      let (root, nonce, window) = same_parts h in
      (root, nonce, (a.block_number / 10, omega arith, omega arith, omega arith, omega arith)),
  λ (root, nonce, window). same_whole root nonce (quotients window),
)
  where
    same_parts :
        is_same_contracts_states a (some b) ≡ true
        → (a.deposit_root ≡ b.deposit_root)
          × (a.nonce ≡ b.nonce)
          × (a.block_number / 10 ≡ b.block_number / 10)
    same_parts h = ground (arith, eq_iff a.deposit_root b.deposit_root)

    same_whole :
        a.deposit_root ≡ b.deposit_root
        → a.nonce ≡ b.nonce
        → a.block_number / 10 ≡ b.block_number / 10
        → is_same_contracts_states a (some b) ≡ true
    same_whole root nonce window = ground (arith, eq_iff a.deposit_root b.deposit_root)

    quotients : SameWindow a.block_number b.block_number → a.block_number / 10 ≡ b.block_number / 10
    quotients (k, la, ha, lb, hb) = omega arith

-- A call for a module whose last state is the same one signs and sends nothing.
handle_correct_keys-same :
    (env : GuardianEnv) (m : StakingModuleData) (b : BlockData) (d : Daemon) {s : ContractsState}
    → d.last_contracts_state m.staking_module_id ≡ some s
    → is_same_contracts_states (contracts_state m b) (some s) ≡ true
    → handle_correct_keys env m b d ≡ (ok tt, set_state d m.staking_module_id (contracts_state m b))
unfolding handle_correct_keys
handle_correct_keys-same env m b d last same = rw (last, same)

-- Whatever became of a first call, even one that failed to sign or to send, a second call for the same
-- module with the same root, nonce and window sends nothing: the broker is left alone.
pub handle_correct_keys-again :
    (env env' : GuardianEnv) (m m' : StakingModuleData) (b b' : BlockData) (d : Daemon)
    → m'.staking_module_id ≡ m.staking_module_id
    → m'.nonce ≡ m.nonce
    → b'.deposit_root ≡ b.deposit_root
    → SameWindow b'.block_number b.block_number
    → ((handle_correct_keys env' m' b' (handle_correct_keys env m b d).1).0 ≡ ok tt)
      × ((handle_correct_keys env' m' b' (handle_correct_keys env m b d).1).1.broker
          ≡ (handle_correct_keys env m b d).1.broker)
handle_correct_keys-again env env' m m' b b' d id nonce root window = (rw again, rw again)
  where
    first : Daemon
    first = (handle_correct_keys env m b d).1

    stored : first.last_contracts_state m.staking_module_id ≡ some (contracts_state m b)
    stored = unfold handle_correct_keys send_deposit_message in ground arith

    again :
        handle_correct_keys env' m' b' first
        ≡ (ok tt, set_state first m'.staking_module_id (contracts_state m' b'))
    again = handle_correct_keys-same env' m' b' first (rw id stored) (
        (is_same_contracts_states_iff (contracts_state m' b') (contracts_state m b)).1
          (root, nonce, window))
