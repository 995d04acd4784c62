-- ===== src/Guardian/Metrics.antt =====
-- src/guardian/guardian-metrics/guardian-metrics.service.ts.
pub mod Counts
use lidofinance_lido_council.Shared.{
  ℕ, ◌+◌, String, some, Bool, true, false, not, ◌&&◌, List, [], ◌∷◌, map, length, any, str_eq, ◌==◌,
  if◌then◌else◌,
}
use lidofinance_lido_council.Outcome.{modify, ◌>>◌}
use lidofinance_lido_council.Deposit.{VerifiedDepositEvent}
use lidofinance_lido_council.Guardian.State.{
  BlockData, StakingModuleData, Gauge, Action, valid_deposits, invalid_deposits,
  total_deposited_keys, unique_deposited_keys, unused_operators_keys, all_intersections,
  filtered_intersections,
}

abbrev pub gauge_eq : Gauge → Gauge → Bool
gauge_eq valid_deposits valid_deposits = true
gauge_eq invalid_deposits invalid_deposits = true
gauge_eq total_deposited_keys total_deposited_keys = true
gauge_eq unique_deposited_keys unique_deposited_keys = true
gauge_eq unused_operators_keys unused_operators_keys = true
gauge_eq all_intersections all_intersections = true
gauge_eq filtered_intersections filtered_intersections = true
gauge_eq _ _ = false

-- `gauge.set({ type, stakingModuleId }, value)`
abbrev pub set_gauge : Gauge → ℕ → ℕ → Action (Unit {0})
set_gauge gauge id value = modify (λ d. record d {
  gauges = λ g i. if gauge_eq gauge g && (id == i) then some value else d.gauges g i;
})

-- `events.reduce((sum, { valid }) => sum + (valid ? 1 : 0), 0)`
count_from : (VerifiedDepositEvent → Bool) → ℕ → List VerifiedDepositEvent → ℕ
count_from test sum [] = sum
count_from test sum (event ∷ events) = count_from test (sum + (if test event then 1 else 0)) events

-- The elements of `new Set(keys)`.
unique : List String → List String
unique [] = []
unique (key ∷ keys) = let rest = unique keys in if any (str_eq key) keys then rest else key ∷ rest

collect_validating_metrics : StakingModuleData → BlockData → Action (Unit {0})
unfolding count_from
collect_validating_metrics m b = do
  set_gauge valid_deposits m.staking_module_id
      (count_from (λ e. e.valid) 0 b.deposited_events.events)
  set_gauge invalid_deposits m.staking_module_id
      (count_from (λ e. not e.valid) 0 b.deposited_events.events)

collect_deposit_metrics : StakingModuleData → BlockData → Action (Unit {0})
unfolding unique
collect_deposit_metrics m b = do
  let deposited_keys = map (λ (e : VerifiedDepositEvent). e.pubkey) b.deposited_events.events
  set_gauge total_deposited_keys m.staking_module_id (length deposited_keys)
  set_gauge unique_deposited_keys m.staking_module_id (length (unique deposited_keys))

collect_operator_metrics : StakingModuleData → Action (Unit {0})
collect_operator_metrics m =
    set_gauge unused_operators_keys m.staking_module_id (length m.unused_keys)

unfoldable pub collect_metrics : StakingModuleData → BlockData → Action (Unit {0})
unfolding collect_validating_metrics collect_deposit_metrics collect_operator_metrics
collect_metrics m b = do
  collect_validating_metrics m b
  collect_deposit_metrics m b
  collect_operator_metrics m

unfoldable pub collect_intersections_metrics :
    ℕ → List VerifiedDepositEvent → List VerifiedDepositEvent → Action (Unit {0})
collect_intersections_metrics staking_module_id every filtered = do
  set_gauge all_intersections staking_module_id (length every)
  set_gauge filtered_intersections staking_module_id (length filtered)
