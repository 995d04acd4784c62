-- ===== src/Tests/GuardianRuns.antt =====
-- The guardian at the data of GuardianData.
use lidofinance_lido_council.Shared.{◌≢◌, ℕ, ◌≡◌, ◌↔◌, ◌++◌, inl, inr, refl, [], ◌∷◌, arith, eq_iff}
use lidofinance_lido_council.Outcome.{ok}
use lidofinance_lido_council.Repository.{
  get_cached_lido_contract, get_cached_dsm_contract, get_from_cache, get_pause_message_prefix,
  init_cached_contracts,
}
use lidofinance_lido_council.Chains.{get_message_topic_prefix, by_network}
use lidofinance_lido_council.Messages.{get_message_topic}
use lidofinance_lido_council.KeysApi.{SrModuleListResponse, get_modules_list, checked_list}
use lidofinance_lido_council.StakingRouter.{get_staking_modules}
use lidofinance_lido_council.Security.{get_withdrawal_credentials, sign_pause_data}
use lidofinance_lido_council.Deposit.{VerifiedDepositEvent}
use lidofinance_lido_council.Guardian.State.{Gauge, BlockData, StakingModuleData}
use lidofinance_lido_council.Guardian.Metrics.{collect_metrics}
use lidofinance_lido_council.Guardian.Metrics.Counts.{Shows, collect_metrics-Shows}
use lidofinance_lido_council.Guardian.Cycle.{handle_new_block}
use lidofinance_lido_council.Guardian.Cycle.Frame.{last_meta}
use lidofinance_lido_council.Guardian.Cycle.Progress.{
  NotBefore, handle_new_block-NotBefore, handle_new_block-old_state,
}
use lidofinance_lido_council.Guardian.ModuleGuard.{
  exclude_eligible_intersections, get_keys_intersections, check_keys_intersections,
  handle_correct_keys,
}
use lidofinance_lido_council.Shared.{Occurs}
use lidofinance_lido_council.Guardian.ModuleGuard.Intersections.{
  IsAttack, exclude_eligible_intersections_iff,
}
use lidofinance_lido_council.Guardian.ModuleGuard.Resigning.{handle_correct_keys-again}
use lidofinance_lido_council.Guardian.ModuleGuard.Messages.{
  OneDeposit, OnePause, pause_transaction, pause_published, check_keys_intersections-attack,
  check_keys_intersections-no_attack, check_keys_intersections-pauses,
}
use lidofinance_lido_council.Tests.GuardianData.{
  env, daemon, front_run, block_data, module_with, pause_signature, snapshot, sr_module,
}

abbrev attacked : StakingModuleData
attacked = module_with "0xk1"

lido_credentials :
    (get_withdrawal_credentials env.security "0xb100" daemon.repository).0 ≡ ok "0xw1"
unfolding get_withdrawal_credentials get_cached_lido_contract get_from_cache
lido_credentials = refl

front_run-IsAttack : IsAttack attacked block_data "0xw1" front_run
front_run-IsAttack = record {
  deposited = inl refl;
  unused = inl refl;
  valid = refl;
  foreign = λ same. ground (arith, eq_iff "0xforeign" "0xw1");
}

no-IsAttack : (e : VerifiedDepositEvent) → ¬ IsAttack (module_with "0xk2") block_data "0xw1" e
no-IsAttack e attack = elim attack.deposited [
  | inl deposited ↦ elim attack.unused [
    | inl unused ↦ ground (arith, eq_iff "0xk1" "0xk2")
    | inr none_left ↦ none_left
  ]
  | inr none_left ↦ none_left
]

filtered_intersections :
    (exclude_eligible_intersections env block_data
      (get_keys_intersections attacked block_data)
      daemon).0
    ≡ ok (front_run ∷ [])
unfolding get_keys_intersections exclude_eligible_intersections get_withdrawal_credentials
    get_cached_lido_contract get_from_cache
filtered_intersections = refl

exclude_eligible_intersections_iff_example :
    Occurs front_run (front_run ∷ []) ↔ IsAttack attacked block_data "0xw1" front_run
exclude_eligible_intersections_iff_example =
    exclude_eligible_intersections_iff env attacked block_data daemon "0xw1" (front_run ∷ [])
      lido_credentials filtered_intersections front_run

check_keys_intersections-attack_example :
    OnePause env daemon (check_keys_intersections env attacked block_data daemon).1
check_keys_intersections-attack_example =
    check_keys_intersections-attack env attacked block_data daemon "0xw1" front_run refl
      lido_credentials front_run-IsAttack

signed :
    sign_pause_data env.security 100 1 daemon.repository ≡ (ok pause_signature, daemon.repository)
unfolding sign_pause_data get_pause_message_prefix
signed = refl

security_contract : (get_cached_dsm_contract daemon.repository).0 ≡ ok "0xdsm"
unfolding get_cached_dsm_contract get_from_cache
security_contract = refl

topic : get_message_topic env.messages ≡ ok "testnet-defender"
unfolding get_message_topic get_message_topic_prefix by_network
topic = refl

check_keys_intersections-pauses_example :
    ((check_keys_intersections env attacked block_data daemon).0 ≡ ok tt)
    × ((check_keys_intersections env attacked block_data daemon).1.pausing.transactions
        ≡ [] ++ pause_transaction attacked block_data pause_signature "0xdsm" ∷ [])
    × ((check_keys_intersections env attacked block_data daemon).1.broker.published
        ≡ [] ++ pause_published env attacked block_data pause_signature "testnet-defender" ∷ [])
check_keys_intersections-pauses_example =
    check_keys_intersections-pauses env attacked block_data daemon "0xw1" front_run pause_signature
      "0xdsm" "testnet-defender" refl lido_credentials front_run-IsAttack signed security_contract
      refl refl topic refl

check_keys_intersections-no_attack_example :
    OneDeposit env daemon (check_keys_intersections env (module_with "0xk2") block_data daemon).1
check_keys_intersections-no_attack_example =
    check_keys_intersections-no_attack env (module_with "0xk2") block_data daemon "0xw1"
      lido_credentials no-IsAttack

abbrev later_block : BlockData
later_block = record block_data { block_number = 109 }

handle_correct_keys-again_example :
    ((handle_correct_keys env attacked later_block
        (handle_correct_keys env attacked block_data daemon).1).0
      ≡ ok tt)
    × ((handle_correct_keys env attacked later_block
          (handle_correct_keys env attacked block_data daemon).1).1.broker
        ≡ (handle_correct_keys env attacked block_data daemon).1.broker)
handle_correct_keys-again_example =
    handle_correct_keys-again env env attacked attacked block_data later_block daemon refl refl refl
      (10, omega arith, omega arith, omega arith, omega arith)

handle_new_block-NotBefore_example :
    NotBefore (last_meta daemon) (last_meta (handle_new_block env daemon).1)
handle_new_block-NotBefore_example = handle_new_block-NotBefore env daemon

abbrev modules : SrModuleListResponse
modules = record { content = sr_module ∷ []; el_block_snapshot = snapshot }

listed : get_staking_modules env.keys_api ≡ ok modules
unfolding get_staking_modules get_modules_list checked_list
listed = refl

handle_new_block-old_state_example : (handle_new_block env daemon).1 ≡ record daemon {
  repository = (init_cached_contracts env.security.repository "0xb100" daemon.repository).1;
}
handle_new_block-old_state_example =
    handle_new_block-old_state env daemon (record { block_hash = "0xb101"; block_number = 101 })
      modules listed refl (inl (omega arith))

collect_metrics-Shows_example :
    Shows attacked block_data (collect_metrics attacked block_data daemon).1.gauges
    × ((gauge : Gauge) (id : ℕ)
        → 1 ≢ id
        → (collect_metrics attacked block_data daemon).1.gauges gauge id ≡ daemon.gauges gauge id)
collect_metrics-Shows_example = collect_metrics-Shows attacked block_data daemon
