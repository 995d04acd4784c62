-- ===== src/Guardian/Metrics/Counts.antt =====
-- What the gauges of src/guardian/guardian-metrics/guardian-metrics.service.ts show.
use mathlib.Core.Path.{subst}
use lidofinance_lido_council.Shared.{
  ℕ, suc, ◌+◌, ◌≡◌, ◌≢◌, ◌↔◌, inl, inr, refl, sym, ap, ◌∙◌, String, some, Bool, true, false, not,
  List, [], ◌∷◌, map, length, filter, any, Bool-cases, arith, str_eq, ◌==◌,
}
use lidofinance_lido_council.Deposit.{VerifiedDepositEvent}
use lidofinance_lido_council.Guardian.State.{
  BlockData, StakingModuleData, Gauge, Gauges, Daemon, valid_deposits, invalid_deposits,
  total_deposited_keys, unique_deposited_keys, unused_operators_keys,
}
use lidofinance_lido_council.Guardian.Metrics.{
  count_from, unique, collect_metrics, collect_validating_metrics, collect_deposit_metrics,
  collect_operator_metrics,
}
use lidofinance_lido_council.Shared.{Occurs}
use lidofinance_lido_council.Guardian.ModuleGuard.Intersections.{any_iff}

count_from-filter :
    (test : VerifiedDepositEvent → Bool) (sum : ℕ) (events : List VerifiedDepositEvent)
    → count_from test sum events ≡ sum + length (filter test events)
unfolding count_from
count_from-filter test sum [] = omega arith
count_from-filter test sum (event ∷ events) = elim (Bool-cases (test event)) [
  | inl counted ↦ rw counted (count_from-filter test (sum + 1) events ∙ (omega arith))
  | inr skipped ↦ rw skipped (count_from-filter test (sum + 0) events ∙ (omega arith))
]

-- Each event is counted as valid or as invalid.
valid-invalid :
    (events : List VerifiedDepositEvent)
    → length (filter (λ (e : VerifiedDepositEvent). e.valid) events)
        + length (filter (λ (e : VerifiedDepositEvent). not e.valid) events)
      ≡ length events
valid-invalid [] = refl
valid-invalid (e ∷ events) = ground (arith, valid-invalid events)

length-map : {A B : Type 0} (f : A → B) (xs : List A) → length (map f xs) ≡ length xs
length-map f [] = refl
length-map f (x ∷ xs) = ap suc (length-map f xs)

abbrev pub HasNoRepeats : List String → Type 0
HasNoRepeats [] = Unit
HasNoRepeats (x ∷ xs) = (¬ Occurs x xs) × HasNoRepeats xs

unique-Occurs : (x : String) (keys : List String) → Occurs x (unique keys) ↔ Occurs x keys
unfolding unique
unique-Occurs x [] = (λ h. h, λ h. h)
unique-Occurs x (key ∷ keys) =
    let (to, from) = unique-Occurs x keys in
    elim (Bool-cases (any (str_eq key) keys)) [
      | inl again ↦ rw again (
        λ h. inr (to h),
        λ h. elim h [
          | inl here ↦ from (subst (λ k. Occurs k keys) here ((any_iff key keys).0 again))
          | inr later ↦ from later
        ],
      )
      | inr first ↦ rw first (
        λ h. elim h [ inl here ↦ inl here | inr later ↦ inr (to later) ],
        λ h. elim h [ inl here ↦ inl here | inr later ↦ inr (from later) ],
      )
    ]

unique-HasNoRepeats : (keys : List String) → HasNoRepeats (unique keys)
unfolding unique
unique-HasNoRepeats [] = tt
unique-HasNoRepeats (key ∷ keys) = elim (Bool-cases (any (str_eq key) keys)) [
  | inl again ↦ rw again (unique-HasNoRepeats keys)
  | inr first ↦ rw first (
    λ h. absurd (ground (arith, (any_iff key keys).1 ((unique-Occurs key keys).0 h))),
    unique-HasNoRepeats keys,
  )
]

-- The deposited keys without repeats: the same keys, each once.
abbrev pub IsSetOf : List String → List String → Type 0
IsSetOf keys set = HasNoRepeats set × ((k : String) → Occurs k set ↔ Occurs k keys)

abbrev deposited_keys : BlockData → List String
deposited_keys b = map (λ (e : VerifiedDepositEvent). e.pubkey) b.deposited_events.events

-- The gauges of a module show its deposits: those that are valid and those that are not, which are all
-- of them together, the different deposited keys, and the module's unused keys.
pub record Shows (m : StakingModuleData) (b : BlockData) (gauges : Gauges) : Type 0 where
  pub valid : ℕ
  pub invalid : ℕ
  pub set : List String
  pub valid_shown : gauges valid_deposits m.staking_module_id ≡ some valid
  pub invalid_shown : gauges invalid_deposits m.staking_module_id ≡ some invalid
  pub total_shown : gauges total_deposited_keys m.staking_module_id ≡ some (valid + invalid)
  pub unique_shown : gauges unique_deposited_keys m.staking_module_id ≡ some (length set)
  pub unused_shown : gauges unused_operators_keys m.staking_module_id ≡ some (length m.unused_keys)
  pub valid_count :
      valid ≡ length (filter (λ (e : VerifiedDepositEvent). e.valid) b.deposited_events.events)
  pub total_count : valid + invalid ≡ length b.deposited_events.events
  pub is_set : IsSetOf (deposited_keys b) set

-- After the metrics of a module are collected, its gauges show the deposits of the block and its unused
-- keys, and the gauges of the other modules are as before.
pub collect_metrics-Shows :
    (m : StakingModuleData) (b : BlockData) (d : Daemon)
    → Shows m b (collect_metrics m b d).1.gauges
      × ((gauge : Gauge) (id : ℕ)
          → m.staking_module_id ≢ id
          → (collect_metrics m b d).1.gauges gauge id ≡ d.gauges gauge id)
unfolding collect_metrics collect_validating_metrics collect_deposit_metrics
    collect_operator_metrics
collect_metrics-Shows m b d =
    let self : (m.staking_module_id == m.staking_module_id) ≡ true = ground arith in
    let split = valid-invalid b.deposited_events.events in
    (
      record {
        valid = length (filter (λ (e : VerifiedDepositEvent). e.valid) b.deposited_events.events);
        invalid =
            length (filter (λ (e : VerifiedDepositEvent). not e.valid) b.deposited_events.events);
        set = unique (deposited_keys b);
        valid_shown = rw self (
            ap some (
              count_from-filter (λ (e : VerifiedDepositEvent). e.valid) 0 b.deposited_events.events
              ∙ omega arith));
        invalid_shown = rw self (
            ap some (
              count_from-filter (λ (e : VerifiedDepositEvent). not e.valid) 0
                b.deposited_events.events
              ∙ omega arith));
        total_shown = rw self (
            ap some (
              length-map (λ (e : VerifiedDepositEvent). e.pubkey) b.deposited_events.events
              ∙ sym split));
        unique_shown = rw self;
        unused_shown = rw self;
        valid_count = refl;
        total_count = split;
        is_set = (unique-HasNoRepeats (deposited_keys b), λ k. unique-Occurs k (deposited_keys b));
      },
      λ gauge id other.
          let apart : (m.staking_module_id == id) ≡ false = ground arith in ground arith,
    )
