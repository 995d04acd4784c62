-- ===== src/Guardian/Cycle/Modules.antt =====
-- What the callback of `stakingModules.map` in src/guardian/guardian.service.ts adds to the broker's messages.
use mathlib.Core.Path.{subst}
use lidofinance_lido_council.Shared.{
  map, ◌≡◌, inl, inr, refl, sym, ℕ, String, Option, false, List, [], ◌∷◌, Bool-cases,
}
use lidofinance_lido_council.Outcome.{Outcome, ok, continue_keeps, both}
use lidofinance_lido_council.Contracts.{Address}
use lidofinance_lido_council.KeysApi.{SrModule, SrModuleKeysResponse, get_unused_module_keys}
use lidofinance_lido_council.StakingRouter.Known.{Known}
use lidofinance_lido_council.Deposit.{VerifiedDepositEvent, Deposits}
use lidofinance_lido_council.Security.{Pausing}
use lidofinance_lido_council.Guardian.State.{
  BlockData, StateMeta, StakingModuleData, Daemon, GuardianEnv,
}
use lidofinance_lido_council.Guardian.Metrics.{collect_metrics, collect_intersections_metrics}
use lidofinance_lido_council.Guardian.ModuleGuard.{
  sender_of, get_keys_intersections, exclude_eligible_intersections, get_staking_router_module_data,
  act_on, act_on_intersections, check_keys_intersections,
}
use lidofinance_lido_council.Shared.{Occurs}
use lidofinance_lido_council.Guardian.ModuleGuard.Messages.{
  exclude_keeps, measured, act_on_intersections-active,
}
use lidofinance_lido_council.Guardian.Cycle.{process_module, process_modules}
use lidofinance_lido_council.Guardian.Cycle.Claims.{KeepsPausing, IsRead, IsReady}
use lidofinance_lido_council.Guardian.Cycle.Verdict.{
  Verdict, exclude_eligible_intersections-Verdict,
}
use lidofinance_lido_council.Guardian.Cycle.Reading.{
  get_staking_router_module_data-Speaks, get_staking_router_module_data-IsRead,
}
use lidofinance_lido_council.Messages.{ping_body}
use lidofinance_lido_council.Guardian.Message.{ping_message_broker}
use lidofinance_lido_council.Guardian.Cycle.Steps.{
  send_message_from_guardian-Speaks, Speaks, Speaks-refl, Speaks-trans, handle_correct_keys-Speaks,
  handle_keys_intersections-Speaks,
}

module _ (env : GuardianEnv) (contracts : String → Option Address) (known : Known)
    (sound : Deposits → Pausing → Type 0) (modules : List SrModule) (b : BlockData)
    (pauses : KeepsPausing sound) where
  act_on_intersections-Speaks :
      (m : StakingModuleData) (found : List VerifiedDepositEvent) (d : Daemon)
      → IsRead env contracts known modules b.block_hash m
      → IsReady contracts known sound d
      → Verdict env contracts known modules m b found
      → Speaks env contracts known sound modules b d (act_on_intersections env m b found d).1
  unfolding act_on_intersections collect_intersections_metrics
  act_on_intersections-Speaks m found d read ready verdict =
      elim (Bool-cases m.is_deposits_paused) [
        | inl paused ↦
            simp paused
              (Speaks-refl env contracts known sound modules b (measured env m b found d) counted)
        | inr active ↦
            rw (act_on_intersections-active env m b found d active) (acted found verdict active)
      ]
    where
      counted : IsReady contracts known sound (measured env m b found d)
      counted = record {
        contracts_kept = ready.contracts_kept;
        keys_known = ready.keys_known;
        events_sound = ready.events_sound;
      }

      acted :
          (l : List VerifiedDepositEvent)
          → Verdict env contracts known modules m b l
          → m.is_deposits_paused ≡ false
          → Speaks env contracts known sound modules b d (act_on env m b l (measured env m b l d)).1
      acted [] safe active =
          handle_correct_keys-Speaks env contracts known sound modules b m read active
            (measured env m b [] d)
            (record {
              contracts_kept = ready.contracts_kept;
              keys_known = ready.keys_known;
              events_sound = ready.events_sound;
            })
            safe
      acted (e ∷ es) attacked active =
          handle_keys_intersections-Speaks env contracts known sound modules b m read active pauses
            (measured env m b (e ∷ es) d)
            (record {
              contracts_kept = ready.contracts_kept;
              keys_known = ready.keys_known;
              events_sound = ready.events_sound;
            })
            attacked

  check_keys_intersections-Speaks :
      (m : StakingModuleData) (d : Daemon)
      → IsRead env contracts known modules b.block_hash m
      → IsReady contracts known sound d
      → Speaks env contracts known sound modules b d (check_keys_intersections env m b d).1
  unfolding check_keys_intersections
  check_keys_intersections-Speaks m d read ready =
      rw (exclude_keeps env b (get_keys_intersections m b) d) (
        continue_keeps (Speaks env contracts known sound modules b d) (act_on_intersections env m b)
          (exclude_eligible_intersections env b (get_keys_intersections m b) d).0 d
          (Speaks-refl env contracts known sound modules b d ready)
          (λ found got. act_on_intersections-Speaks m found d read ready (
            exclude_eligible_intersections-Verdict env contracts known modules m b d found
              ready.contracts_kept got)))

  collect_metrics-Speaks :
      (m : StakingModuleData) (d : Daemon)
      → IsReady contracts known sound d
      → Speaks env contracts known sound modules b d (collect_metrics m b d).1
  unfolding collect_metrics
  collect_metrics-Speaks m d ready =
      Speaks-refl env contracts known sound modules b (collect_metrics m b d).1 (record {
        contracts_kept = ready.contracts_kept;
        keys_known = ready.keys_known;
        events_sound = ready.events_sound;
      })

  pub ping_message_broker-Speaks :
      (d : Daemon)
      → IsReady contracts known sound d
      → Speaks env contracts known sound modules b d
          (ping_message_broker env (map (λ (s : SrModule). s.id) modules) b d).1
  unfolding ping_message_broker
  ping_message_broker-Speaks d ready =
      send_message_from_guardian-Speaks env contracts known sound modules b
        (record {
          sender = sender_of b;
          body = ping_body (record {
            block_number = b.block_number;
            staking_module_ids = map (λ (s : SrModule). s.id) modules;
          });
        })
        d ready refl (refl, refl)

  module _
      (answers : (id : ℕ) (response : SrModuleKeysResponse)
        → get_unused_module_keys env.keys_api id ≡ ok response
        → known id response)
      (meta : StateMeta) (at_block : b.block_hash ≡ meta.block_hash) where
    pub process_module-Speaks :
        (s : SrModule) (d : Daemon)
        → Occurs s modules
        → IsReady contracts known sound d
        → Speaks env contracts known sound modules b d (process_module env meta b s d).1
    unfolding process_module
    process_module-Speaks s d listed ready =
        continue_keeps Q _ reading.0 reading.1 read_said (λ m got.
          let read : IsRead env contracts known modules b.block_hash m =
            subst (λ h. IsRead env contracts known modules h m) (sym at_block)
              (get_staking_router_module_data-IsRead env contracts known sound modules answers s
                meta.block_hash d m listed ready got) in
          let checked : Q (check_keys_intersections env m b reading.1).1 =
            Speaks-trans env contracts known sound modules b d reading.1
              (check_keys_intersections env m b reading.1).1 read_said
              (check_keys_intersections-Speaks m reading.1 read (read_said.1)) in
          continue_keeps Q (λ _. collect_metrics m b) (check_keys_intersections env m b reading.1).0
            (check_keys_intersections env m b reading.1).1 checked
            (λ _ _.
              Speaks-trans env contracts known sound modules b d
                (check_keys_intersections env m b reading.1).1
                (collect_metrics m b (check_keys_intersections env m b reading.1).1).1 checked
                (collect_metrics-Speaks m (check_keys_intersections env m b reading.1).1
                  (checked.1))))
      where
        Q : Daemon → Type 0
        Q = Speaks env contracts known sound modules b d

        reading : Outcome StakingModuleData × Daemon
        reading = get_staking_router_module_data env s meta.block_hash d

        read_said : Q reading.1
        read_said =
            get_staking_router_module_data-Speaks env contracts known sound modules answers b s
              meta.block_hash d ready

    pub process_modules-Speaks :
        (listed : List SrModule) (d : Daemon)
        → ((s : SrModule) → Occurs s listed → Occurs s modules)
        → IsReady contracts known sound d
        → Speaks env contracts known sound modules b d (process_modules env meta b listed d).1
    unfolding process_modules
    process_modules-Speaks [] d within ready =
        Speaks-refl env contracts known sound modules b d ready
    process_modules-Speaks (s ∷ rest) d within ready =
        let first : Daemon = (process_module env meta b s d).1 in
        let first_said : Speaks env contracts known sound modules b d first =
          process_module-Speaks s d (within s (inl refl)) ready in
        let said : Speaks env contracts known sound modules b d
            (process_modules env meta b rest first).1 =
          Speaks-trans env contracts known sound modules b d first
            (process_modules env meta b rest first).1 first_said
            (process_modules-Speaks rest first (λ x h. within x (inr h)) first_said.1) in
        continue_keeps (Speaks env contracts known sound modules b d) _
          (both (process_module env meta b s) (process_modules env meta b rest) d).0
          (process_modules env meta b rest first).1 said (λ _ _. said)
