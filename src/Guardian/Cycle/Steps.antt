-- ===== src/Guardian/Cycle/Steps.antt =====
-- What a module check of src/guardian/ adds to the broker's messages: only claims that are so.
use lidofinance_lido_council.Shared.{
  ◌≡◌, inl, inr, refl, sym, ap, ◌∙◌, String, Option, false, List, Bool-cases,
}
use lidofinance_lido_council.Outcome.{Outcome, continue_keeps}
use lidofinance_lido_council.Contracts.{Address, Signature}
use lidofinance_lido_council.KeysApi.{SrModule}
use lidofinance_lido_council.StakingRouter.Known.{Known}
use lidofinance_lido_council.Deposit.{Deposits}
use lidofinance_lido_council.Messages.{MessageData, deposit_body, pause_body}
use lidofinance_lido_council.Messages.Publishing.{
  Adds, Adds-refl, Adds-trans, MayAdd-Adds, send_message-MayAdd,
}
use lidofinance_lido_council.Repository.{dsm_abi}
use lidofinance_lido_council.Security.Guardians.{pause_deposits-Adds}
use lidofinance_lido_council.Security.Signatures.{
  contracts-sign_deposit_data, contracts-sign_pause_data, sign_deposit_data-eq-ok,
  sign_pause_data-eq-ok,
}
use lidofinance_lido_council.Security.{sign_deposit_data, sign_pause_data, pause_deposits, Pausing}
use lidofinance_lido_council.Guardian.State.{
  BlockData, StakingModuleData, Daemon, GuardianEnv, on_repository,
}
use lidofinance_lido_council.Guardian.Message.{
  is_unknown_guardian, send_message_from_guardian, send_deposit_message, send_pause_message,
  add_message_meta_data,
}
use lidofinance_lido_council.Guardian.ModuleGuard.{
  sender_of, signed_state, send_signed, pause_and_send, is_same_contracts_states, contracts_state,
  set_state, handle_keys_intersections, handle_correct_keys,
}
use lidofinance_lido_council.Guardian.Cycle.Claims.{
  KeepsPausing, IsPauseSignature, IsRead, IsSafe, IsAttacked, IsTrueBody, IsTrue, IsTruePause,
  IsReady,
}

module _ (env : GuardianEnv) (contracts : String → Option Address) (known : Known)
    (sound : Deposits → Pausing → Type 0) (modules : List SrModule) (b : BlockData) where
  -- From one state of a cycle to another, only true messages and pauses of the block are added.
  abbrev pub Speaks : Daemon → Daemon → Type 0
  Speaks d d' =
      (Adds (IsTrue env contracts known modules b) d.broker.published d'.broker.published
        × Adds (IsTruePause env contracts known modules b) d.pausing.transactions
            d'.pausing.transactions)
      × IsReady contracts known sound d'

  pub Speaks-refl : (d : Daemon) → IsReady contracts known sound d → Speaks d d
  Speaks-refl d ready = (
    (
      Adds-refl (IsTrue env contracts known modules b) d.broker.published,
      Adds-refl (IsTruePause env contracts known modules b) d.pausing.transactions,
    ),
    ready,
  )

  pub Speaks-trans : (c d e : Daemon) → Speaks c d → Speaks d e → Speaks c e
  Speaks-trans c d e ((first, first_pauses), _) ((second, second_pauses), ready) = (
    (
      Adds-trans (IsTrue env contracts known modules b) c.broker.published d.broker.published
          e.broker.published first second,
      Adds-trans (IsTruePause env contracts known modules b) c.pausing.transactions
          d.pausing.transactions e.pausing.transactions first_pauses second_pauses,
    ),
    ready,
  )

  pub send_message_from_guardian-Speaks :
      (content : MessageData) (d : Daemon)
      → IsReady contracts known sound d
      → content.sender ≡ sender_of b
      → IsTrueBody env contracts known modules b content.body
      → Speaks d (send_message_from_guardian env content d).1
  unfolding send_message_from_guardian add_message_meta_data
  send_message_from_guardian-Speaks content d ready sender body =
      elim (Bool-cases (is_unknown_guardian content.sender.guardian_index)) [
        | inl unknown ↦ rw unknown (Speaks-refl d ready)
        | inr listed ↦ rw listed (
          (
            MayAdd-Adds (IsTrue env contracts known modules b) env.messages
                (add_message_meta_data env content) _ _
                (λ topic. record {
                  sender = sender;
                  app = refl;
                  guardian = ap (λ s. is_unknown_guardian s.guardian_index) (sym sender) ∙ listed;
                  body = body;
                })
                (send_message-MayAdd env.messages (add_message_meta_data env content) d.broker),
            Adds-refl (IsTruePause env contracts known modules b) d.pausing.transactions,
          ),
          record {
            contracts_kept = ready.contracts_kept;
            keys_known = ready.keys_known;
            events_sound = ready.events_sound;
          },
        )
      ]

  -- Handling of a module whose data were read: what is signed and sent is the verdict's message.
  module _ (m : StakingModuleData) (read : IsRead env contracts known modules b.block_hash m)
      (active : m.is_deposits_paused ≡ false) where
    pub handle_correct_keys-Speaks :
        (d : Daemon)
        → IsReady contracts known sound d
        → IsSafe env contracts known modules b m
        → Speaks d (handle_correct_keys env m b d).1
    unfolding handle_correct_keys send_deposit_message
    handle_correct_keys-Speaks d ready safe =
        elim (Bool-cases (
          is_same_contracts_states (contracts_state m b)
            (d.last_contracts_state m.staking_module_id))) [
              | inl same ↦ rw same (Speaks-refl _ stored)
              | inr new ↦ rw new (
                  continue_keeps (Speaks d) (send_signed env m b) signing.0 _
                    (Speaks-refl _ signed_ready)
                    (λ signature e.
                      send_message_from_guardian-Speaks
                        (record {
                          sender = sender_of b;
                          body = deposit_body (signed_state m b signature);
                        })
                        signing.1 signed_ready refl
                        (record {
                          m = m;
                          signature = signature;
                          read = read;
                          active = active;
                          fields = refl;
                          signed =
                              sign_deposit_data-eq-ok env.security b.deposit_root m.nonce
                                b.block_number b.block_hash m.staking_module_id d.repository
                                signature e;
                          verdict = safe;
                        })))
            ]
      where
        d' : Daemon
        d' = set_state d m.staking_module_id (contracts_state m b)

        stored : IsReady contracts known sound d'
        stored = record {
          contracts_kept = ready.contracts_kept;
          keys_known = ready.keys_known;
          events_sound = ready.events_sound;
        }

        signing : Outcome Signature × Daemon
        signing =
            on_repository
              (sign_deposit_data env.security b.deposit_root m.nonce b.block_number b.block_hash
                m.staking_module_id)
              d'

        signed_ready : IsReady contracts known sound signing.1
        signed_ready = record {
          contracts_kept =
              contracts-sign_deposit_data env.security b.deposit_root m.nonce b.block_number
                b.block_hash m.staking_module_id d.repository
              ∙ ready.contracts_kept;
          keys_known = ready.keys_known;
          events_sound = ready.events_sound;
        }

    pub handle_keys_intersections-Speaks :
        KeepsPausing sound
        → (d : Daemon) → IsReady contracts known sound d
        → IsAttacked env contracts known modules b m
        → Speaks d (handle_keys_intersections env m b d).1
    unfolding handle_keys_intersections send_pause_message
    handle_keys_intersections-Speaks pauses d ready attacked =
        continue_keeps (Speaks d) (pause_and_send env m b) signing.0 _ (Speaks-refl _ signed_ready)
          (λ signature e.
            let signed : IsPauseSignature env contracts known modules b m signature =
              sign_pause_data-eq-ok env.security b.block_number m.staking_module_id d.repository
                signature e in
            let started_pause : Speaks d (paused signature) = (
              (
                Adds-refl (IsTrue env contracts known modules b) d.broker.published,
                pause_deposits-Adds (IsTruePause env contracts known modules b) signing.1.repository
                    b.block_number m.staking_module_id signature d.pausing
                    (λ contract held. record {
                      m = m;
                      contract = ap (λ f. f dsm_abi) (sym signed_ready.contracts_kept) ∙ held;
                      read = read;
                      active = active;
                      number = refl;
                      id = refl;
                      signed = signed;
                      verdict = attacked;
                    }),
              ),
              record {
                contracts_kept = signed_ready.contracts_kept;
                keys_known = signed_ready.keys_known;
                events_sound =
                    pauses signing.1.repository b.block_number m.staking_module_id signature
                      d.deposits.state d.pausing signed_ready.events_sound;
              },
            ) in
            Speaks-trans d (paused signature) _ started_pause (
              send_message_from_guardian-Speaks
                (record { sender = sender_of b; body = pause_body (signed_state m b signature) })
                (paused signature) started_pause.1 refl
                (record {
                  m = m;
                  signature = signature;
                  read = read;
                  active = active;
                  fields = refl;
                  signed = signed;
                  verdict = attacked;
                })))
      where
        signing : Outcome Signature × Daemon
        signing = on_repository (sign_pause_data env.security b.block_number m.staking_module_id) d

        signed_ready : IsReady contracts known sound signing.1
        signed_ready = record {
          contracts_kept =
              contracts-sign_pause_data env.security b.block_number m.staking_module_id d.repository
              ∙ ready.contracts_kept;
          keys_known = ready.keys_known;
          events_sound = ready.events_sound;
        }

        paused : Signature → Daemon
        paused signature = record signing.1 {
          pausing =
              pause_deposits signing.1.repository b.block_number m.staking_module_id signature
                signing.1.pausing;
        }
