-- ===== src/Guardian/ModuleGuard/Messages.antt =====
-- What a module check says to the broker and to the contract: `checkKeysIntersections` and the handlers it calls.
use lidofinance_lido_council.Shared.{
  ◌≡◌, ◌⊎◌, inl, inr, refl, String, true, false, List, [], ◌∷◌, ◌++◌, filter, Bool-cases, arith,
}
use lidofinance_lido_council.Outcome.{ok, continue_keeps}
use lidofinance_lido_council.Contracts.{Address, Signature}
use lidofinance_lido_council.Deposit.{VerifiedDepositEvent}
use lidofinance_lido_council.Repository.{get_cached_dsm_contract}
use lidofinance_lido_council.Messages.{
  MessageType, pause, deposit, Message, MessageData, deposit_body, pause_body, Sender, SignedState,
  Published, Broker, type_of, get_message_topic, send_message, MessagesEnv, published_on,
}
use lidofinance_lido_council.Messages.Publishing.{send_message-MayAdd}
use lidofinance_lido_council.Security.{
  PauseTransaction, pause_deposits, sign_pause_data, get_withdrawal_credentials,
}
use lidofinance_lido_council.Security.Guardians.{get_withdrawal_credentials_keeps}
use lidofinance_lido_council.Guardian.State.{BlockData, StakingModuleData, Daemon, GuardianEnv}
use lidofinance_lido_council.Guardian.Message.{
  is_unknown_guardian, send_message_from_guardian, send_deposit_message, send_pause_message,
  add_message_meta_data,
}
use lidofinance_lido_council.Guardian.Metrics.{collect_intersections_metrics}
use lidofinance_lido_council.Guardian.ModuleGuard.{
  act_on, sender_of, is_same_contracts_states, contracts_state, pause_and_send, send_signed,
  signed_state, get_keys_intersections, exclude_eligible_intersections, exclude_lido,
  handle_keys_intersections, handle_correct_keys, act_on_intersections, check_keys_intersections,
}
use lidofinance_lido_council.Shared.{Occurs}
use lidofinance_lido_council.Guardian.ModuleGuard.Intersections.{
  IsAttack, exclude_eq, attacks, attacks_iff,
}

-- Nothing was published, or one message of the kind was.
abbrev pub Sent : MessageType → List Published → List Published → Type 0
Sent kind old new =
    (new ≡ old) ⊎ ((p : Published) × (new ≡ old ++ p ∷ []) × (p.message_type ≡ kind))

send_message-Sent :
    (env : MessagesEnv) (message : Message) (b : Broker)
    → Sent (type_of message.content.body) b.published (send_message env message b).1.published
send_message-Sent env message b = elim (send_message-MayAdd env message b) [
  | inl same ↦ inl same
  | inr (topic, more) ↦ inr (published_on env message topic, more, refl)
]

abbrev pub pause_transaction :
    StakingModuleData → BlockData → Signature → Address → PauseTransaction
pause_transaction m b signature contract = record {
  contract = contract;
  block_number = b.block_number;
  staking_module_id = m.staking_module_id;
  signature = signature;
}

module _ (env : GuardianEnv) where
  abbrev pub pause_published : StakingModuleData → BlockData → Signature → String → Published
  pause_published m b signature topic = record {
    topic = topic;
    message = record {
      content = record { sender = sender_of b; body = pause_body (signed_state m b signature) };
      app = env.app;
    };
    message_type = pause;
  }

  pub exclude_keeps :
      (b : BlockData) (events : List VerifiedDepositEvent) (d : Daemon)
      → (exclude_eligible_intersections env b events d).1 ≡ d
  unfolding exclude_eligible_intersections
  exclude_keeps b events d = by_list (filter (λ (e : VerifiedDepositEvent). e.valid) events)
    where
      by_list : (l : List VerifiedDepositEvent) → (exclude_lido env b l d).1 ≡ d
      by_list [] = refl
      by_list (e ∷ es) =
          ground (arith, get_withdrawal_credentials_keeps env.security b.block_hash d.repository)

  send_message_from_guardian-Sent :
      (message : MessageData) (d : Daemon)
      → Sent
          (type_of message.body)
          d.broker.published
          (send_message_from_guardian env message d).1.broker.published
  unfolding send_message_from_guardian add_message_meta_data
  send_message_from_guardian-Sent message d =
      elim (Bool-cases (is_unknown_guardian message.sender.guardian_index)) [
        | inl unknown ↦ inl (rw unknown)
        | inr known ↦
            rw known (send_message-Sent env.messages (add_message_meta_data env message) d.broker)
      ]

  send_message_from_guardian-others :
      (message : MessageData) (d : Daemon)
      → ((send_message_from_guardian env message d).1.pausing ≡ d.pausing)
        × ((send_message_from_guardian env message d).1.last_contracts_state
            ≡ d.last_contracts_state)
  unfolding send_message_from_guardian
  send_message_from_guardian-others message d =
      elim (Bool-cases (is_unknown_guardian message.sender.guardian_index)) [
        | inl unknown ↦ rw unknown (refl, refl)
        | inr known ↦ rw known (refl, refl)
      ]

  -- What a check with correct keys may do: send one deposit message, and start no pause.
  abbrev pub OneDeposit : Daemon → Daemon → Type 0
  OneDeposit d d' = (Sent deposit d.broker.published d'.broker.published) × (d'.pausing ≡ d.pausing)

  -- What a check with an attack may do: send one pause message, and store no state.
  abbrev pub OnePause : Daemon → Daemon → Type 0
  OnePause d d' =
      (Sent pause d.broker.published d'.broker.published)
      × (d'.last_contracts_state ≡ d.last_contracts_state)

  send_deposit_message-OneDeposit :
      (sender : Sender) (message : SignedState) (d : Daemon)
      → OneDeposit d (send_deposit_message env sender message d).1
  unfolding send_deposit_message
  send_deposit_message-OneDeposit sender message d =
      let content : MessageData = record { sender = sender; body = deposit_body message } in
      (send_message_from_guardian-Sent content d, (send_message_from_guardian-others content d).0)

  send_pause_message-OnePause :
      (sender : Sender) (message : SignedState) (d : Daemon)
      → OnePause d (send_pause_message env sender message d).1
  unfolding send_pause_message
  send_pause_message-OnePause sender message d =
      let content : MessageData = record { sender = sender; body = pause_body message } in
      (send_message_from_guardian-Sent content d, (send_message_from_guardian-others content d).1)

  handle_correct_keys-OneDeposit :
      (m : StakingModuleData) (b : BlockData) (d : Daemon)
      → OneDeposit d (handle_correct_keys env m b d).1
  unfolding handle_correct_keys
  handle_correct_keys-OneDeposit m b d =
      elim (Bool-cases (
        is_same_contracts_states (contracts_state m b)
          (d.last_contracts_state m.staking_module_id))) [
            | inl same ↦ rw same (inl refl, refl)
            | inr new ↦ rw new (
                continue_keeps (OneDeposit d) (send_signed env m b) _ _ (inl refl, refl)
                  (λ signature e.
                    send_deposit_message-OneDeposit (sender_of b) (signed_state m b signature) _))
          ]

  handle_keys_intersections-OnePause :
      (m : StakingModuleData) (b : BlockData) (d : Daemon)
      → OnePause d (handle_keys_intersections env m b d).1
  unfolding handle_keys_intersections
  handle_keys_intersections-OnePause m b d =
      continue_keeps (OnePause d) (pause_and_send env m b) _ _ (inl refl, refl)
        (λ signature e. send_pause_message-OnePause (sender_of b) (signed_state m b signature) _)

  -- Deposits of a paused module: a check changes nothing but the gauges, whatever the keys.
  pub check_keys_intersections-paused :
      (m : StakingModuleData) (b : BlockData) (d : Daemon)
      → m.is_deposits_paused ≡ true
      → ((check_keys_intersections env m b d).1.broker ≡ d.broker)
        × ((check_keys_intersections env m b d).1.pausing ≡ d.pausing)
        × ((check_keys_intersections env m b d).1.last_contracts_state ≡ d.last_contracts_state)
  unfolding check_keys_intersections act_on_intersections collect_intersections_metrics
  check_keys_intersections-paused m b d paused =
      ground (arith, exclude_keeps b (get_keys_intersections m b) d)

  abbrev pub measured : StakingModuleData → BlockData → List VerifiedDepositEvent → Daemon → Daemon
  measured m b found d =
      (collect_intersections_metrics m.staking_module_id (get_keys_intersections m b) found d).1

  pub act_on_intersections-active :
      (m : StakingModuleData) (b : BlockData) (found : List VerifiedDepositEvent) (d : Daemon)
      → m.is_deposits_paused ≡ false
      → act_on_intersections env m b found d ≡ act_on env m b found (measured m b found d)
  unfolding act_on_intersections collect_intersections_metrics
  act_on_intersections-active m b found d active = simp active

  pub check_keys_intersections-known :
      (m : StakingModuleData) (b : BlockData) (d : Daemon) (lido_wc : String)
      → (get_withdrawal_credentials env.security b.block_hash d.repository).0 ≡ ok lido_wc
      → check_keys_intersections env m b d
        ≡ act_on_intersections env m b (attacks env m b lido_wc) d
  unfolding check_keys_intersections
  check_keys_intersections-known m b d lido_wc known = rw (
    exclude_eq env b (get_keys_intersections m b) d lido_wc known,
    exclude_keeps b (get_keys_intersections m b) d,
  )

  pub act_on_intersections-Occurs :
      (m : StakingModuleData) (b : BlockData) (d : Daemon) (found : List VerifiedDepositEvent)
      (e : VerifiedDepositEvent)
      → m.is_deposits_paused ≡ false
      → Occurs e found
      → act_on_intersections env m b found d
        ≡ handle_keys_intersections env m b (measured m b found d)
  act_on_intersections-Occurs m b d [] e active occurs = absurd occurs
  act_on_intersections-Occurs m b d (x ∷ xs) e active occurs =
      act_on_intersections-active m b (x ∷ xs) d active

  -- A module that is not paused, Lido's credentials known at the block, and a deposit that is an attack:
  -- a check sends at most one message, a pause message, never a deposit
  -- message, and stores no state as seen.
  pub check_keys_intersections-attack :
      (m : StakingModuleData) (b : BlockData) (d : Daemon) (lido_wc : String)
      (e : VerifiedDepositEvent)
      → m.is_deposits_paused ≡ false
      → (get_withdrawal_credentials env.security b.block_hash d.repository).0 ≡ ok lido_wc
      → IsAttack m b lido_wc e
      → OnePause d (check_keys_intersections env m b d).1
  unfolding collect_intersections_metrics
  check_keys_intersections-attack m b d lido_wc e active known attack =
      let found = attacks env m b lido_wc in
      rw
        (
          check_keys_intersections-known m b d lido_wc known,
          act_on_intersections-Occurs m b d found e active
              ((attacks_iff env m b lido_wc e).1 attack),
        )
        (handle_keys_intersections-OnePause m b (measured m b found d))

  -- Lido's credentials known at the block, and no attack among the deposits: a check sends at most one message, a deposit message, and starts no
  -- pause of the contract.
  pub check_keys_intersections-no_attack :
      (m : StakingModuleData) (b : BlockData) (d : Daemon) (lido_wc : String)
      → (get_withdrawal_credentials env.security b.block_hash d.repository).0 ≡ ok lido_wc
      → ((e : VerifiedDepositEvent) → ¬ IsAttack m b lido_wc e)
      → OneDeposit d (check_keys_intersections env m b d).1
  unfolding act_on_intersections collect_intersections_metrics
  check_keys_intersections-no_attack m b d lido_wc known safe =
      rw (check_keys_intersections-known m b d lido_wc known) (
        acted (attacks env m b lido_wc)
          (λ e occurs. safe e ((attacks_iff env m b lido_wc e).0 occurs)))
    where
      acted :
          (found : List VerifiedDepositEvent)
          → ((e : VerifiedDepositEvent) → ¬ Occurs e found)
          → OneDeposit d (act_on_intersections env m b found d).1
      acted (x ∷ xs) never = absurd (never x (inl refl))
      acted [] never = elim (Bool-cases m.is_deposits_paused) [
        | inl paused ↦ simp paused (inl refl, refl)
        | inr active ↦
            rw (act_on_intersections-active m b [] d active)
              (handle_correct_keys-OneDeposit m b (measured m b [] d))
      ]

  handle_keys_intersections-pauses :
      (m : StakingModuleData) (b : BlockData) (d : Daemon) (signature : Signature)
      (contract : Address) (topic : String)
      → sign_pause_data env.security b.block_number m.staking_module_id d.repository
        ≡ (ok signature, d.repository)
      → (get_cached_dsm_contract d.repository).0 ≡ ok contract
      → d.pausing.is_executing ≡ false
      → is_unknown_guardian b.guardian_index ≡ false
      → get_message_topic env.messages ≡ ok topic
      → env.messages.publish (pause_published m b signature topic) ≡ ok tt
      → ((handle_keys_intersections env m b d).0 ≡ ok tt)
        × ((handle_keys_intersections env m b d).1.pausing.transactions
            ≡ d.pausing.transactions ++ pause_transaction m b signature contract ∷ [])
        × ((handle_keys_intersections env m b d).1.broker.published
            ≡ d.broker.published ++ pause_published m b signature topic ∷ [])
  unfolding handle_keys_intersections send_pause_message send_message_from_guardian send_message
      add_message_meta_data pause_deposits
  handle_keys_intersections-pauses m b d signature contract topic signed dsm free in_list on_topic
        taken =
      simp (signed, dsm, free, in_list, on_topic, taken) (refl, refl, refl)

  -- An attack is answered. The module is not paused at the block, Lido's credentials, the pause
  -- message's prefix, the security contract and the topic are known, no pause is under way, the
  -- guardian is in the list and the broker takes the message. Then a check of the module ends well,
  -- sends one transaction, which pauses the module at this block with the signature over them, and
  -- publishes one message, the pause message with the same signature.
  pub check_keys_intersections-pauses :
      (m : StakingModuleData) (b : BlockData) (d : Daemon) (lido_wc : String)
      (e : VerifiedDepositEvent) (signature : Signature) (contract : Address) (topic : String)
      → m.is_deposits_paused ≡ false
      → (get_withdrawal_credentials env.security b.block_hash d.repository).0 ≡ ok lido_wc
      → IsAttack m b lido_wc e
      → sign_pause_data env.security b.block_number m.staking_module_id d.repository
        ≡ (ok signature, d.repository)
      → (get_cached_dsm_contract d.repository).0 ≡ ok contract
      → d.pausing.is_executing ≡ false
      → is_unknown_guardian b.guardian_index ≡ false
      → get_message_topic env.messages ≡ ok topic
      → env.messages.publish (pause_published m b signature topic) ≡ ok tt
      → ((check_keys_intersections env m b d).0 ≡ ok tt)
        × ((check_keys_intersections env m b d).1.pausing.transactions
            ≡ d.pausing.transactions ++ pause_transaction m b signature contract ∷ [])
        × ((check_keys_intersections env m b d).1.broker.published
            ≡ d.broker.published ++ pause_published m b signature topic ∷ [])
  unfolding collect_intersections_metrics
  check_keys_intersections-pauses m b d lido_wc e signature contract topic active known attack
        signed dsm free in_list on_topic taken =
      let found = attacks env m b lido_wc in
      rw
        (
          check_keys_intersections-known m b d lido_wc known,
          act_on_intersections-Occurs m b d found e active
              ((attacks_iff env m b lido_wc e).1 attack),
        )
        (handle_keys_intersections-pauses m b (measured m b found d) signature contract topic signed
          dsm free in_list on_topic taken)
