-- ===== src/Guardian/Cycle/Attacked.antt =====
-- A cycle of src/guardian/guardian.service.ts that meets an attack on a module, when everything that the module's check asks for answers.
use lidofinance_lido_council.Shared.{
  ◌≡◌, inl, inr, refl, ap, ◌∙◌, String, Option, some, true, false, List, [], ◌∷◌, ◌++◌, map,
}
use lidofinance_lido_council.Outcome.{ok}
use lidofinance_lido_council.Contracts.{Address, Signature}
use lidofinance_lido_council.KeysApi.{
  SrModule, RegistryKey, SrModuleKeysResponse, get_unused_module_keys,
}
use lidofinance_lido_council.StakingRouter.{get_staking_module_unused_keys}
use lidofinance_lido_council.StakingRouter.Freshness.{get_staking_module_unused_keys-answered}
use lidofinance_lido_council.StakingRouter.Known.{Known}
use lidofinance_lido_council.Repository.{lido_abi, dsm_abi, staking_router_abi}
use lidofinance_lido_council.Deposit.{VerifiedDepositEvent, Deposits}
use lidofinance_lido_council.Messages.{Published, get_message_topic, send_message}
use lidofinance_lido_council.Security.{is_deposits_paused, get_withdrawal_credentials}
use lidofinance_lido_council.Security.Guardians.{
  is_deposits_paused-known, get_withdrawal_credentials-known,
}
use lidofinance_lido_council.Security.Signatures.{sign_pause_data-known}
use lidofinance_lido_council.Security.{Pausing}
use lidofinance_lido_council.Guardian.State.{BlockData, StakingModuleData, Daemon, GuardianEnv}
use lidofinance_lido_council.Guardian.Message.{
  is_unknown_guardian, send_message_from_guardian, send_pause_message, add_message_meta_data,
}
use lidofinance_lido_council.Guardian.Metrics.{collect_intersections_metrics}
use lidofinance_lido_council.Guardian.ModuleGuard.{
  handle_keys_intersections, check_keys_intersections, get_staking_router_module_data,
}
use lidofinance_lido_council.Shared.{Occurs}
use lidofinance_lido_council.Guardian.ModuleGuard.Intersections.{IsAttack, attacks, attacks_iff}
use lidofinance_lido_council.Guardian.ModuleGuard.Messages.{
  pause_published, check_keys_intersections-known, act_on_intersections-Occurs, measured,
}
use lidofinance_lido_council.Guardian.Cycle.Claims.{IsReady}

-- The data of a module that the router calls active, with the keys of a response.
abbrev pub active_module : SrModule → SrModuleKeysResponse → String → StakingModuleData
active_module s response block_hash = record {
  block_hash = block_hash;
  is_deposits_paused = false;
  unused_keys = map (λ (k : RegistryKey). k.key) response.content.keys;
  nonce = response.content.sr_module.nonce;
  staking_module_id = s.id;
}

-- For the module only this response is known.
abbrev pub Only : SrModule → SrModuleKeysResponse → Known
Only s response id other = id ≡ s.id → other ≡ response

-- The check of the module `s` at a block has what it needs: the contracts are cached and answer, the
-- module is active, the keys service answers with keys of the block, the guardian is listed, and the
-- broker takes what it is given.
pub record IsServed (env : GuardianEnv) (contracts : String → Option Address) (b : BlockData)
    (s : SrModule) (response : SrModuleKeysResponse) (wc topic : String) : Type 0 where
  pub lido : Address
  pub dsm : Address
  pub router : Address
  pub prefix : String
  pub lido_cached : contracts lido_abi ≡ some lido
  pub dsm_cached : contracts dsm_abi ≡ some dsm
  pub router_cached : contracts staking_router_abi ≡ some router
  pub credentials :
      env.security.repository.contracts.get_withdrawal_credentials lido b.block_hash ≡ ok wc
  pub prefix_answer : env.security.repository.contracts.pause_message_prefix dsm ≡ ok prefix
  pub active :
      env.security.repository.contracts.get_staking_module_is_active router s.id b.block_hash
      ≡ ok true
  pub keys : get_unused_module_keys env.keys_api s.id ≡ ok response
  pub at_block : response.meta.block_hash ≡ b.block_hash
  pub guardian : is_unknown_guardian b.guardian_index ≡ false
  pub topic_answer : get_message_topic env.messages ≡ ok topic
  pub taken : (p : Published) → env.messages.publish p ≡ ok tt

-- Among the messages is one that asks to pause the module at the block.
abbrev pub HasPause : GuardianEnv → BlockData → StakingModuleData → String → List Published → Type 0
HasPause env b m topic messages =
    (signature : Signature) × Occurs (pause_published env m b signature topic) messages

Occurs-append : {A : Type 0} (x : A) (xs : List A) → Occurs x (xs ++ x ∷ [])
Occurs-append x [] = inl refl
Occurs-append x (y ∷ ys) = inr (Occurs-append x ys)

-- What was published stays published.
pub Occurs-more : {A : Type 0} (x : A) (xs ys : List A) → Occurs x xs → Occurs x (xs ++ ys)
Occurs-more x (y ∷ xs) ys (inl here) = inl here
Occurs-more x (y ∷ xs) ys (inr later) = inr (Occurs-more x xs ys later)
Occurs-more x [] ys never = absurd never

module _ (env : GuardianEnv) (contracts : String → Option Address)
    (sound : Deposits → Pausing → Type 0) (b : BlockData) (s : SrModule)
    (response : SrModuleKeysResponse) (wc topic : String)
    (served : IsServed env contracts b s response wc topic) where
  abbrev m : StakingModuleData
  m = active_module s response b.block_hash

  pub get_staking_router_module_data-active :
      (d : Daemon)
      → IsReady contracts (Only s response) sound d
      → (get_staking_router_module_data env s b.block_hash d).0 ≡ ok m
  unfolding get_staking_router_module_data
  get_staking_router_module_data-active d ready =
      let keys : (get_staking_module_unused_keys env.keys_api b.block_hash s d.router).0
          ≡ ok response =
        get_staking_module_unused_keys-answered env.keys_api b.block_hash s d.router response
          (λ kept e. ready.keys_known s.id kept e refl) served.keys served.at_block in
      let paused : (is_deposits_paused env.security s.id b.block_hash d.repository).0 ≡ ok false =
        is_deposits_paused-known env.security s.id b.block_hash d.repository served.router
          (ap (λ f. f staking_router_abi) ready.contracts_kept ∙ served.router_cached)
          served.active in
      simp (keys, paused) refl

  handle_keys_intersections-HasPause :
      (d : Daemon)
      → d.repository.temp_contracts_cache ≡ contracts
      → HasPause env b m topic (handle_keys_intersections env m b d).1.broker.published
  unfolding handle_keys_intersections send_pause_message send_message_from_guardian send_message
      add_message_meta_data
  handle_keys_intersections-HasPause d same =
      let (signature, signed) =
        sign_pause_data-known env.security b.block_number s.id d.repository served.dsm served.prefix
          (ap (λ f. f dsm_abi) same ∙ served.dsm_cached) served.prefix_answer in
      (
        signature,
        simp
            (
              signed,
              served.guardian,
              served.topic_answer,
              served.taken (pause_published env m b signature topic),
            )
            (Occurs-append (pause_published env m b signature topic) d.broker.published),
      )

  pub check_keys_intersections-HasPause :
      (e : VerifiedDepositEvent) (d : Daemon)
      → IsAttack m b wc e
      → d.repository.temp_contracts_cache ≡ contracts
      → HasPause env b m topic (check_keys_intersections env m b d).1.broker.published
  unfolding collect_intersections_metrics
  check_keys_intersections-HasPause e d attack same =
      let asked : (get_withdrawal_credentials env.security b.block_hash d.repository).0 ≡ ok wc =
        get_withdrawal_credentials-known env.security b.block_hash d.repository served.lido wc
          (ap (λ f. f lido_abi) same ∙ served.lido_cached) served.credentials in
      let found : List VerifiedDepositEvent = attacks env m b wc in
      rw
        (
          check_keys_intersections-known env m b d wc asked,
          act_on_intersections-Occurs env m b d found e refl ((attacks_iff env m b wc e).1 attack),
        )
        (handle_keys_intersections-HasPause (measured env m b found d) same)
