-- ===== src/Guardian/Cycle/Claims.antt =====
-- What the messages of a cycle of src/guardian/guardian.service.ts claim, and when that is so.
use lidofinance_lido_council.Shared.{◌≡◌, ◌⊎◌, ℕ, String, Option, some, true, false, not, List, map}
use lidofinance_lido_council.Outcome.{ok}
use lidofinance_lido_council.Contracts.{Address, Signature}
use lidofinance_lido_council.KeysApi.{SrModule, RegistryKey, SrModuleKeysResponse}
use lidofinance_lido_council.StakingRouter.Known.{Known, IsKnownCache}
use lidofinance_lido_council.Repository.{Repository, lido_abi, staking_router_abi, dsm_abi}
use lidofinance_lido_council.Wallet.{sign_deposit_data, sign_pause_data}
use lidofinance_lido_council.Deposit.{VerifiedDepositEvent, Deposits}
use lidofinance_lido_council.Messages.{
  Body, deposit_body, pause_body, ping_body, SignedState, Published,
}
use lidofinance_lido_council.Security.{PauseTransaction, Pausing, pause_deposits}
use lidofinance_lido_council.Guardian.State.{BlockData, StakingModuleData, GuardianEnv, Daemon}
use lidofinance_lido_council.Guardian.Message.{is_unknown_guardian}
use lidofinance_lido_council.Guardian.ModuleGuard.{sender_of, signed_state}
use lidofinance_lido_council.Shared.{Occurs}
use lidofinance_lido_council.Guardian.ModuleGuard.Intersections.{IsAttack}

-- `contracts` are the contracts that the repository holds during the cycle, and `modules` the listed modules.
module _ (env : GuardianEnv) (contracts : String → Option Address) (known : Known)
    (modules : List SrModule) where
  -- The Lido contract answers these withdrawal credentials at the block.
  abbrev pub IsLidoWc : String → String → Type 0
  IsLidoWc block_hash wc =
      (lido : Address) × (contracts lido_abi ≡ some lido)
      × (env.security.repository.contracts.get_withdrawal_credentials lido block_hash ≡ ok wc)

  -- The data of a module come from the list, from the router contract at the block, and from an answer
  -- of the keys service that is of the listed nonce or of the block.
  pub record IsRead (block_hash : String) (m : StakingModuleData) : Type 0 where
    pub sr_module : SrModule
    pub response : SrModuleKeysResponse
    pub router : Address
    pub listed : Occurs sr_module modules
    pub id : m.staking_module_id ≡ sr_module.id
    pub hash : m.block_hash ≡ block_hash
    pub router_known : contracts staking_router_abi ≡ some router
    pub active :
        env.security.repository.contracts.get_staking_module_is_active router sr_module.id
          block_hash
        ≡ ok (not m.is_deposits_paused)
    pub answered : known sr_module.id response
    pub nonce : m.nonce ≡ response.content.sr_module.nonce
    pub keys : m.unused_keys ≡ map (λ (k : RegistryKey). k.key) response.content.keys
    pub fresh :
        (response.content.sr_module.nonce ≡ sr_module.nonce)
        ⊎ (response.meta.block_hash ≡ block_hash)

  -- Every deposit with a valid signature that was made with one of the module's unused keys has Lido's credentials.
  abbrev pub IsSafe : BlockData → StakingModuleData → Type 0
  IsSafe b m =
      (e : VerifiedDepositEvent)
      → Occurs e b.deposited_events.events
      → Occurs e.pubkey m.unused_keys
      → e.valid ≡ true
      → IsLidoWc b.block_hash e.wc

  -- Some deposit is an attack on the module's unused keys.
  abbrev pub IsAttacked : BlockData → StakingModuleData → Type 0
  IsAttacked b m =
      (wc : String) × IsLidoWc b.block_hash wc × (e : VerifiedDepositEvent) × IsAttack m b wc e

  -- The guardian's signature for a deposit or for a pause
  abbrev pub IsDepositSignature : BlockData → StakingModuleData → Signature → Type 0
  IsDepositSignature b m signature =
      (prefix : String) × (signature
        ≡ sign_deposit_data env.security.wallet (record {
          prefix = prefix;
          block_number = b.block_number;
          block_hash = b.block_hash;
          deposit_root = b.deposit_root;
          keys_op_index = m.nonce;
          staking_module_id = m.staking_module_id;
        }))

  abbrev pub IsPauseSignature : BlockData → StakingModuleData → Signature → Type 0
  IsPauseSignature b m signature =
      (prefix : String) × (signature
        ≡ sign_pause_data env.security.wallet (record {
          prefix = prefix;
          block_number = b.block_number;
          staking_module_id = m.staking_module_id;
        }))

  -- A message about a module that is not paused: its fields are those of the module and of the block.
  pub record Concerns (b : BlockData) (Signed : BlockData → StakingModuleData → Signature → Type 0)
      (Verdict : BlockData → StakingModuleData → Type 0) (s : SignedState) : Type 0 where
    pub m : StakingModuleData
    pub signature : Signature
    pub read : IsRead b.block_hash m
    pub active : m.is_deposits_paused ≡ false
    pub fields : s ≡ signed_state m b signature
    pub signed : Signed b m signature
    pub verdict : Verdict b m

  abbrev pub IsTrueBody : BlockData → Body → Type 0
  IsTrueBody b (deposit_body s) = Concerns b IsDepositSignature IsSafe s
  IsTrueBody b (pause_body s) = Concerns b IsPauseSignature IsAttacked s
  IsTrueBody b (ping_body s) =
      (s.block_number ≡ b.block_number)
      × (s.staking_module_ids ≡ map (λ (x : SrModule). x.id) modules)

  -- A published message comes from a listed guardian and claims what is so at the block.
  pub record IsTrue (b : BlockData) (p : Published) : Type 0 where
    pub sender : p.message.content.sender ≡ sender_of b
    pub app : p.message.app ≡ env.app
    pub guardian : is_unknown_guardian b.guardian_index ≡ false
    pub body : IsTrueBody b p.message.content.body

  -- A pause transaction goes to the security contract, for an attacked module that is not paused.
  pub record IsTruePause (b : BlockData) (t : PauseTransaction) : Type 0 where
    pub m : StakingModuleData
    pub contract : contracts dsm_abi ≡ some t.contract
    pub read : IsRead b.block_hash m
    pub active : m.is_deposits_paused ≡ false
    pub number : t.block_number ≡ b.block_number
    pub id : t.staking_module_id ≡ m.staking_module_id
    pub signed : IsPauseSignature b m t.signature
    pub verdict : IsAttacked b m

-- What the steps of a cycle leave in place: the contracts, the origin of the cached keys, and a
-- property of the cached events and of the pauses.
pub record IsReady (contracts : String → Option Address) (known : Known)
    (sound : Deposits → Pausing → Type 0) (d : Daemon) : Type 0 where
  pub contracts_kept : d.repository.temp_contracts_cache ≡ contracts
  pub keys_known : IsKnownCache known d.router
  pub events_sound : sound d.deposits.state d.pausing

-- The property outlasts the beginning of a pause.
abbrev pub KeepsPausing : (Deposits → Pausing → Type 0) → Type 0
KeepsPausing sound =
    (repository : Repository) (block_number id : ℕ) (signature : Signature) (deposits : Deposits)
    (p : Pausing)
    → sound deposits p
    → sound deposits (pause_deposits repository block_number id signature p)

-- No property
abbrev pub AnyState : Deposits → Pausing → Type 0
AnyState deposits pausing = Unit {0}
