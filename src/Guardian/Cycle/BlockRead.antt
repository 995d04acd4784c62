-- ===== src/Guardian/Cycle/BlockRead.antt =====
-- What `getCurrentBlockData` of src/guardian/block-guard/block-guard.service.ts reads, and what it leaves alone.
use mathlib.Core.Path.{subst}
use lidofinance_lido_council.Shared.{◌≡◌, refl, String, arith}
use lidofinance_lido_council.Shared.Int.{ℤ}
use lidofinance_lido_council.Outcome.{Outcome, ok, both, both_of-eq-ok}
use lidofinance_lido_council.Security.{get_guardian_index, get_guardian_address}
use lidofinance_lido_council.Security.Guardians.{get_guardian_index_keeps}
use lidofinance_lido_council.Deposit.{
  VerifiedDepositEventGroup, get_deposit_root, get_all_deposited_events,
}
use lidofinance_lido_council.Guardian.State.{
  BlockData, StateMeta, Daemon, GuardianEnv, on_repository, deposit_env,
}
use lidofinance_lido_council.Guardian.BlockGuard.{
  get_current_block_data, read_contracts, read_deposit_root, read_deposited_events,
}

module _ (env : GuardianEnv) (meta : StateMeta) where
  -- The data of the block `meta`, as a daemon reads them.
  pub record IsBlock (d : Daemon) (b : BlockData) : Type 0 where
    pub hash : b.block_hash ≡ meta.block_hash
    pub number : b.block_number ≡ meta.block_number
    pub address : b.guardian_address ≡ get_guardian_address env.security
    pub root : get_deposit_root (deposit_env env d) meta.block_hash ≡ ok b.deposit_root
    pub events :
        (get_all_deposited_events
          (deposit_env env d)
          meta.block_number
          meta.block_hash
          d.deposits.state).0
        ≡ ok b.deposited_events
    pub index :
        (get_guardian_index env.security meta.block_hash d.repository).0 ≡ ok b.guardian_index

  -- Only the deposits and the count of errors may change.
  pub get_current_block_data-others :
      (d : Daemon)
      → ((get_current_block_data env meta d).1.broker ≡ d.broker)
        × ((get_current_block_data env meta d).1.router ≡ d.router)
        × ((get_current_block_data env meta d).1.repository.temp_contracts_cache
            ≡ d.repository.temp_contracts_cache)
  unfolding get_current_block_data
  get_current_block_data-others d = (
    ground arith,
    ground arith,
    ground (arith, get_guardian_index_keeps env.security meta.block_hash d.repository),
  )

  -- The cached events are those that reading all deposits leaves, however the call ends.
  pub get_current_block_data-deposits :
      (d : Daemon)
      → (get_current_block_data env meta d).1.deposits.state
        ≡ (get_all_deposited_events
            (deposit_env env d)
            meta.block_number
            meta.block_hash
            d.deposits.state).1
  unfolding get_current_block_data
  get_current_block_data-deposits d = ground arith

  -- Reading leaves the pauses alone.
  pub get_current_block_data-pausing :
      (d : Daemon) → (get_current_block_data env meta d).1.pausing ≡ d.pausing
  unfolding get_current_block_data
  get_current_block_data-pausing d = ground arith

  -- A call that succeeds returns the data of the block.
  pub get_current_block_data-IsBlock :
      (d : Daemon) (b : BlockData) → (get_current_block_data env meta d).0 ≡ ok b → IsBlock d b
  unfolding get_current_block_data
  get_current_block_data-IsBlock d b got = by_reading (read_contracts env meta d).0 refl
    where
      by_reading :
          (r : Outcome (String × (VerifiedDepositEventGroup × ℤ)))
          → (read_contracts env meta d).0 ≡ r
          → IsBlock d b
      by_reading (ok (root, (events, index))) e =
          let (root_read, rest) =
            both_of-eq-ok (read_deposit_root env meta d).0
              (both (read_deposited_events env meta)
                (on_repository (get_guardian_index env.security meta.block_hash)) d).0
              e in
          let (events_read, index_read) =
            both_of-eq-ok (read_deposited_events env meta d).0
              (on_repository (get_guardian_index env.security meta.block_hash) d).0 rest in
          let same : record {
            block_number = meta.block_number;
            block_hash = meta.block_hash;
            deposit_root = root;
            deposited_events = events;
            guardian_address = get_guardian_address env.security;
            guardian_index = index;
          }
              ≡ b =
            ground arith in
          subst (IsBlock d) same (record {
            hash = refl;
            number = refl;
            address = refl;
            root = root_read;
            events = events_read;
            index = index_read;
          })
      by_reading r e = absurd (ground arith)
