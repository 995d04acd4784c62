-- ===== src/Deposit/Signed.antt =====
-- src/contracts/deposit/deposit.service.ts with src/bls/bls.service.ts: fetched deposits are marked
-- valid by the check of their signatures.
use lidofinance_lido_council.Shared.{
  ℕ, ◌≡◌, ◌↔◌, refl, ap, String, true, Option, some, List, [], ◌∷◌, map, length,
}
use lidofinance_lido_council.Outcome.{ok, traverse}
use lidofinance_lido_council.Provider.{Turn}
use lidofinance_lido_council.DepositEvents.{
  DepositEvent, VerifiedDepositEvent, VerifiedDepositEventGroup,
}
use lidofinance_lido_council.Deposit.{
  DepositEnv, DepositEventEvent, format_event, verified, verify_deposit, fetch_events,
}
use lidofinance_lido_council.Bls.{Bytes, DepositData, Library, zero_hash, checked, caught, verify}
use lidofinance_lido_council.Bls.Verified.{IsSigned, ok_true, verify_lem}

-- `const { pubkey, wc, amount, signature } = depositEvent`
abbrev pub deposit_data : DepositEvent → DepositData
deposit_data d = record { pubkey = d.pubkey; wc = d.wc; amount = d.amount; signature = d.signature }

-- The deposit service with the BLS service
abbrev pub with_bls : Library → Option Bytes → DepositEnv → DepositEnv
with_bls lib fork_version env = record env {
  verify = λ event. verify lib fork_version (deposit_data event);
}

-- Each event is marked valid exactly when it is signed.
abbrev pub MarkedBySignature : Library → Bytes → List VerifiedDepositEvent → Type 1
MarkedBySignature lib fork_version [] = Unit
MarkedBySignature lib fork_version (event ∷ events) =
    ((event.valid ≡ true) ↔ IsSigned lib fork_version (deposit_data event.deposit))
    × MarkedBySignature lib fork_version events

module _ (lib : Library) (fork_version : Bytes) (env : DepositEnv) where
  abbrev marked : DepositEventEvent → VerifiedDepositEvent
  marked raw = record {
    valid = caught (checked lib fork_version (deposit_data (format_event raw)));
    deposit = format_event raw;
  }

  traverse-marked :
      (raws : List DepositEventEvent)
      → traverse (verified (with_bls lib (some fork_version) env)) raws ≡ ok (map marked raws)
  unfolding verify verify_deposit
  traverse-marked [] = refl
  traverse-marked (raw ∷ raws) = rw (traverse-marked raws) refl

  marked-MarkedBySignature :
      (raws : List DepositEventEvent)
      → length (lib.fork_data_root fork_version zero_hash) ≡ 32
      → MarkedBySignature lib fork_version (map marked raws)
  unfolding verify
  marked-MarkedBySignature [] size = tt
  marked-MarkedBySignature (raw ∷ raws) size =
      let (_, _, (signed, marked_valid)) =
        verify_lem lib fork_version (deposit_data (format_event raw)) size in
      (
        (
          (λ h. signed (ap ok h)),
          λ s.
              ok_true (caught (checked lib fork_version (deposit_data (format_event raw))))
                (marked_valid s),
        ),
        marked-MarkedBySignature raws size,
      )

  deposits-marked :
      (raws : List DepositEventEvent)
      → map (λ (event : VerifiedDepositEvent). event.deposit) (map marked raws)
        ≡ map format_event raws
  deposits-marked [] = refl
  deposits-marked (raw ∷ raws) = ap (λ ds. format_event raw ∷ ds) (deposits-marked raws)

  -- With the BLS service started, a fetch of the deposit events succeeds whenever the query of the
  -- known contract does: no deposit makes it fail. It gives the events of the query, in their order,
  -- each marked valid exactly when it is signed, where the fork data root has its 32 bytes.
  pub fetch_events-MarkedBySignature :
      (contract : String) (raws : List DepositEventEvent) (turns : List Turn)
      (start_block end_block : ℕ)
      → env.deposit_contract ≡ some contract
      → env.query_filter contract turns start_block end_block ≡ ok raws
      → length (lib.fork_data_root fork_version zero_hash) ≡ 32
      → (group : VerifiedDepositEventGroup) × (fetch_events
            (with_bls lib (some fork_version) env)
            turns
            start_block
            end_block
          ≡ ok group)
        × (map (λ (event : VerifiedDepositEvent). event.deposit) group.events
            ≡ map format_event raws)
        × MarkedBySignature lib fork_version group.events
  unfolding fetch_events
  fetch_events-MarkedBySignature contract raws turns start_block end_block known found size = (
    record { events = map marked raws; start_block = start_block; end_block = end_block },
    rw (known, found, traverse-marked raws) refl,
    deposits-marked raws,
    marked-MarkedBySignature raws size,
  )
