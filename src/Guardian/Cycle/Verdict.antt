-- ===== src/Guardian/Cycle/Verdict.antt =====
-- What the filter of `checkKeysIntersections` in src/guardian/staking-module-guard/staking-module-guard.service.ts
-- says of a module: safe when nothing is left, attacked otherwise.
use mathlib.Core.Path.{subst}
use lidofinance_lido_council.Shared.{
  ◌≡◌, inl, inr, refl, sym, ap, ◌∙◌, String, Option, none, some, true, List, [], ◌∷◌, filter,
  Bool-cases, arith, eq_iff, str_eq, any,
}
use lidofinance_lido_council.Outcome.{ok, ok-injective}
use lidofinance_lido_council.Contracts.{Address}
use lidofinance_lido_council.KeysApi.{SrModule}
use lidofinance_lido_council.Repository.{
  Repository, get_cached_lido_contract, get_from_cache, lido_abi,
}
use lidofinance_lido_council.StakingRouter.Known.{Known}
use lidofinance_lido_council.Deposit.{VerifiedDepositEvent}
use lidofinance_lido_council.Security.{get_withdrawal_credentials}
use lidofinance_lido_council.Guardian.State.{BlockData, StakingModuleData, Daemon, GuardianEnv}
use lidofinance_lido_council.Guardian.ModuleGuard.{
  get_keys_intersections, exclude_eligible_intersections,
}
use lidofinance_lido_council.Shared.{Occurs}
use lidofinance_lido_council.Guardian.ModuleGuard.Intersections.{
  IsAttack, filter_iff, any_iff, attacks, attacks_iff, exclude_eq,
  exclude_eligible_intersections-eq-ok,
}
use lidofinance_lido_council.Guardian.Cycle.Claims.{IsLidoWc, IsSafe, IsAttacked}

module _ (env : GuardianEnv) (contracts : String → Option Address) (known : Known)
    (modules : List SrModule) where
  get_withdrawal_credentials-IsLidoWc :
      (h wc : String) (s : Repository)
      → s.temp_contracts_cache ≡ contracts
      → (get_withdrawal_credentials env.security h s).0 ≡ ok wc
      → IsLidoWc env contracts known modules h wc
  unfolding get_withdrawal_credentials get_cached_lido_contract get_from_cache
  get_withdrawal_credentials-IsLidoWc h wc s same got =
      by_contract (s.temp_contracts_cache lido_abi) refl
    where
      by_contract :
          (o : Option Address)
          → s.temp_contracts_cache lido_abi ≡ o
          → IsLidoWc env contracts known modules h wc
      by_contract none e = absurd (ground arith)
      by_contract (some lido) e = (lido, ap (λ f. f lido_abi) (sym same) ∙ e, ground arith)

  abbrev valid_intersections : StakingModuleData → BlockData → List VerifiedDepositEvent
  valid_intersections m b =
      filter (λ (e : VerifiedDepositEvent). e.valid) (get_keys_intersections m b)

  -- A valid deposit with an unused key is an intersection.
  valid_intersections-Occurs :
      (m : StakingModuleData) (b : BlockData) (e : VerifiedDepositEvent)
      → Occurs e b.deposited_events.events
      → Occurs e.pubkey m.unused_keys
      → e.valid ≡ true
      → Occurs e (valid_intersections m b)
  unfolding get_keys_intersections
  valid_intersections-Occurs m b e deposited unused valid =
      (filter_iff (λ (x : VerifiedDepositEvent). x.valid) e (get_keys_intersections m b)).1 (
        (filter_iff (λ (x : VerifiedDepositEvent). any (str_eq x.pubkey) m.unused_keys) e
              b.deposited_events.events).1
            (deposited, (any_iff e.pubkey m.unused_keys).1 unused),
        valid,
      )

  -- The verdict on what the filter leaves
  abbrev pub Verdict : StakingModuleData → BlockData → List VerifiedDepositEvent → Type 0
  Verdict m b [] = IsSafe env contracts known modules b m
  Verdict m b (_ ∷ _) = IsAttacked env contracts known modules b m

  attacks-Verdict :
      (m : StakingModuleData) (b : BlockData) (wc : String)
      → IsLidoWc env contracts known modules b.block_hash wc
      → Verdict m b (attacks env m b wc)
  attacks-Verdict m b wc lido = by_attacks (attacks env m b wc) (attacks_iff env m b wc)
    where
      by_attacks :
          (found : List VerifiedDepositEvent)
          → ((e : VerifiedDepositEvent)
              → (Occurs e found → IsAttack m b wc e) × (IsAttack m b wc e → Occurs e found))
          → Verdict m b found
      by_attacks [] iff = λ e deposited unused valid. elim (Bool-cases (str_eq e.wc wc)) [
        | inl same ↦ rw ((eq_iff e.wc wc).0 same) lido
        | inr differ ↦ absurd (
            (iff e).1 (record {
              deposited = deposited;
              unused = unused;
              valid = valid;
              foreign = λ same. ground (arith, (eq_iff e.wc wc).1 same);
            }))
      ]
      by_attacks (e ∷ es) iff = (wc, lido, e, (iff e).0 (inl refl))

  -- When the filter ends well its verdict holds, also when it did not have to ask for the credentials.
  pub exclude_eligible_intersections-Verdict :
      (m : StakingModuleData) (b : BlockData) (d : Daemon) (found : List VerifiedDepositEvent)
      → d.repository.temp_contracts_cache ≡ contracts
      → (exclude_eligible_intersections env b (get_keys_intersections m b) d).0 ≡ ok found
      → Verdict m b found
  exclude_eligible_intersections-Verdict m b d found same got =
      elim (exclude_eligible_intersections-eq-ok env b (get_keys_intersections m b) d found got) [
        | inl (no_valid, nothing) ↦ rw nothing (λ e deposited unused valid.
            absurd
              (subst (Occurs e) no_valid (valid_intersections-Occurs m b e deposited unused valid)))
        | inr (wc, asked) ↦
            let exact : attacks env m b wc ≡ found =
              ok-injective (sym (exclude_eq env b (get_keys_intersections m b) d wc asked) ∙ got) in
            subst (Verdict m b) exact (
              attacks-Verdict m b wc
                (get_withdrawal_credentials-IsLidoWc b.block_hash wc d.repository same asked))
      ]
