-- ===== src/Guardian/Cycle/Reading.antt =====
-- What `getStakingRouterModuleData` of src/guardian/staking-module-guard/staking-module-guard.service.ts reads of a module.
use mathlib.Core.Path.{subst}
use lidofinance_lido_council.Shared.{
  ◌≡◌, inl, inr, refl, sym, ap, ◌∙◌, ℕ, String, Option, Bool, List,
}
use lidofinance_lido_council.Outcome.{Outcome, ok, continue-eq-ok, continue_keeps, ok-injective}
use lidofinance_lido_council.Contracts.{Address}
use lidofinance_lido_council.KeysApi.{SrModule, SrModuleKeysResponse, get_unused_module_keys}
use lidofinance_lido_council.StakingRouter.{get_staking_module_unused_keys}
use lidofinance_lido_council.StakingRouter.Freshness.{get_staking_module_unused_keys-fresh}
use lidofinance_lido_council.StakingRouter.Known.{
  Known, get_staking_module_unused_keys-IsKnownCache,
}
use lidofinance_lido_council.Repository.{Repository, staking_router_abi}
use lidofinance_lido_council.Security.{is_deposits_paused}
use lidofinance_lido_council.Security.Guardians.{is_deposits_paused_keeps, is_deposits_paused-eq-ok}
use lidofinance_lido_council.Deposit.{Deposits}
use lidofinance_lido_council.Security.{Pausing}
use lidofinance_lido_council.Guardian.State.{
  StakingModuleData, Daemon, GuardianEnv, BlockData, on_router, on_repository,
}
use lidofinance_lido_council.Guardian.ModuleGuard.{get_staking_router_module_data}
use lidofinance_lido_council.Shared.{Occurs}
use lidofinance_lido_council.Guardian.Cycle.Claims.{IsRead, IsReady}
use lidofinance_lido_council.Guardian.Cycle.Steps.{Speaks, Speaks-refl}

module _ (env : GuardianEnv) (contracts : String → Option Address) (known : Known)
    (sound : Deposits → Pausing → Type 0) (modules : List SrModule) where
  module _
      (answers : (id : ℕ) (response : SrModuleKeysResponse)
        → get_unused_module_keys env.keys_api id ≡ ok response
        → known id response) where
    abbrev routed : SrModule → String → Daemon → Outcome SrModuleKeysResponse × Daemon
    routed s h d = on_router (get_staking_module_unused_keys env.keys_api h s) d

    routed-IsReady :
        (s : SrModule) (h : String) (d : Daemon)
        → IsReady contracts known sound d
        → IsReady contracts known sound (routed s h d).1
    routed-IsReady s h d ready = record {
      contracts_kept = ready.contracts_kept;
      keys_known =
          get_staking_module_unused_keys-IsKnownCache env.keys_api known answers h s d.router
            ready.keys_known;
      events_sound = ready.events_sound;
    }

    abbrev asked : SrModule → String → Daemon → Outcome Bool × Daemon
    asked s h d = on_repository (is_deposits_paused env.security s.id h) (routed s h d).1

    asked-IsReady :
        (s : SrModule) (h : String) (d : Daemon)
        → IsReady contracts known sound d
        → IsReady contracts known sound (asked s h d).1
    asked-IsReady s h d ready = record {
      contracts_kept =
          ap (λ (r : Repository). r.temp_contracts_cache)
            (is_deposits_paused_keeps env.security s.id h d.repository)
          ∙ ready.contracts_kept;
      keys_known = (routed-IsReady s h d ready).keys_known;
      events_sound = ready.events_sound;
    }

    -- Nothing is said, and the contracts and the known keys stay.
    pub get_staking_router_module_data-Speaks :
        (b : BlockData) (s : SrModule) (h : String) (d : Daemon)
        → IsReady contracts known sound d
        → Speaks env contracts known sound modules b d (get_staking_router_module_data env s h d).1
    unfolding get_staking_router_module_data
    get_staking_router_module_data-Speaks b s h d ready =
        continue_keeps (Speaks env contracts known sound modules b d) _ (routed s h d).0
          (routed s h d).1
          (Speaks-refl env contracts known sound modules b (routed s h d).1
            (routed-IsReady s h d ready))
          (λ response got.
            continue_keeps (Speaks env contracts known sound modules b d) _ (asked s h d).0
              (asked s h d).1
              (Speaks-refl env contracts known sound modules b (asked s h d).1
                (asked-IsReady s h d ready))
              (λ paused _.
                Speaks-refl env contracts known sound modules b (asked s h d).1
                  (asked-IsReady s h d ready)))

    -- A module that was read is the listed one, with the router's word on its pause and known keys.
    pub get_staking_router_module_data-IsRead :
        (s : SrModule) (h : String) (d : Daemon) (m : StakingModuleData)
        → Occurs s modules
        → IsReady contracts known sound d
        → (get_staking_router_module_data env s h d).0 ≡ ok m
        → IsRead env contracts known modules h m
    unfolding get_staking_router_module_data
    get_staking_router_module_data-IsRead s h d m listed ready got =
        let (response, fetched, got') = continue-eq-ok _ (routed s h d).0 (routed s h d).1 got in
        let (paused, answer, got'') = continue-eq-ok _ (asked s h d).0 (asked s h d).1 got' in
        subst (IsRead env contracts known modules h) (ok-injective got'') (
          let (router, cached, active) =
            is_deposits_paused-eq-ok env.security s.id h d.repository paused answer in
          let (origin, _, _) =
            get_staking_module_unused_keys-fresh env.keys_api h s d.router response fetched in
          record {
            sr_module = s;
            response = response;
            router = router;
            listed = listed;
            id = refl;
            hash = refl;
            router_known = ap (λ f. f staking_router_abi) (sym ready.contracts_kept) ∙ cached;
            active = active;
            answered = elim origin [
              | inl (kept, _) ↦ ready.keys_known s.id response kept
              | inr (came, _) ↦ answers s.id response came
            ];
            nonce = refl;
            keys = refl;
            fresh = elim origin [ inl (_, nonce) ↦ inl nonce | inr (_, hash) ↦ inr hash ];
          })
