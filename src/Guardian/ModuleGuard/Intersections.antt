-- ===== src/Guardian/ModuleGuard/Intersections.antt =====
-- Which deposits count as an attack: src/guardian/staking-module-guard/staking-module-guard.service.ts.
use mathlib.Core.Path.{subst}
use lidofinance_lido_council.Shared.{Occurs}
use lidofinance_lido_council.Shared.{
  ◌≡◌, ◌≢◌, ◌↔◌, ◌⊎◌, inl, inr, refl, sym, ap, ◌∙◌, Bool-cases, String, Bool, true, not, List, [],
  ◌∷◌, filter, any, arith, eq_iff, str_eq,
}
use lidofinance_lido_council.Outcome.{ok, ok-injective, continue-eq-ok}
use lidofinance_lido_council.Deposit.{VerifiedDepositEvent}
use lidofinance_lido_council.Security.{get_withdrawal_credentials}
use lidofinance_lido_council.Guardian.State.{BlockData, StakingModuleData, Daemon, GuardianEnv}
use lidofinance_lido_council.Guardian.ModuleGuard.{
  get_keys_intersections, exclude_eligible_intersections, exclude_lido, with_other_wc,
}

pub any_iff : (k : String) (keys : List String) → (any (str_eq k) keys ≡ true) ↔ Occurs k keys
any_iff k [] = (λ h. absurd (ground arith), λ h. absurd h)
any_iff k (key ∷ keys) =
    let (to, from) = any_iff k keys in
    (
      λ h. elim (Bool-cases (str_eq k key)) [
        | inl same ↦ inl (sym ((eq_iff k key).0 same))
        | inr differ ↦ inr (to (ground arith))
      ],
      λ h. elim h [
        | inl same ↦ ground (arith, (eq_iff k key).1 (sym same))
        | inr later ↦ ground (arith, from later)
      ],
    )

pub filter_iff :
    {A : Type 0} (p : A → Bool) (x : A) (xs : List A)
    → Occurs x (filter p xs) ↔ (Occurs x xs × (p x ≡ true))
filter_iff p x [] = (λ h. absurd h, λ (h, _). absurd h)
filter_iff p x (y ∷ ys) = elim (Bool-cases (p y)) [
  | inl keep ↦
      let (to, from) = filter_iff p x ys in
      rw keep (
        λ h. elim h [
          | inl same ↦ (inl same, ap p (sym same) ∙ keep)
          | inr later ↦ (inr (to later).0, (to later).1)
        ],
        λ (h, px). elim h [ inl same ↦ inl same | inr later ↦ inr (from (later, px)) ],
      )
  | inr drop ↦
      let (to, from) = filter_iff p x ys in
      rw drop (
        λ h. (inr (to h).0, (to h).1),
        λ (h, px). elim h [ inl same ↦ absurd (cc (ap p same)) | inr later ↦ from (later, px) ],
      )
]

-- A deposit that puts the module's next keys at risk: it was made with one of them, its signature is
-- valid, and its withdrawal credentials are not Lido's.
pub record IsAttack (m : StakingModuleData) (b : BlockData) (lido_wc : String)
    (e : VerifiedDepositEvent) : Type 0 where
  pub deposited : Occurs e b.deposited_events.events
  pub unused : Occurs e.pubkey m.unused_keys
  pub valid : e.valid ≡ true
  pub foreign : e.wc ≢ lido_wc

module _ (env : GuardianEnv) where
  -- The filter, whether or not the credentials had to be asked for.
  pub exclude_eq :
      (b : BlockData) (events : List VerifiedDepositEvent) (d : Daemon) (wc : String)
      → (get_withdrawal_credentials env.security b.block_hash d.repository).0 ≡ ok wc
      → (exclude_eligible_intersections env b events d).0
        ≡ ok (with_other_wc env wc (filter (λ (e : VerifiedDepositEvent). e.valid) events))
  unfolding exclude_eligible_intersections
  exclude_eq b events d wc known = by_list (filter (λ (e : VerifiedDepositEvent). e.valid) events)
    where
      by_list :
          (l : List VerifiedDepositEvent) → (exclude_lido env b l d).0 ≡ ok (with_other_wc env wc l)
      by_list [] = refl
      by_list (e ∷ es) = rw known

  -- A filter that ends well asked for the credentials and got them, unless no intersection is valid.
  pub exclude_eligible_intersections-eq-ok :
      (b : BlockData) (events : List VerifiedDepositEvent) (d : Daemon)
      (found : List VerifiedDepositEvent)
      → (exclude_eligible_intersections env b events d).0 ≡ ok found
      → ((filter (λ (e : VerifiedDepositEvent). e.valid) events ≡ []) × (found ≡ []))
        ⊎ ((wc : String) × ((get_withdrawal_credentials env.security b.block_hash d.repository).0
              ≡ ok wc))
  unfolding exclude_eligible_intersections
  exclude_eligible_intersections-eq-ok b events d found =
      by_list (filter (λ (e : VerifiedDepositEvent). e.valid) events)
    where
      by_list :
          (l : List VerifiedDepositEvent)
          → (exclude_lido env b l d).0 ≡ ok found
          → ((l ≡ []) × (found ≡ []))
            ⊎ ((wc : String) × ((get_withdrawal_credentials env.security b.block_hash
                    d.repository).0
                  ≡ ok wc))
      by_list [] got = inl (refl, sym (ok-injective got))
      by_list (e ∷ es) got = let (wc, asked, _) = continue-eq-ok _ _ _ got in inr (wc, asked)

  abbrev pub attacks : StakingModuleData → BlockData → String → List VerifiedDepositEvent
  attacks m b wc =
      with_other_wc env wc
        (filter (λ (e : VerifiedDepositEvent). e.valid) (get_keys_intersections m b))

  pub attacks_iff :
      (m : StakingModuleData) (b : BlockData) (wc : String) (e : VerifiedDepositEvent)
      → Occurs e (attacks m b wc) ↔ IsAttack m b wc e
  unfolding get_keys_intersections
  attacks_iff m b wc e =
      let (wc_to, wc_from) =
        filter_iff (λ (x : VerifiedDepositEvent). not (str_eq x.wc wc)) e
          (filter (λ (x : VerifiedDepositEvent). x.valid) (get_keys_intersections m b)) in
      let (valid_to, valid_from) =
        filter_iff (λ (x : VerifiedDepositEvent). x.valid) e (get_keys_intersections m b) in
      let (key_to, key_from) =
        filter_iff (λ (x : VerifiedDepositEvent). any (str_eq x.pubkey) m.unused_keys) e
          b.deposited_events.events in
      let (unused_to, unused_from) = any_iff e.pubkey m.unused_keys in
      (
        λ h.
            let (in_valid, other) = wc_to h in
            let (in_keys, valid) = valid_to in_valid in
            let (in_events, used) = key_to in_keys in
            record {
              deposited = in_events;
              unused = unused_to used;
              valid = valid;
              foreign = λ same. ground (arith, (eq_iff e.wc wc).1 same);
            },
        λ a. wc_from (
          valid_from (key_from (a.deposited, unused_from a.unused), a.valid),
          other_wc e.wc wc a.foreign,
        ),
      )
    where
      other_wc : (x y : String) → x ≢ y → not (str_eq x y) ≡ true
      other_wc x y ne = ground (arith, eq_iff x y)

  -- If the contract answers Lido's credentials at the block and the filter ends well, an event is among
  -- what it leaves of the intersections exactly when it is an attack.
  pub exclude_eligible_intersections_iff :
      (m : StakingModuleData) (b : BlockData) (d : Daemon) (lido_wc : String)
      (found : List VerifiedDepositEvent)
      → (get_withdrawal_credentials env.security b.block_hash d.repository).0 ≡ ok lido_wc
      → (exclude_eligible_intersections env b (get_keys_intersections m b) d).0 ≡ ok found
      → (e : VerifiedDepositEvent) → Occurs e found ↔ IsAttack m b lido_wc e
  exclude_eligible_intersections_iff m b d lido_wc found known result e =
      let same : attacks m b lido_wc ≡ found =
        ok-injective (sym (exclude_eq b (get_keys_intersections m b) d lido_wc known) ∙ result) in
      subst (λ l. Occurs e l ↔ IsAttack m b lido_wc e) same (attacks_iff m b lido_wc e)
