-- ===== src/Repository/Waiting.antt =====
-- How `initOrWaitCachedContracts` of src/contracts/repository/repository.service.ts comes to an end.
use mathlib.Core.Path.{subst}
use lidofinance_lido_council.Shared.{
  ℕ, zero, suc, ◌+◌, ◌≤◌, ◌<◌, ◌≡◌, ◌⊎◌, inl, inr, refl, arith, Bool-cases, ltb,
}
use lidofinance_lido_council.Outcome.{Failure, Outcome, ok, throw}
use lidofinance_lido_council.Repository.{
  Repository, RepositoryEnv, Block, init_cached_contracts, init_or_wait_cached_contracts,
}

module _ (envs : ℕ → RepositoryEnv) (blocks : ℕ → Outcome Block) where
  -- In attempt `n` the block is known, and the initialisation succeeds or is rejected.
  pub record Settles (n : ℕ) : Type 0 where
    pub block : Block
    pub known : blocks n ≡ ok block
    pub settles :
        (s : Repository)
        → ((init_cached_contracts (envs n) block.hash s).0 ≡ ok tt)
          ⊎ ((error : Failure) × ((init_cached_contracts (envs n) block.hash s).0 ≡ throw error))

  -- In attempt `n` the block is known, and the initialisation succeeds.
  pub record Succeeds (n : ℕ) : Type 0 where
    pub block : Block
    pub known : blocks n ≡ ok block
    pub succeeds : (s : Repository) → (init_cached_contracts (envs n) block.hash s).0 ≡ ok tt

  -- The result is the block of an attempt not after `last`, and the state the one that this attempt's successful
  -- initialisation left.
  pub record Ends (last : ℕ) (result : Outcome Block × Repository) : Type 0 where
    pub attempt : ℕ
    pub block : Block
    pub before : Repository
    pub in_time : attempt ≤ last
    pub known : blocks attempt ≡ ok block
    pub success : init_cached_contracts (envs attempt) block.hash before ≡ (ok tt, result.1)
    pub returned : result.0 ≡ ok block

  -- If each attempt before `last` settles and the attempt `last` is answered, then with fuel for all of
  -- them the call returns.
  pub init_or_wait_cached_contracts-Ends :
      (fuel n last : ℕ) (s : Repository)
      → n ≤ last
      → last < n + fuel
      → ((i : ℕ) → n ≤ i → i < last → Settles i)
      → Succeeds last
      → Ends last (init_or_wait_cached_contracts fuel envs blocks n s)
  unfolding init_or_wait_cached_contracts
  init_or_wait_cached_contracts-Ends zero n last s reached enough settled answered =
      absurd (omega arith)
  init_or_wait_cached_contracts-Ends (suc fuel) n last s reached enough settled answered =
      let again : (x : Repository)
          → n < last
          → Ends last (init_or_wait_cached_contracts fuel envs blocks (suc n) x) =
        λ x before.
          init_or_wait_cached_contracts-Ends fuel (suc n) last x (omega arith) (omega arith)
            (λ i low high. settled i (omega arith) high) answered in
      elim (Bool-cases (ltb n last)) [
        | inl before ↦
            let attempt : Settles n = settled n (omega arith) (ground arith) in
            elim (attempt.settles s) [
              | inl success ↦ attempt_succeeds attempt.block attempt.known success
              | inr (error, failed) ↦
                  rw (attempt.known, failed)
                    (again (init_cached_contracts (envs n) attempt.block.hash s).1 (ground arith))
            ]
        | inr after ↦
            let here : last ≡ n = ground arith in
            let attempt : Succeeds n = subst Succeeds here answered in
            attempt_succeeds attempt.block attempt.known (attempt.succeeds s)
      ]
    where
      attempt_succeeds :
          (block : Block)
          → blocks n ≡ ok block
          → (init_cached_contracts (envs n) block.hash s).0 ≡ ok tt
          → Ends last (init_or_wait_cached_contracts (suc fuel) envs blocks n s)
      attempt_succeeds block known success =
          rw (known, success)
            (record {
              attempt = n;
              block = block;
              before = s;
              in_time = reached;
              known = known;
              success = λ i. (success i, (init_cached_contracts (envs n) block.hash s).1);
              returned = refl;
            })
