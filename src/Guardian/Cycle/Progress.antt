-- ===== src/Guardian/Cycle/Progress.antt =====
-- How `handleNewBlock` of src/guardian/guardian.service.ts moves from block to block.
use lidofinance_lido_council.Shared.{
  ◌≤◌, ◌<◌, ◌≡◌, ◌⊎◌, ap, ◌∙◌, eq_iff, inl, inr, Option, none, some, true, false, List, arith,
  Bool-cases,
}
use lidofinance_lido_council.Outcome.{Outcome, ok, continue_keeps}
use lidofinance_lido_council.StakingRouter.{get_staking_modules}
use lidofinance_lido_council.Repository.{init_cached_contracts}
use lidofinance_lido_council.KeysApi.{SrModule, SrModuleListResponse}
use lidofinance_lido_council.Guardian.State.{on_repository, StateMeta, Daemon, GuardianEnv}
use lidofinance_lido_council.Guardian.BlockGuard.{is_need_to_process_new_state}
use lidofinance_lido_council.Guardian.Cycle.{
  process_state, process_if_new, run_cycle, handle_new_block, meta_of,
}
use lidofinance_lido_council.Guardian.Cycle.Frame.{last_meta, meta-process_state}

-- The last processed block never goes back, and is never forgotten.
abbrev pub NotBefore : Option StateMeta → Option StateMeta → Type 0
NotBefore none _ = Unit
NotBefore (some m) none = ⊥
NotBefore (some m) (some n) = m.block_number ≤ n.block_number

-- A state is needed only if it is not older than the last one, and is of another block.
pub is_need_to_process_new_state_sound :
    (last : Option StateMeta) (m : StateMeta)
    → is_need_to_process_new_state last m ≡ true
    → NotBefore last (some m)
unfolding is_need_to_process_new_state
is_need_to_process_new_state_sound none m h = tt
is_need_to_process_new_state_sound (some last) m h = ground arith

-- An older state, or one of the same block, is not needed.
is_need_to_process_new_state-old :
    (last m : StateMeta)
    → (m.block_number < last.block_number) ⊎ (last.block_hash ≡ m.block_hash)
    → is_need_to_process_new_state (some last) m ≡ false
unfolding is_need_to_process_new_state
is_need_to_process_new_state-old last m (inl older) = ground arith
is_need_to_process_new_state-old last m (inr same) =
    ground (arith, (eq_iff last.block_hash m.block_hash).1 same)

NotBefore-refl : (m : Option StateMeta) → NotBefore m m
NotBefore-refl none = tt
NotBefore-refl (some m) = omega arith

module _ (env : GuardianEnv) where
  process_state-NotBefore :
      (m : StateMeta) (modules : List SrModule) (d : Daemon)
      → NotBefore (last_meta d) (some m)
      → NotBefore (last_meta d) (last_meta (process_state env m modules d).1)
  process_state-NotBefore m modules d h =
      rw (meta-process_state env m modules d) (by_end (process_state env m modules d).0)
    where
      by_end :
          (r : Outcome (Unit {0}))
          → NotBefore (last_meta d) (elim r [ ok _ ↦ some m | _ ↦ last_meta d ])
      by_end (ok _) = h
      by_end _ = NotBefore-refl (last_meta d)

  process_if_new-NotBefore :
      (m : StateMeta) (modules : List SrModule) (d : Daemon)
      → NotBefore (last_meta d) (last_meta (process_if_new env m modules d).1)
  unfolding process_if_new
  process_if_new-NotBefore m modules d =
      elim (Bool-cases (is_need_to_process_new_state d.last_processed_state_meta m)) [
        | inl new ↦ rw new (
            process_state-NotBefore m modules d
              (is_need_to_process_new_state_sound d.last_processed_state_meta m new))
        | inr old ↦ rw old (NotBefore-refl (last_meta d))
      ]

  run_cycle-NotBefore : (d : Daemon) → NotBefore (last_meta d) (last_meta (run_cycle env d).1)
  unfolding run_cycle
  run_cycle-NotBefore d =
      continue_keeps Q _ (get_staking_modules env.keys_api) d (NotBefore-refl (last_meta d))
        (λ response _.
          continue_keeps Q (λ _. process_if_new env (meta_of env response) response.content)
            (initialised response).0 (initialised response).1 (NotBefore-refl (last_meta d))
            (λ _ _.
              process_if_new-NotBefore (meta_of env response) response.content
                (initialised response).1))
    where
      initialised : SrModuleListResponse → Outcome (Unit {0}) × Daemon
      initialised response =
          on_repository
            (init_cached_contracts env.security.repository response.el_block_snapshot.block_hash) d

      Q : Daemon → Type 0
      Q d' = NotBefore (last_meta d) (last_meta d')

  meta-handle_new_block :
      (d : Daemon) → last_meta (handle_new_block env d).1 ≡ last_meta (run_cycle env d).1
  unfolding handle_new_block
  meta-handle_new_block d = ground arith

  -- A cycle of the guardian, however its calls end, never moves the last processed block back.
  pub handle_new_block-NotBefore :
      (d : Daemon) → NotBefore (last_meta d) (last_meta (handle_new_block env d).1)
  handle_new_block-NotBefore d = rw (meta-handle_new_block d) (run_cycle-NotBefore d)

  -- A snapshot that is listed after a state was processed, and is older than that state or has its
  -- hash, changes nothing but the repository of the contracts, however the initialisation of the
  -- contracts at the snapshot's hash ends: no message is sent, nothing is paused, no events are read.
  pub handle_new_block-old_state :
      (d : Daemon) (last : StateMeta) (response : SrModuleListResponse)
      → get_staking_modules env.keys_api ≡ ok response
      → last_meta d ≡ some last
      → (response.el_block_snapshot.block_number < last.block_number)
        ⊎ (last.block_hash ≡ response.el_block_snapshot.block_hash)
      → (handle_new_block env d).1 ≡ record d {
        repository =
            (init_cached_contracts env.security.repository response.el_block_snapshot.block_hash
              d.repository).1;
      }
  unfolding handle_new_block run_cycle process_if_new
  handle_new_block-old_state d last response listed processed old =
      let not_needed : is_need_to_process_new_state (last_meta d) (meta_of env response) ≡ false =
        ap (λ m. is_need_to_process_new_state m (meta_of env response)) processed
        ∙ is_need_to_process_new_state-old last (meta_of env response) old in
      ground arith
