-- ===== src/Security/Signatures.antt =====
-- What the signing of src/contracts/security/security.service.ts signs, and what it leaves of the contracts.
use lidofinance_lido_council.Shared.{refl, some, inl, inr, Bool-cases, ℕ, ◌≡◌, sym, String, arith}
use lidofinance_lido_council.Outcome.{ok, continue-eq-ok, ok-injective}
use lidofinance_lido_council.Contracts.{Signature}
use lidofinance_lido_council.Repository.{
  Repository, RepositoryEnv, get_attest_message_prefix, get_pause_message_prefix,
  get_cached_dsm_contract, get_from_cache, dsm_abi, truthy, text_of,
}
use lidofinance_lido_council.Wallet
use lidofinance_lido_council.Security.{SecurityEnv, sign_deposit_data, sign_pause_data}

-- A prefix that had to be asked for is kept, the contracts are not touched.
contracts-get_attest_message_prefix :
    (env : RepositoryEnv) (s : Repository)
    → (get_attest_message_prefix env s).1.temp_contracts_cache ≡ s.temp_contracts_cache
unfolding get_attest_message_prefix get_cached_dsm_contract
contracts-get_attest_message_prefix env s = ground arith

contracts-get_pause_message_prefix :
    (env : RepositoryEnv) (s : Repository)
    → (get_pause_message_prefix env s).1.temp_contracts_cache ≡ s.temp_contracts_cache
unfolding get_pause_message_prefix get_cached_dsm_contract
contracts-get_pause_message_prefix env s = ground arith

module _ (env : SecurityEnv) where
  pub contracts-sign_deposit_data :
      (root : String) (nonce n : ℕ) (h : String) (id : ℕ) (s : Repository)
      → (sign_deposit_data env root nonce n h id s).1.temp_contracts_cache ≡ s.temp_contracts_cache
  unfolding sign_deposit_data
  contracts-sign_deposit_data root nonce n h id s =
      ground (arith, contracts-get_attest_message_prefix env.repository s)

  pub contracts-sign_pause_data :
      (n id : ℕ) (s : Repository)
      → (sign_pause_data env n id s).1.temp_contracts_cache ≡ s.temp_contracts_cache
  unfolding sign_pause_data
  contracts-sign_pause_data n id s =
      ground (arith, contracts-get_pause_message_prefix env.repository s)

  -- What is signed is the wallet's text of the arguments, under the prefix.
  pub sign_deposit_data-eq-ok :
      (root : String) (nonce n : ℕ) (h : String) (id : ℕ) (s : Repository) (signature : Signature)
      → (sign_deposit_data env root nonce n h id s).0 ≡ ok signature
      → (prefix : String) × (signature
          ≡ Wallet.sign_deposit_data env.wallet (record {
            prefix = prefix;
            block_number = n;
            block_hash = h;
            deposit_root = root;
            keys_op_index = nonce;
            staking_module_id = id;
          }))
  unfolding sign_deposit_data
  sign_deposit_data-eq-ok root nonce n h id s signature signed =
      let (prefix, _, same) =
        continue-eq-ok _ (get_attest_message_prefix env.repository s).0
          (get_attest_message_prefix env.repository s).1 signed in
      (prefix, sym (ok-injective same))

  pub sign_pause_data-eq-ok :
      (n id : ℕ) (s : Repository) (signature : Signature)
      → (sign_pause_data env n id s).0 ≡ ok signature
      → (prefix : String) × (signature
          ≡ Wallet.sign_pause_data env.wallet
              (record { prefix = prefix; block_number = n; staking_module_id = id }))
  unfolding sign_pause_data
  sign_pause_data-eq-ok n id s signature signed =
      let (prefix, _, same) =
        continue-eq-ok _ (get_pause_message_prefix env.repository s).0
          (get_pause_message_prefix env.repository s).1 signed in
      (prefix, sym (ok-injective same))

  -- When the security contract is cached and tells its prefix, a pause can be signed.
  pub sign_pause_data-known :
      (n id : ℕ) (s : Repository) (dsm prefix : String)
      → s.temp_contracts_cache dsm_abi ≡ some dsm
      → env.repository.contracts.pause_message_prefix dsm ≡ ok prefix
      → (signature : Signature) × ((sign_pause_data env n id s).0 ≡ ok signature)
  unfolding sign_pause_data get_pause_message_prefix get_cached_dsm_contract get_from_cache
  sign_pause_data-known n id s dsm prefix cached answer =
      elim (Bool-cases (truthy s.cached_pause_prefix)) [
        | inl kept ↦ (pause_text (text_of s.cached_pause_prefix), rw kept refl)
        | inr missing ↦ (pause_text prefix, rw (missing, cached, answer) refl)
      ]
    where
      pause_text : String → Signature
      pause_text p =
          Wallet.sign_pause_data env.wallet
            (record { prefix = p; block_number = n; staking_module_id = id })
