-- ===== src/Wallet/Signing.antt =====
-- The signed texts of src/wallet/wallet.service.ts name what they are about.
use lidofinance_lido_council.Shared.{refl, ◌≡◌, ◌≢◌, List, String, arith, map, length}
use lidofinance_lido_council.Wallet.{
  pause_values, Wallet, AbiType, AbiValue, text, number, SignDepositDataParams, SignPauseDataParams,
  deposit_types, deposit_values, pause_types, sign_deposit_data, sign_pause_data,
}

-- `canonical` is the one spelling of the bytes that a hex text stands for.
abbrev pub canonical_value : (String → String) → AbiValue → AbiValue
canonical_value canonical (text s) = text (canonical s)
canonical_value canonical (number n) = number n

-- What is relied on, of the two texts in question: the coder gives lists of the same types the same
-- code only for the same values, and lists of different lengths different codes; and neither the hash
-- nor the signature makes the two codes collide.
pub record NoCollision (canonical : String → String) (w : Wallet) (ts us : List AbiType)
    (xs ys : List AbiValue) : Type 0 where
  pub values :
      ts ≡ us
      → w.encode ts xs ≡ w.encode us ys
      → map (canonical_value canonical) xs ≡ map (canonical_value canonical) ys
  pub sizes : w.encode ts xs ≡ w.encode us ys → length ts ≡ length us
  pub hash :
      w.keccak256 (w.encode ts xs) ≡ w.keccak256 (w.encode us ys) → w.encode ts xs ≡ w.encode us ys
  pub signature :
      w.sign_digest (w.keccak256 (w.encode ts xs)) ≡ w.sign_digest (w.keccak256 (w.encode us ys))
      → w.keccak256 (w.encode ts xs) ≡ w.keccak256 (w.encode us ys)

-- Two deposit texts that do not collide and have the same signature name the same block number,
-- module and nonce, and the same bytes of the prefix, the block hash and the deposit root.
pub sign_deposit_data-injective :
    (canonical : String → String) (w : Wallet) (p q : SignDepositDataParams)
    → NoCollision canonical w deposit_types deposit_types (deposit_values p) (deposit_values q)
    → sign_deposit_data w p ≡ sign_deposit_data w q
    → (p.block_number ≡ q.block_number)
      × (p.staking_module_id ≡ q.staking_module_id)
      × (p.keys_op_index ≡ q.keys_op_index)
      × (canonical p.prefix ≡ canonical q.prefix)
      × (canonical p.block_hash ≡ canonical q.block_hash)
      × (canonical p.deposit_root ≡ canonical q.deposit_root)
unfolding sign_deposit_data
sign_deposit_data-injective canonical w p q free same =
    let values : map (canonical_value canonical) (deposit_values p)
        ≡ map (canonical_value canonical) (deposit_values q) =
      free.values refl (free.hash (free.signature same)) in
    ground arith

-- If a pause text and a deposit text do not collide, the signature of the one is not that of the
-- other.
pub sign_pause_data-ne :
    (canonical : String → String) (w : Wallet) (p : SignPauseDataParams) (q : SignDepositDataParams)
    → NoCollision canonical w pause_types deposit_types (pause_values p) (deposit_values q)
    → sign_pause_data w p ≢ sign_deposit_data w q
unfolding sign_deposit_data sign_pause_data
sign_pause_data-ne canonical w p q free same =
    let sizes : length pause_types ≡ length deposit_types =
      free.sizes (free.hash (free.signature same)) in
    absurd (omega arith)
