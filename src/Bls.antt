-- ===== src/Bls.antt =====
-- src/bls/bls.service.ts and src/bls/bls.constants.ts: the check of a deposit's signature. The SSZ
-- types and the curve are of the @chainsafe libraries, outside the daemon; `none` is what they throw.
pub mod Verified
use lidofinance_lido_council.Shared.{
  ℕ, zero, suc, ◌+◌, String, Bool, true, false, Option, none, some, List, [], ◌∷◌, ◌++◌, length,
  take, drop, leb, ◌==◌, if◌then◌else◌,
}
use lidofinance_lido_council.Chains.{Chains}
use lidofinance_lido_council.Outcome.{new_error, Outcome, ok, throw, bind}

abbrev pub Bytes : Type 0
Bytes = List ℕ

pub record DepositData : Type 0 where
  pub pubkey : String
  pub wc : String
  pub amount : String
  pub signature : String

-- What the service calls of `ssz` and `blst`.
pub record Library : Type 1 where
  pub PublicKey : Type 0
  pub Signature : Type 0
  pub pubkey_from_json : String → Option Bytes
  pub bytes32_from_json : String → Option Bytes
  pub version_from_json : String → Bytes
  pub from_hex_string : String → Option Bytes
  pub uint64_deserialize : Bytes → Option ℕ
  pub deposit_message_root : Bytes → Bytes → ℕ → Bytes
  pub fork_data_root : Bytes → Bytes → Bytes
  pub signing_data_root : Bytes → Bytes → Bytes
  pub public_key_from_bytes : Bytes → Option PublicKey
  pub signature_from_bytes : Bytes → Option Signature
  pub blst_verify : Bytes → PublicKey → Signature → Option Bool

abbrev pub and_then {ℓ κ} : {A : Type ℓ} {B : Type κ} → Option A → (A → Option B) → Option B
and_then none f = none
and_then (some a) f = f a

-- `new Uint8Array(n)`
unfoldable pub zeros : ℕ → Bytes
zeros zero = []
zeros (suc n) = 0 ∷ zeros n

-- `array.set(bytes, offset)`, which throws where the bytes do not fit
unfoldable pub set_bytes : Bytes → ℕ → Bytes → Option Bytes
set_bytes bytes offset array =
    if leb (offset + length bytes) (length array)
    then some (take offset array ++ (bytes ++ drop (offset + length bytes) array))
    else none

abbrev pub domain_deposit : Bytes
domain_deposit = 3 ∷ 0 ∷ 0 ∷ 0 ∷ []

unfoldable pub zero_hash : Bytes
unfolding zeros
zero_hash = zeros 32

module _ (lib : Library) (chains : Chains) where
  unfoldable pub genesis_fork_version_by_chain_id : ℕ → Option Bytes
  genesis_fork_version_by_chain_id id =
      if id == chains.mainnet
      then some (lib.version_from_json "0x00000000")
      else if id == chains.goerli
      then some (lib.version_from_json "0x00001020")
      else if id == chains.zhejiang
      then some (lib.version_from_json "0x00000069")
      else none

  -- The fork version that the start leaves, where the provider answers with the chain id; else it
  -- stays null.
  unfoldable pub on_module_init : Outcome ℕ → Outcome (Option Bytes)
  unfolding genesis_fork_version_by_chain_id
  on_module_init chain_id = bind chain_id λ id. ok (genesis_fork_version_by_chain_id id)

-- The catch block answers `false`.
abbrev pub caught : Option Bool → Bool
caught none = false
caught (some valid) = valid

module _ (lib : Library) where
  unfoldable pub compute_domain : Bytes → Bytes → Bytes → Option Bytes
  unfolding set_bytes zeros
  compute_domain domain_type fork_version genesis_validator_root =
      let root = lib.fork_data_root fork_version genesis_validator_root in
      and_then (set_bytes domain_type 0 (zeros 32)) (set_bytes (take 28 root) 4)

  unfoldable pub compute_signing_root : Bytes → Bytes → Bytes
  compute_signing_root object_root domain = lib.signing_data_root object_root domain

  -- The body of the try block
  unfoldable pub checked : Bytes → DepositData → Option Bool
  unfolding compute_domain compute_signing_root zero_hash
  checked fork_version d = and_then (lib.pubkey_from_json d.pubkey) λ pubkey.
      and_then (lib.bytes32_from_json d.wc) λ wc.
        and_then (lib.from_hex_string d.amount) λ amount_bytes.
          and_then (lib.uint64_deserialize amount_bytes) λ amount.
            and_then (compute_domain domain_deposit fork_version zero_hash) λ domain.
              and_then (lib.public_key_from_bytes pubkey) λ key.
                and_then (lib.from_hex_string d.signature) λ signature_bytes.
                  and_then (lib.signature_from_bytes signature_bytes) λ signature.
                    lib.blst_verify
                      (compute_signing_root (lib.deposit_message_root pubkey wc amount) domain) key
                      signature

  unfoldable pub verify : Option Bytes → DepositData → Outcome Bool
  unfolding checked
  verify none d = throw (new_error "Fork version is not set")
  verify (some fork_version) d = ok (caught (checked fork_version d))
