-- ===== src/Bls/Verified.antt =====
-- src/bls/bls.service.ts: which deposits are verified.
use lidofinance_lido_council.Shared.{
  ℕ, zero, suc, ◌≤◌, ◌≡◌, ◌↔◌, refl, ap, ◌∙◌, sym, Bool, true, Option, none, some, [], ◌∷◌, ◌++◌,
  length, take, append-nil, arith,
}
use mathlib.Core.Option.{some-injective}
use lidofinance_lido_council.Outcome.{ok, throw, new_error}
use lidofinance_lido_council.Bls.{
  Bytes, DepositData, Library, and_then, zeros, set_bytes, domain_deposit, zero_hash,
  compute_domain, compute_signing_root, checked, caught, verify,
}

length-take : (n : ℕ) (bytes : Bytes) → n ≤ length bytes → length (take n bytes) ≡ n
length-take zero bytes h = refl
length-take (suc n) [] h = absurd (omega arith)
length-take (suc n) (b ∷ bytes) h = ap suc (length-take n bytes (omega arith))

and_then-eq-some {ℓ} :
    {A : Type ℓ} {B : Type 0} (o : Option A) (f : A → Option B) (b : B)
    → and_then o f ≡ some b
    → (a : A) × (o ≡ some a) × (f a ≡ some b)
and_then-eq-some none f b h = cc
and_then-eq-some (some a) f b h = (a, refl, h)

caught-true : (o : Option Bool) → caught o ≡ true → o ≡ some true
caught-true none h = cc
caught-true (some b) h = ap some h

pub ok_true : (b : Bool) → ok b ≡ ok true → b ≡ true
ok_true b h = cc

module _ (lib : Library) where
  -- The domain of a deposit: 32 bytes, those of the deposit domain type and the first 28 of the fork
  -- data root, where that root has its 32 bytes. No write goes past the end.
  pub compute_domain_lem :
      (fork_version genesis : Bytes)
      → length (lib.fork_data_root fork_version genesis) ≡ 32
      → (compute_domain lib domain_deposit fork_version genesis
          ≡ some (domain_deposit ++ take 28 (lib.fork_data_root fork_version genesis)))
        × (length (domain_deposit ++ take 28 (lib.fork_data_root fork_version genesis)) ≡ 32)
  unfolding compute_domain set_bytes zeros
  compute_domain_lem fork_version genesis h =
      let first : length (take 28 (lib.fork_data_root fork_version genesis)) ≡ 28 =
        length-take 28 (lib.fork_data_root fork_version genesis) (omega arith) in
      (
        rw first (
            ap (λ r. some (domain_deposit ++ r))
              (append-nil (take 28 (lib.fork_data_root fork_version genesis)))),
        rw first refl,
      )

  -- What a verified deposit is: its fields are well formed, and the curve library accepts its
  -- signature, by its key, of the signing root of its message under the deposit domain.
  pub record IsSigned (fork_version : Bytes) (d : DepositData) : Type 1 where
    pub pubkey : Bytes
    pub wc : Bytes
    pub amount_bytes : Bytes
    pub amount : ℕ
    pub key : lib.PublicKey
    pub signature_bytes : Bytes
    pub signature : lib.Signature
    pub pubkey_read : lib.pubkey_from_json d.pubkey ≡ some pubkey
    pub wc_read : lib.bytes32_from_json d.wc ≡ some wc
    pub amount_hex : lib.from_hex_string d.amount ≡ some amount_bytes
    pub amount_read : lib.uint64_deserialize amount_bytes ≡ some amount
    pub key_read : lib.public_key_from_bytes pubkey ≡ some key
    pub signature_hex : lib.from_hex_string d.signature ≡ some signature_bytes
    pub signature_read : lib.signature_from_bytes signature_bytes ≡ some signature
    pub accepted :
        lib.blst_verify
          (lib.signing_data_root
            (lib.deposit_message_root pubkey wc amount)
            (domain_deposit ++ take 28 (lib.fork_data_root fork_version zero_hash)))
          key
          signature
        ≡ some true

  IsSigned-checked :
      (fork_version : Bytes) (d : DepositData)
      → length (lib.fork_data_root fork_version zero_hash) ≡ 32
      → IsSigned fork_version d
      → checked lib fork_version d ≡ some true
  unfolding checked compute_signing_root
  IsSigned-checked fork_version d size s =
      rw
        (
          s.pubkey_read,
          s.wc_read,
          s.amount_hex,
          s.amount_read,
          (compute_domain_lem fork_version zero_hash size).0,
          s.key_read,
          s.signature_hex,
          s.signature_read,
        )
        s.accepted

  checked-IsSigned :
      (fork_version : Bytes) (d : DepositData)
      → length (lib.fork_data_root fork_version zero_hash) ≡ 32
      → checked lib fork_version d ≡ some true
      → IsSigned fork_version d
  unfolding checked compute_signing_root
  checked-IsSigned fork_version d size h =
      let (pubkey, pubkey_read, h1) = and_then-eq-some (lib.pubkey_from_json d.pubkey) _ true h in
      let (wc, wc_read, h2) = and_then-eq-some (lib.bytes32_from_json d.wc) _ true h1 in
      let (amount_bytes, amount_hex, h3) =
        and_then-eq-some (lib.from_hex_string d.amount) _ true h2 in
      let (amount, amount_read, h4) =
        and_then-eq-some (lib.uint64_deserialize amount_bytes) _ true h3 in
      let (domain, domain_eq, h5) =
        and_then-eq-some (compute_domain lib domain_deposit fork_version zero_hash) _ true h4 in
      let (key, key_read, h6) = and_then-eq-some (lib.public_key_from_bytes pubkey) _ true h5 in
      let (signature_bytes, signature_hex, h7) =
        and_then-eq-some (lib.from_hex_string d.signature) _ true h6 in
      let (signature, signature_read, h8) =
        and_then-eq-some (lib.signature_from_bytes signature_bytes) _ true h7 in
      let same : domain ≡ domain_deposit ++ take 28 (lib.fork_data_root fork_version zero_hash) =
        some-injective domain _
          (sym domain_eq ∙ (compute_domain_lem fork_version zero_hash size).0) in
      record {
        pubkey = pubkey;
        wc = wc;
        amount_bytes = amount_bytes;
        amount = amount;
        key = key;
        signature_bytes = signature_bytes;
        signature = signature;
        pubkey_read = pubkey_read;
        wc_read = wc_read;
        amount_hex = amount_hex;
        amount_read = amount_read;
        key_read = key_read;
        signature_hex = signature_hex;
        signature_read = signature_read;
        accepted =
            ap
              (λ d.
                lib.blst_verify
                  (lib.signing_data_root (lib.deposit_message_root pubkey wc amount) d) key
                  signature)
              (sym same)
            ∙ h8;
      }

  -- With no fork version `verify` throws. With one it always answers, and the answer is yes exactly
  -- for the deposits that are signed, where the fork data root has its 32 bytes.
  pub verify_lem :
      (fork_version : Bytes) (d : DepositData)
      → length (lib.fork_data_root fork_version zero_hash) ≡ 32
      → (verify lib none d ≡ throw (new_error "Fork version is not set"))
        × ((b : Bool) × (verify lib (some fork_version) d ≡ ok b))
        × ((verify lib (some fork_version) d ≡ ok true) ↔ IsSigned fork_version d)
  unfolding verify
  verify_lem fork_version d size = (
    refl,
    (caught (checked lib fork_version d), refl),
    (
      λ h. checked-IsSigned fork_version d size (
          caught-true (checked lib fork_version d)
            (ok_true (caught (checked lib fork_version d)) h)),
      λ s. ap (λ o. ok (caught o)) (IsSigned-checked fork_version d size s),
    ),
  )
