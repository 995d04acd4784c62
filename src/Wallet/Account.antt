-- ===== src/Wallet/Account.antt =====
-- src/wallet/wallet.service.ts: the key of the guardian and the balance of its account.
use lidofinance_lido_council.Shared.{
  ℕ, ◌%◌, ◌≡◌, refl, ap, String, Bool, true, false, not, Option, none, some, List, [], ◌∷◌, leb,
  ◌==◌, str_eq, if◌then◌else◌, arith, Bool-cases, ◌⊎◌, inl, inr,
}
use lidofinance_lido_council.Outcome.{Outcome, ok, throw, exit, pending, Exec}
use lidofinance_lido_council.Decorators.{OneAtTime, one_at_time, settle}
use lidofinance_lido_council.Wallet.{Wallet}

-- WALLET_BALANCE_UPDATE_BLOCK_RATE, and WALLET_MIN_BALANCE in wei
abbrev pub wallet_balance_update_block_rate : ℕ
wallet_balance_update_block_rate = 50

abbrev pub wallet_min_balance : ℕ
wallet_min_balance = 500_000_000_000_000_000

-- The metric of the balance in wei, and whether the last one logged was sufficient
pub record Account : Type 0 where
  pub private_key : String
  pub cached_wallet : Option Wallet
  pub account_balance : Option ℕ
  pub is_sufficient : Option Bool

abbrev pub new_account : String → Account
new_account private_key = record {
  private_key = private_key;
  cached_wallet = none;
  account_balance = none;
  is_sufficient = none;
}

-- `new Wallet(privateKey)`, and the key of `Wallet.createRandom()`
pub record Keys : Type 0 where
  pub new_wallet : String → Wallet
  pub create_random : String

one_at_time-keeps :
    (P : Account → Type 0) (method : Exec Account (Unit {0})) (g : OneAtTime Account)
    → P g.state
    → P (method g.state).1
    → P (one_at_time method g).1.state
unfolding one_at_time
one_at_time-keeps P method g before after = elim (Bool-cases g.is_executing) [
  | inl e ↦ rw e before
  | inr e ↦ rw e (by_result (method g.state).0)
]
  where
    by_result : (r : Outcome (Unit {0})) → P (settle r (method g.state).1).1.state
    by_result (ok _) = after
    by_result (throw _) = after
    by_result exit = after
    by_result pending = after

module _ (keys : Keys) where
  abbrev with_key : String → Account → Wallet × Account
  with_key private_key s =
      let w = keys.new_wallet private_key in
      (w, record s { private_key = private_key; cached_wallet = some w })

  -- The getter `wallet`
  abbrev cached_or_new : Option Wallet → Account → Wallet × Account
  cached_or_new (some w) s = (w, s)
  cached_or_new none s =
      if str_eq s.private_key "" then with_key keys.create_random s else with_key s.private_key s

  unfoldable pub wallet : Account → Wallet × Account
  wallet s = cached_or_new s.cached_wallet s

  unfoldable pub address : Account → String × Account
  unfolding wallet
  address s = let (w, s') = wallet s in (w.address, s')

  -- `get_balance` is the provider's.
  abbrev balance_known : Outcome ℕ → Account → Outcome (Unit {0}) × Account
  balance_known (ok balance) s = (
    ok tt,
    record s {
      account_balance = some balance;
      is_sufficient = some (leb wallet_min_balance balance);
    },
  )
  balance_known (throw error) s = (throw error, s)
  balance_known exit s = (exit, s)
  balance_known pending s = (pending, s)

  unfoldable pub update_balance : (String → Outcome ℕ) → Exec Account (Unit {0})
  unfolding address
  update_balance get_balance s =
      let (guardian_address, s') = address s in balance_known (get_balance guardian_address) s'

  -- The listener of `subscribeToEthereumUpdates`, with the decorator's flag
  unfoldable pub on_block : (String → Outcome ℕ) → ℕ → OneAtTime Account → OneAtTime Account
  unfolding update_balance one_at_time
  on_block get_balance block_number g =
      if not (block_number % wallet_balance_update_block_rate == 0)
      then g
      else (one_at_time (update_balance get_balance) g).1

  unfoldable pub on_blocks : List ((String → Outcome ℕ) × ℕ) → OneAtTime Account → OneAtTime Account
  unfolding on_block
  on_blocks [] g = g
  on_blocks ((get_balance, block_number) ∷ blocks) g =
      on_blocks blocks (on_block get_balance block_number g)

  -- `onModuleInit`, and whether it subscribes to the blocks; the decorator keeps every rejection.
  abbrev subscribes : Outcome (Option (Unit {0})) → Bool
  subscribes (ok _) = true
  subscribes _ = false

  unfoldable pub on_module_init :
      (String → Outcome ℕ) → OneAtTime Account → Bool × OneAtTime Account
  unfolding update_balance one_at_time
  on_module_init get_balance g =
      let (guardian_address, s) = address g.state in
      let (result, g') = one_at_time (update_balance get_balance) (record g { state = s }) in
      (subscribes result, g')

  -- The key that the account's wallet is made of
  abbrev pub key_of : Account → String
  key_of s = if str_eq s.private_key "" then keys.create_random else s.private_key

  -- The wallet of the account was made of its key, and the balance on show is one that was compared
  -- with the limit.
  pub record IsValid (key : String) (s : Account) : Type 0 where
    pub key_kept : key_of s ≡ key
    pub wallet_made : (s.cached_wallet ≡ none) ⊎ (s.cached_wallet ≡ some (keys.new_wallet key))
    pub compared :
        (s.account_balance ≡ none) × (s.is_sufficient ≡ none)
        ⊎ ((balance : ℕ) × (s.account_balance ≡ some balance)
            × (s.is_sufficient ≡ some (leb wallet_min_balance balance)))

  wallet-IsValid :
      (key : String) (s : Account)
      → str_eq keys.create_random "" ≡ false
      → IsValid key s
      → ((wallet s).0 ≡ keys.new_wallet key) × IsValid key (wallet s).1
  unfolding wallet
  wallet-IsValid key s random h = by_cached s.cached_wallet refl
    where
      made :
          (private_key : String)
          → private_key ≡ key
          → str_eq private_key "" ≡ false
          → ((with_key private_key s).0 ≡ keys.new_wallet key)
            × IsValid key (with_key private_key s).1
      made private_key same given = (
        ap keys.new_wallet same,
        record {
          key_kept = rw given same;
          wallet_made = inr (ap (λ k. some (keys.new_wallet k)) same);
          compared = h.compared;
        },
      )

      by_cached :
          (c : Option Wallet)
          → s.cached_wallet ≡ c
          → ((cached_or_new c s).0 ≡ keys.new_wallet key) × IsValid key (cached_or_new c s).1
      by_cached (some w) e = (ground (arith, h.wallet_made), h)
      by_cached none e = elim (Bool-cases (str_eq s.private_key "")) [
        | inl empty ↦ rw empty (made keys.create_random (ground (arith, h.key_kept)) random)
        | inr given ↦ rw given (made s.private_key (ground (arith, h.key_kept)) given)
      ]

  update_balance-IsValid :
      (key : String) (get_balance : String → Outcome ℕ) (s : Account)
      → str_eq keys.create_random "" ≡ false
      → IsValid key s
      → IsValid key (update_balance get_balance s).1
  unfolding update_balance address
  update_balance-IsValid key get_balance s random h = by_balance (get_balance (wallet s).0.address)
    where
      by_balance : (r : Outcome ℕ) → IsValid key (balance_known r (wallet s).1).1
      by_balance (ok balance) =
          let (_, v) = wallet-IsValid key s random h in
          record {
            key_kept = v.key_kept;
            wallet_made = v.wallet_made;
            compared = inr (balance, refl, refl);
          }
      by_balance (throw _) = (wallet-IsValid key s random h).1
      by_balance exit = (wallet-IsValid key s random h).1
      by_balance pending = (wallet-IsValid key s random h).1

  on_block-IsValid :
      (key : String) (get_balance : String → Outcome ℕ) (n : ℕ) (g : OneAtTime Account)
      → str_eq keys.create_random "" ≡ false
      → IsValid key g.state
      → IsValid key (on_block get_balance n g).state
  unfolding on_block
  on_block-IsValid key get_balance n g random h =
      elim (Bool-cases (n % wallet_balance_update_block_rate == 0)) [
        | inl e ↦ rw e (
            one_at_time-keeps (IsValid key) (update_balance get_balance) g h
              (update_balance-IsValid key get_balance g.state random h))
        | inr e ↦ rw e h
      ]

  -- Whatever blocks come and whatever the provider answers to the requests for the balance, the
  -- account keeps the key it started with, or the random one where none was given; its wallet is
  -- the one of that key, if it was made; and the balance on show, if any, is the one that was last
  -- compared with the limit. This is so for an account of which it holds before, and a random key
  -- that is not empty.
  on_blocks-IsValid :
      (key : String) (blocks : List ((String → Outcome ℕ) × ℕ)) (g : OneAtTime Account)
      → str_eq keys.create_random "" ≡ false
      → IsValid key g.state
      → IsValid key (on_blocks blocks g).state
  unfolding on_blocks
  on_blocks-IsValid key [] g random h = h
  on_blocks-IsValid key ((get_balance, n) ∷ blocks) g random h =
      on_blocks-IsValid key blocks (on_block get_balance n g) random
        (on_block-IsValid key get_balance n g random h)
