-- ===== src/Outcome.antt =====
-- How an async function of the daemon ends, and methods as functions on the state that they change.
-- A rejected promise keeps what was written before the rejection, so the state comes back beside it.
use lidofinance_lido_council.Shared.{arith, ◌≡◌, refl, List, [], ◌∷◌, ◌++◌, String, Option, none}
use lidofinance_lido_council.Shared.Int.{ℤ}

-- A JavaScript error, with the fields that the code reads: `message`, `code`, `reason` and the
-- `code` of a nested `error`.
pub record Failure : Type 0 where
  pub message : String
  pub code : Option String
  pub reason : Option String
  pub nested_code : Option ℤ

-- `new Error(message)`
abbrev pub new_error : String → Failure
new_error text = record { message = text; code = none; reason = none; nested_code = none }

-- `exit` is `process.exit(1)`; `pending` is a promise that has not settled within the rounds that
-- the model gives to a loop which may go on.
pub data Outcome {ℓ} (A : Type ℓ) : Type ℓ where
  ok : A → Outcome A
  throw : Failure → Outcome A
  exit : Outcome A
  pending : Outcome A

abbrev pub bind {ℓ κ} : {A : Type ℓ} {B : Type κ} → Outcome A → (A → Outcome B) → Outcome B
bind (ok a) f = f a
bind (throw e) f = throw e
bind exit f = exit
bind pending f = pending

abbrev pub Exec : Type 0 → Type 0 → Type 0
Exec S A = S → Outcome A × S

module _ {S A : Type 0} where
  abbrev pub pure : A → Exec S A
  pure a s = (ok a, s)

  abbrev pub raise : Failure → Exec S A
  raise e s = (throw e, s)

  abbrev pub process_exit : Exec S A
  process_exit s = (exit, s)

  -- What a call outside the daemon answers.
  abbrev pub lift : Outcome A → Exec S A
  lift r s = (r, s)

  abbrev pub gets : (S → A) → Exec S A
  gets f s = (ok (f s), s)

abbrev pub modify : {S : Type 0} → (S → S) → Exec S (Unit {0})
modify f s = (ok tt, f s)

module _ {S A B : Type 0} where
  abbrev pub continue : (A → Exec S B) → Outcome A → Exec S B
  continue f (ok a) s = f a s
  continue f (throw e) s = (throw e, s)
  continue f exit s = (exit, s)
  continue f pending s = (pending, s)

  infixl 5 ◌>>=◌ ◌>>◌
  abbrev pub ◌>>=◌ : Exec S A → (A → Exec S B) → Exec S B
  ◌>>=◌ m f s = let (r, s') = m s in continue f r s'

  abbrev pub ◌>>◌ : Exec S A → Exec S B → Exec S B
  m >> k = m >>= λ _. k

module _ {S A : Type 0} where
  abbrev pub handle : (Failure → Exec S A) → Outcome A → Exec S A
  handle handler (throw e) s = handler e s
  handle handler (ok a) s = (ok a, s)
  handle handler exit s = (exit, s)
  handle handler pending s = (pending, s)

  -- `try { … } catch (error) { … }`
  abbrev pub try_catch : Exec S A → (Failure → Exec S A) → Exec S A
  try_catch m handler s = let (r, s') = m s in handle handler r s'

-- A method of a service that is a part of the caller's state.
abbrev pub within : {S T A : Type 0} → (S → T) → (T → S → S) → Exec T A → Exec S A
within get put m s = let (r, t) = m (get s) in (r, put t s)

-- `Promise.all` of two promises: the end of the process comes first, then a rejection, and one that
-- has not settled keeps the caller waiting.
unfoldable pub both_of : {A B : Type 0} → Outcome A → Outcome B → Outcome (A × B)
both_of (ok a) (ok b) = ok (a, b)
both_of (ok a) (throw e) = throw e
both_of (ok a) exit = exit
both_of (ok a) pending = pending
both_of (throw e) exit = exit
both_of (throw e) _ = throw e
both_of exit _ = exit
both_of pending exit = exit
both_of pending (throw e) = throw e
both_of pending _ = pending

pub both_of-eq-ok :
    {A B : Type 0} (a : Outcome A) (b : Outcome B) {x : A × B}
    → both_of a b ≡ ok x
    → (a ≡ ok x.0) × (b ≡ ok x.1)
unfolding both_of
both_of-eq-ok (ok a) (ok b) h = ground arith
both_of-eq-ok (throw e) (throw _) h = cc
both_of-eq-ok (throw e) _ h = cc
both_of-eq-ok pending (throw _) h = cc
both_of-eq-ok pending _ h = cc
both_of-eq-ok exit _ h = cc
both_of-eq-ok (ok a) _ h = cc

-- Both calls are made.
abbrev pub both : {S A B : Type 0} → Exec S A → Exec S B → Exec S (A × B)
both m n s = let (a, s') = m s in let (b, s'') = n s' in (both_of a b, s'')

-- `array.map(f)` with a callback that may throw.
abbrev pub traverse {ℓ κ} : {A : Type ℓ} {B : Type κ} → (A → Outcome B) → List A → Outcome (List B)
traverse f [] = ok []
traverse f (x ∷ xs) = let rest = traverse f xs in bind (f x) (λ y. bind rest (λ ys. ok (y ∷ ys)))

-- The parts of a list one after another.
pub traverse-append {ℓ κ} :
    {A : Type ℓ} {B : Type κ} (f : A → Outcome B) (xs ys : List A)
    → traverse f (xs ++ ys)
      ≡ bind (traverse f xs) (λ us. bind (traverse f ys) (λ vs. ok (us ++ vs)))
traverse-append f [] ys = ground arith
traverse-append f (x ∷ xs) ys = ground (arith, traverse-append f xs ys)

module _ {S A B : Type 0} (Q : S → Type 0) where
  -- A property of the state, kept by what comes first and by what follows a success.
  pub continue_keeps :
      (f : A → Exec S B) (r : Outcome A) (s : S)
      → Q s
      → ((a : A) → r ≡ ok a → Q (f a s).1)
      → Q (continue f r s).1
  continue_keeps f (ok a) s q next = next a refl
  continue_keeps f (throw e) s q next = q
  continue_keeps f exit s q next = q
  continue_keeps f pending s q next = q

-- Inversion of a success: each part succeeded.
pub bind-eq-ok {ℓ κ} :
    {A : Type ℓ} {B : Type κ} (r : Outcome A) (f : A → Outcome B) {b : B}
    → bind r f ≡ ok b
    → (a : A) × (r ≡ ok a) × (f a ≡ ok b)
bind-eq-ok (ok a) f h = (a, refl, h)
bind-eq-ok (throw e) f h = cc
bind-eq-ok exit f h = cc
bind-eq-ok pending f h = cc

pub continue-eq-ok :
    {S A B : Type 0} (f : A → Exec S B) (r : Outcome A) (s : S) {b : B}
    → (continue f r s).0 ≡ ok b
    → (a : A) × (r ≡ ok a) × ((f a s).0 ≡ ok b)
continue-eq-ok f (ok a) s h = (a, refl, h)
continue-eq-ok f (throw e) s h = cc
continue-eq-ok f exit s h = cc
continue-eq-ok f pending s h = cc

pub ok-injective {ℓ} : {A : Type ℓ} {a b : A} → ok a ≡ ok b → a ≡ b
ok-injective h = cc
