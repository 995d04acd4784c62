-- ===== src/Promises.antt =====
-- Promises by the time that they take to settle: `await` and `Promise.all`, as src/utils/range-promise.ts uses them.
use lidofinance_lido_council.Shared.{
  ℕ, ◌+◌, ◌≤◌, ◌≡◌, inl, inr, refl, ap, ◌∙◌, List, [], ◌∷◌, ◌++◌, map, leb, if◌then◌else◌,
  Bool-cases, Occurs, arith,
}
use lidofinance_lido_council.Outcome.{Failure}

-- A number is the time from the call to the settling.
pub data Promise (T : Type 0) : Type 0 where
  fulfils : ℕ → T → Promise T
  rejects : ℕ → Failure → Promise T
  unsettled : Promise T

abbrev pub delayed : {T : Type 0} → ℕ → Promise T → Promise T
delayed t (fulfils u x) = fulfils (t + u) x
delayed t (rejects u e) = rejects (t + u) e
delayed t unsettled = unsettled

-- `const x = await p`, and what follows it.
abbrev pub await : {A B : Type 0} → Promise A → (A → Promise B) → Promise B
await (fulfils t x) f = delayed t (f x)
await (rejects t e) f = rejects t e
await unsettled f = unsettled

-- A promise, and all the others: the rejection that is first in time wins, also past a promise that
-- never settles.
abbrev join : {T : Type 0} → Promise T → Promise (List T) → Promise (List T)
join (fulfils t x) (fulfils u xs) = fulfils (if leb t u then u else t) (x ∷ xs)
join (fulfils t x) others = others
join (rejects t e) (rejects u f) = if leb t u then rejects t e else rejects u f
join (rejects t e) others = rejects t e
join unsettled (rejects u f) = rejects u f
join unsettled others = unsettled

-- `Promise.all`
unfoldable pub promise_all : {T : Type 0} → List (Promise T) → Promise (List T)
promise_all [] = fulfils 0 []
promise_all (p ∷ ps) = join p (promise_all ps)

module _ {A T : Type 0} (callback : A → Promise T) where
  -- The callback fulfils each with the value at its place.
  abbrev pub Yields : List A → List T → Type 0
  Yields [] [] = Unit
  Yields (n ∷ ns) (x ∷ xs) = ((t : ℕ) × (callback n ≡ fulfils t x)) × Yields ns xs
  Yields _ _ = ⊥

  -- What every rejection of a call satisfies
  abbrev pub Rejections : (ℕ → Failure → Type 0) → List A → Type 0
  Rejections P ns = (n : A) (u : ℕ) (f : Failure) → Occurs n ns → callback n ≡ rejects u f → P u f

  -- The result of all calls: their values in order; or the earliest rejection of one of them; or none,
  -- if no call is rejected and one never settles.
  abbrev pub IsJoined : List A → Promise (List T) → Type 0
  IsJoined ns (fulfils t xs) = Yields ns xs
  IsJoined ns (rejects t e) =
      ((n : A) × Occurs n ns × (callback n ≡ rejects t e)) × Rejections (λ u f. t ≤ u) ns
  IsJoined ns unsettled =
      ((n : A) × Occurs n ns × (callback n ≡ unsettled)) × Rejections (λ u f. ⊥) ns

  Rejections-cons :
      (P : ℕ → Failure → Type 0) (n : A) (ns : List A)
      → ((u : ℕ) (f : Failure) → callback n ≡ rejects u f → P u f)
      → Rejections P ns
      → Rejections P (n ∷ ns)
  Rejections-cons P n ns first others m u f (inl same) e = first u f (ap callback same ∙ e)
  Rejections-cons P n ns first others m u f (inr later) e = others m u f later e

  Yields-Rejections :
      (P : ℕ → Failure → Type 0) (ns : List A) (xs : List T) → Yields ns xs → Rejections P ns
  Yields-Rejections P [] xs h = λ m u f o e. absurd o
  Yields-Rejections P (n ∷ ns) [] h = absurd h
  Yields-Rejections P (n ∷ ns) (x ∷ xs) ((t, here), h) =
      Rejections-cons P n ns (λ u f e. absurd (cc)) (Yields-Rejections P ns xs h)

  -- A call and the others
  join-IsJoined :
      (n : A) (ns : List A) (p : Promise T) (q : Promise (List T))
      → callback n ≡ p
      → IsJoined ns q
      → IsJoined (n ∷ ns) (join p q)
  join-IsJoined n ns (fulfils t x) (fulfils u xs) e h = ((t, e), h)
  join-IsJoined n ns (fulfils t x) (rejects u f) e ((m, o, r), first) =
      ((m, inr o, r), Rejections-cons _ n ns (λ v g s. absurd (cc)) first)
  join-IsJoined n ns (fulfils t x) unsettled e ((m, o, r), none_rejected) =
      ((m, inr o, r), Rejections-cons _ n ns (λ v g s. absurd (cc)) none_rejected)
  join-IsJoined n ns (rejects t e) (fulfils u xs) here h = (
    (n, inl refl, here),
    Rejections-cons (λ v g. t ≤ v) n ns (λ v g s. ground (arith))
        (Yields-Rejections (λ v g. t ≤ v) ns xs h),
  )
  join-IsJoined n ns (rejects t e) (rejects u f) here ((m, o, r), first) =
      elim (Bool-cases (leb t u)) [
        | inl earlier ↦ rw earlier (
          (n, inl refl, here),
          Rejections-cons (λ v g. t ≤ v) n ns (λ v g s. ground (arith))
              (λ k v g late s. ground (arith, first k v g late s)),
        )
        | inr later ↦
            rw later
              ((m, inr o, r), Rejections-cons (λ v g. u ≤ v) n ns (λ v g s. ground (arith)) first)
      ]
  join-IsJoined n ns (rejects t e) unsettled here (_, none_rejected) = (
    (n, inl refl, here),
    Rejections-cons (λ v g. t ≤ v) n ns (λ v g s. ground (arith))
        (λ k v g late s. absurd (none_rejected k v g late s)),
  )
  join-IsJoined n ns unsettled (fulfils u xs) here h = (
    (n, inl refl, here),
    Rejections-cons _ n ns (λ v g s. absurd (cc)) (Yields-Rejections (λ v g. ⊥) ns xs h),
  )
  join-IsJoined n ns unsettled (rejects u f) here ((m, o, r), first) =
      ((m, inr o, r), Rejections-cons _ n ns (λ v g s. absurd (cc)) first)
  join-IsJoined n ns unsettled unsettled here (_, none_rejected) =
      ((n, inl refl, here), Rejections-cons _ n ns (λ v g s. absurd (cc)) none_rejected)

  -- `Promise.all` of the calls
  pub promise_all-IsJoined : (ns : List A) → IsJoined ns (promise_all (map callback ns))
  unfolding promise_all
  promise_all-IsJoined [] = tt
  promise_all-IsJoined (n ∷ ns) =
      join-IsJoined n ns (callback n) (promise_all (map callback ns)) refl (promise_all-IsJoined ns)

  pub Yields-append :
      (ms ns : List A) (xs ys : List T) → Yields ms xs → Yields ns ys → Yields (ms ++ ns) (xs ++ ys)
  Yields-append [] ns [] ys h k = k
  Yields-append [] ns (x ∷ xs) ys h k = absurd h
  Yields-append (m ∷ ms) ns [] ys h k = absurd h
  Yields-append (m ∷ ms) ns (x ∷ xs) ys (here, h) k = (here, Yields-append ms ns xs ys h k)
