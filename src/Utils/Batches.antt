-- ===== src/Utils/Batches.antt =====
-- src/utils/range-promise.ts: what the batches together give.
use mathlib.Core.Path.{subst}
use native.Mathlib.Nat.{div-add-mod, mod-lt, suc-mul, mul_comm}
use lidofinance_lido_council.Shared.{
  ℕ, zero, suc, ◌+◌, ◌-◌, ◌*◌, ◌/◌, ◌%◌, ◌≤◌, ◌<◌, ◌≡◌, refl, sym, ap, ◌∙◌, List, [], ◌∷◌, ◌++◌,
  map, arith, ltb, ◌==◌, Bool-cases, inl, inr, ◌⊎◌, true, false, length, if◌then◌else◌,
}
use lidofinance_lido_council.Shared.Int.{
  ℤ, pos, ◌+ℤ◌, ◌-ℤ◌, ltb_ℤ, pos_part, +ℤ-pos, +ℤ-zero, ltb_ℤ-+ℤ, pos_part--ℤ, ltb_ℤ--ℤ,
}
use lidofinance_lido_council.Promises.{
  Promise, fulfils, rejects, unsettled, delayed, await, promise_all, promise_all-IsJoined, Yields,
  IsJoined, Yields-append,
}
use lidofinance_lido_council.Utils.{
  positive_iterator, range, run_batches, batches, with_size, range_promise,
}

positive_iterator-append :
    (n k : ℕ) (start : ℤ)
    → positive_iterator (n + k) start
      ≡ positive_iterator n start ++ positive_iterator k (start +ℤ pos n)
unfolding positive_iterator
positive_iterator-append zero k start = let e : zero + k ≡ k = omega arith in rw (e, +ℤ-zero start)
positive_iterator-append (suc n) k start =
    let e : suc n + k ≡ suc (n + k) = omega arith in
    let e' : suc n ≡ 1 + n = omega arith in
    rw (e, e', ← +ℤ-pos start 1 n)
      (ap (λ l. start ∷ l) (positive_iterator-append n k (start +ℤ pos 1)))

length-positive_iterator : (n : ℕ) (start : ℤ) → length (positive_iterator n start) ≡ n
unfolding positive_iterator
length-positive_iterator zero start = refl
length-positive_iterator (suc n) start = ap suc (length-positive_iterator n (start +ℤ pos 1))

-- The numbers from one bound to before the other, both counted from the same integer.
range-eq :
    (z : ℤ) (k w : ℕ)
    → 0 < w
    → range (z +ℤ pos k) (z +ℤ pos (k + w)) ≡ positive_iterator w (z +ℤ pos k)
unfolding range
range-eq z k w some_left =
    let up : ltb k (k + w) ≡ true = ground arith in
    let width : k + w - k ≡ w = omega arith in
    rw (ltb_ℤ--ℤ z k (k + w), up, pos_part--ℤ z k (k + w), width)

module _ {T : Type 0} (callback : ℤ → Promise T) (batch_size : ℕ) where
  -- One of the batches of the numbers `steps`: whole batches come before it, all fulfilled, and it is whole
  -- itself or the last one.
  pub record IsNextBatch (steps batch : List ℤ) : Type 0 where
    pub before : List ℤ
    pub after : List ℤ
    pub count : ℕ
    pub values : List T
    pub split : steps ≡ before ++ (batch ++ after)
    pub whole : length before ≡ count * batch_size
    pub fulfilled : Yields callback before values
    pub width : (length batch ≡ batch_size) ⊎ ((length batch < batch_size) × (after ≡ []))

  -- The values of all numbers in their order; or the first rejection in time of a batch; or, if a batch has
  -- none and a promise in it never settles, nothing.
  abbrev pub IsResult : List ℤ → Promise (List T) → Type 0
  IsResult steps (fulfils t xs) = Yields callback steps xs
  IsResult steps (rejects t e) =
      (batch : List ℤ) × IsNextBatch steps batch
      × (u : ℕ) × (u ≤ t)
      × IsJoined callback batch (rejects u e)
  IsResult steps unsettled =
      (batch : List ℤ) × IsNextBatch steps batch × IsJoined callback batch unsettled

  delayed-IsResult :
      (steps : List ℤ) (t : ℕ) (p : Promise (List T))
      → IsResult steps p
      → IsResult steps (delayed t p)
  delayed-IsResult steps t (fulfils u xs) h = h
  delayed-IsResult steps t (rejects u e) (batch, at, v, early, h) = (batch, at, v, omega arith, h)
  delayed-IsResult steps t unsettled h = h

  module _ (from : ℤ) (n : ℕ) where
    abbrev numbers : List ℤ
    numbers = positive_iterator n from

    -- How many numbers the batch at `k` has
    abbrev width : ℕ → ℕ
    width k = if ltb (k + batch_size) n then batch_size else n - k

    slot_to-eq :
        (k : ℕ)
        → k ≤ n
        → (if ltb_ℤ (from +ℤ pos k +ℤ pos batch_size) (from +ℤ pos n)
            then from +ℤ pos k +ℤ pos batch_size
            else from +ℤ pos n)
          ≡ from +ℤ pos (k + width k)
    slot_to-eq k within =
        rw (+ℤ-pos from k batch_size, ltb_ℤ-+ℤ from (k + batch_size) n)
          (elim (Bool-cases (ltb (k + batch_size) n)) [
            | inl more ↦ rw more refl
            | inr last ↦ let e : k + (n - k) ≡ n = omega arith in rw (last, e) refl
          ])

    -- The first `k` numbers are fulfilled, and `left` batches have the others.
    abbrev Fits : ℕ → ℕ → ℕ → Type 0
    Fits zero batch k = k ≡ n
    Fits (suc left) batch k =
        (k ≡ batch * batch_size)
        × (k + left * batch_size < n)
        × (n ≤ k + left * batch_size + batch_size)

    Fits-next : (left batch k : ℕ) → Fits (suc left) batch k → Fits left (batch + 1) (k + width k)
    Fits-next zero batch k (at, inside, covered) = ground arith
    Fits-next (suc left) batch k (at, inside, covered) =
        let split : suc left * batch_size ≡ left * batch_size + batch_size =
          suc-mul left batch_size in
        let one_more : (batch + 1) * batch_size ≡ batch * batch_size + batch_size =
          ap (λ b. b * batch_size) (plus_one batch) ∙ suc-mul batch batch_size in
        ground arith
      where
        plus_one : (b : ℕ) → b + 1 ≡ suc b
        plus_one b = omega arith

    Fits-start :
        (left : ℕ)
        → left * batch_size ≤ n + batch_size - 1
        → n + batch_size - 1 < left * batch_size + batch_size
        → Fits left 0 0
    Fits-start zero low high = omega arith
    Fits-start (suc left) low high =
        let split : suc left * batch_size ≡ left * batch_size + batch_size =
          suc-mul left batch_size in
        ground arith

    width-cases :
        (k : ℕ)
        → k < n
        → (width k ≡ batch_size) ⊎ ((width k < batch_size) × (n - (k + width k) ≡ 0))
    width-cases k inside = ground arith

    -- The batch that begins after `k` numbers
    batch-IsNextBatch :
        (batch k : ℕ) (result : List T)
        → k ≡ batch * batch_size
        → k < n
        → Yields callback (positive_iterator k from) result
        → IsNextBatch numbers (positive_iterator (width k) (from +ℤ pos k))
    batch-IsNextBatch batch k result at inside fulfilled = record {
      before = positive_iterator k from;
      after = positive_iterator (n - (k + width k)) (from +ℤ pos (k + width k));
      count = batch;
      values = result;
      split =
          ap (λ m. positive_iterator m from) (total)
          ∙ positive_iterator-append k (width k + (n - (k + width k))) from
          ∙ ap (λ l. positive_iterator k from ++ l)
              (positive_iterator-append (width k) (n - (k + width k)) (from +ℤ pos k)
                ∙ ap
                    (λ z.
                      positive_iterator (width k) (from +ℤ pos k)
                      ++ positive_iterator (n - (k + width k)) z)
                    (+ℤ-pos from k (width k)));
      whole = length-positive_iterator k from ∙ at;
      fulfilled = fulfilled;
      width = elim (width-cases k inside) [
        | inl whole ↦ inl (length-positive_iterator (width k) (from +ℤ pos k) ∙ whole)
        | inr (short, none_left) ↦ inr (
          rw (length-positive_iterator (width k) (from +ℤ pos k)) short,
          unfold positive_iterator in rw none_left refl,
        )
      ];
    }
      where
        total : n ≡ k + (width k + (n - (k + width k)))
        total = ground arith

    run_batches-IsResult :
        (left batch k : ℕ) (result : List T)
        → Fits left batch k
        → Yields callback (positive_iterator k from) result
        → IsResult numbers (run_batches callback from (from +ℤ pos n) batch_size left batch result)
    unfolding run_batches
    run_batches-IsResult zero batch k result ended fulfilled =
        subst (λ m. Yields callback (positive_iterator m from) result) ended fulfilled
    run_batches-IsResult (suc left) batch k result (at, inside, covered) fulfilled =
        let some_width : 0 < width k = ground arith in
        rw (← at, slot_to-eq k (omega arith), range-eq from k (width k) some_width)
          (by_batch (promise_all (map callback batch_numbers))
            (promise_all-IsJoined callback batch_numbers)
            (λ xs joined.
              run_batches-IsResult left (batch + 1) (k + width k) (result ++ xs)
                (Fits-next left batch k (at, inside, covered))
                (subst (λ l. Yields callback l (result ++ xs))
                  (sym (positive_iterator-append k (width k) from))
                  (Yields-append callback (positive_iterator k from)
                    (positive_iterator (width k) (from +ℤ pos k)) result xs fulfilled joined))))
      where
        batch_numbers : List ℤ
        batch_numbers = positive_iterator (width k) (from +ℤ pos k)

        is_batch : IsNextBatch numbers batch_numbers
        is_batch = batch-IsNextBatch batch k result at (omega arith) fulfilled

        rest : List T → Promise (List T)
        rest xs =
            run_batches callback from (from +ℤ pos n) batch_size left (batch + 1) (result ++ xs)

        by_batch :
            (p : Promise (List T))
            → IsJoined callback batch_numbers p
            → ((xs : List T) → Yields callback batch_numbers xs → IsResult numbers (rest xs))
            → IsResult numbers (await p rest)
        by_batch (fulfils t xs) joined go = delayed-IsResult numbers t (rest xs) (go xs joined)
        by_batch (rejects u e) joined go = (batch_numbers, is_batch, u, omega arith, joined)
        by_batch unsettled joined go = (batch_numbers, is_batch, joined)

    -- From a bound on, `n` numbers are asked for, with a batch size that is not 0. If the promise that is
    -- returned is fulfilled, it is with the callback's value for each of the numbers, in their order. If it
    -- is rejected or never settles, then this comes from one batch, the numbers before it being whole batches
    -- that are fulfilled: the rejection is the batch's first one in time, whatever in the batch does not
    -- settle; and only a batch without a rejection, in which a promise never settles, leaves the result
    -- unsettled.
    pub range_promise-IsResult :
        0 < batch_size
        → IsResult numbers (range_promise callback from (from +ℤ pos n) (pos batch_size))
    unfolding range_promise with_size batches
    range_promise-IsResult positive =
        let x : ℕ = n + batch_size - 1 in
        let whole : batch_size * (x / batch_size) + x % batch_size ≡ x = div-add-mod x batch_size in
        let part : x % batch_size < batch_size = mod-lt x positive in
        let turned : (x / batch_size) * batch_size ≡ batch_size * (x / batch_size) =
          mul_comm (x / batch_size) batch_size in
        let in_order : ltb_ℤ (from +ℤ pos n) from ≡ false =
          subst (λ z. ltb_ℤ (from +ℤ pos n) z ≡ ltb n 0) (+ℤ-zero from) (ltb_ℤ-+ℤ from n 0)
          ∙ ground arith in
        let count : pos_part (from +ℤ pos n -ℤ from) ≡ n =
          subst (λ z. pos_part (from +ℤ pos n -ℤ z) ≡ n - 0) (+ℤ-zero from) (pos_part--ℤ from 0 n)
          ∙ omega arith in
        let nonzero : (batch_size == 0) ≡ false = ground arith in
        rw (in_order, nonzero, count)
          (run_batches-IsResult (x / batch_size) 0 0 []
            (Fits-start (x / batch_size) (omega arith) (omega arith))
            (unfold positive_iterator in tt))
