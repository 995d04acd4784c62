-- ===== src/Provider/BlockLog.antt =====
-- What the chain holds: the events of each block, in order. The specification of a fetched range.
use lidofinance_lido_council.Shared.{
  ℕ, zero, suc, ◌+◌, ◌-◌, ◌≤◌, ◌<◌, ◌≡◌, refl, sym, ap, ◌∙◌, List, [], ◌++◌, append_assoc, arith,
}
use lidofinance_lido_council.Provider.{EventGroup}

abbrev pub BlockLog {ℓ} : Type ℓ → Type ℓ
BlockLog E = ℕ → List E

module _ {ℓ} {E : Type ℓ} (log : BlockLog E) where
  -- the events of `count` blocks
  unfoldable pub events_from : ℕ → ℕ → List E
  events_from start zero = []
  events_from start (suc count) = log start ++ events_from (start + 1) count

  -- the events of the blocks from `start` to `last`, both included
  abbrev pub between : ℕ → ℕ → List E
  between start last = events_from start (last + 1 - start)

  -- the events of all blocks up to `last`
  abbrev pub upto : ℕ → List E
  upto last = between 0 last

  abbrev pub group_between : ℕ → ℕ → EventGroup E
  group_between start last = record {
    events = between start last;
    start_block = start;
    end_block = last;
  }

  pub events_from-append :
      (start a b : ℕ) → events_from start a ++ events_from (start + a) b ≡ events_from start (a + b)
  unfolding events_from
  events_from-append start zero b =
      let e : start + zero ≡ start = omega arith in let d : zero + b ≡ b = omega arith in rw (e, d)
  events_from-append start (suc a) b =
      let e : start + suc a ≡ start + 1 + a = omega arith in
      let d : suc a + b ≡ suc (a + b) = omega arith in
      rw (d, e)
        (append_assoc (log start) (events_from (start + 1) a) (events_from (start + 1 + a) b)
          ∙ ap (λ r. log start ++ r) (events_from-append (start + 1) a b))

  pub between-append :
      (start middle last : ℕ)
      → start ≤ middle
      → middle ≤ last + 1
      → 0 < middle
      → between start (middle - 1) ++ between middle last ≡ between start last
  between-append start middle last low high positive =
      let e : middle - 1 + 1 - start ≡ middle - start = omega arith in
      let d : last + 1 - start ≡ (middle - start) + (last + 1 - middle) = omega arith in
      let c : start + (middle - start) ≡ middle = omega arith in
      rw (e, d)
        (sym (
          sym (events_from-append start (middle - start) (last + 1 - middle))
          ∙ ap (λ k. events_from start (middle - start) ++ events_from k (last + 1 - middle)) c))

  -- Blocks without events add nothing.
  pub events_from-empty :
      (start count : ℕ) → ((b : ℕ) → b < start + count → log b ≡ []) → events_from start count ≡ []
  unfolding events_from
  events_from-empty start zero empty = refl
  events_from-empty start (suc count) empty =
      rw (empty start (omega arith))
        (events_from-empty (start + 1) count (λ b h. empty b (omega arith)))

  pub upto-append :
      (middle last : ℕ) → middle ≤ last → upto middle ++ between (middle + 1) last ≡ upto last
  upto-append middle last h =
      let e : middle + 1 - 1 ≡ middle = omega arith in
      let joined : between 0 (middle + 1 - 1) ++ between (middle + 1) last ≡ between 0 last =
        between-append 0 (middle + 1) last (omega arith) (omega arith) (omega arith) in
      rw e at joined
