-- ===== src/Provider/FallOver.antt =====
-- Whatever the node rejects on the way, a fetch that ends has the events of exactly the asked range.
use lidofinance_lido_council.Shared.{
  ℕ, zero, suc, ◌+◌, ◌-◌, ◌≤◌, ◌<◌, ◌≡◌, refl, ◌∙◌, ap, sym, ◌⊎◌, inl, inr, Bool, true, ◌&&◌, List,
  [], ◌∷◌, Bool-cases, arith, if◌then◌else◌,
}
use native.Mathlib.Decide.{dec_le}
use lidofinance_lido_council.Outcome.{Failure, Outcome, ok, throw, exit, pending}
use lidofinance_lido_council.Provider.{
  EventGroup, Turn, first, second, retry, Fetcher, is_partition_required, is_partitionable,
  center_of, merge_halves, fetch_events_fall_over,
}
use lidofinance_lido_council.Provider.BlockLog.{BlockLog, group_between, between-append}

and_left : (a b : Bool) → (a && b) ≡ true → a ≡ true
and_left a b h = ground arith

unfoldable pub retries : List Turn → ℕ
retries [] = 0
retries (retry ∷ turns) = retries turns + 1
retries (first ∷ turns) = retries turns
retries (second ∷ turns) = retries turns

module _ {ℓ} {E : Type ℓ} (log : BlockLog E) where
  -- An answer for a range of blocks, which may be empty, is the events of that range.
  abbrev pub IsHonest : Fetcher E → Type ℓ
  IsHonest fetcher =
      (turns : List Turn) (s e : ℕ) (g : EventGroup E)
      → s ≤ e + 1
      → fetcher turns s e ≡ ok g
      → g ≡ group_between log s e

  -- Besides, every request is settled, and one that was retried `limit` times is answered.
  pub record IsRecovering (limit : ℕ) (fetcher : Fetcher E) : Type ℓ where
    pub settles :
        (turns : List Turn) (s e : ℕ)
        → s ≤ e
        → (fetcher turns s e ≡ ok (group_between log s e))
          ⊎ ((error : Failure) × (fetcher turns s e ≡ throw error))
    pub answers :
        (turns : List Turn) (s e : ℕ)
        → s ≤ e
        → limit ≤ retries turns
        → fetcher turns s e ≡ ok (group_between log s e)

  center_bounds :
      (s e : ℕ) → is_partitionable s e ≡ true → (s + 1 ≤ center_of s e) × (center_of s e ≤ e)
  unfolding is_partitionable center_of
  center_bounds s e h = ground arith

  merge_between :
      (s c e : ℕ)
      → s + 1 ≤ c
      → c ≤ e
      → merge_halves s e (ok (group_between log s (c - 1))) (ok (group_between log c e))
        ≡ ok (group_between log s e)
  unfolding merge_halves
  merge_between s c e low high =
      ap (λ (events : List E). ok (record { events = events; start_block = s; end_block = e }))
        (between-append log s c e (omega arith) (omega arith) (omega arith))

  -- One level of the recursion: the two ways on after a rejected request.
  module _ (fetcher : Fetcher E) (fuel : ℕ) (turns : List Turn) (s e : ℕ) where
    abbrev again : Outcome (EventGroup E)
    again = fetch_events_fall_over fuel fetcher (retry ∷ turns) s e

    abbrev halves : Outcome (EventGroup E)
    halves =
        merge_halves s e (fetch_events_fall_over fuel fetcher (first ∷ turns) s (center_of s e - 1))
          (fetch_events_fall_over fuel fetcher (second ∷ turns) (center_of s e) e)

    fetch-answered :
        (g : EventGroup E)
        → fetcher turns s e ≡ ok g
        → fetch_events_fall_over (suc fuel) fetcher turns s e ≡ ok g
    unfolding fetch_events_fall_over
    fetch-answered g h = rw (h, fetch_events_fall_over)

    fetch-rejected :
        (error : Failure)
        → fetcher turns s e ≡ throw error
        → fetch_events_fall_over (suc fuel) fetcher turns s e
          ≡ (if is_partitionable s e && is_partition_required error then halves else again)
    unfolding fetch_events_fall_over
    fetch-rejected error h = rw (h, fetch_events_fall_over)

  -- A request that the node rejects has not been retried `limit` times yet.
  rejected_early :
      {limit : ℕ} {fetcher : Fetcher E}
      → IsRecovering limit fetcher
      → (turns : List Turn) (s e : ℕ) {error : Failure} → s ≤ e
      → fetcher turns s e ≡ throw error
      → retries turns < limit
  rejected_early {limit} node turns s e range rejected = elim (dec_le limit (retries turns)) [
    | yes late ↦ ground (arith, node.answers turns s e range late)
    | no early ↦ omega arith
  ]

  -- A node that answers a request after at most `limit` retries is waited for: from enough rounds,
  -- one for each retry and one for each block of the range, the fetch ends with the range's events.
  pub fetch_events_fall_over-total :
      (limit : ℕ) (fetcher : Fetcher E)
      → IsRecovering limit fetcher
      → (fuel : ℕ) (turns : List Turn) (s e : ℕ) → s ≤ e
      → (limit - retries turns) + (e - s) < fuel
      → fetch_events_fall_over fuel fetcher turns s e ≡ ok (group_between log s e)
  unfolding retries
  fetch_events_fall_over-total limit fetcher node zero turns s e range enough = absurd (omega arith)
  fetch_events_fall_over-total limit fetcher node (suc fuel) turns s e range enough =
      let ih : (t : List Turn) (a b : ℕ)
          → a ≤ b
          → (limit - retries t) + (b - a) < fuel
          → fetch_events_fall_over fuel fetcher t a b ≡ ok (group_between log a b) =
        fetch_events_fall_over-total limit fetcher node fuel in
      elim (node.settles turns s e range) [
        | inl answered ↦ fetch-answered fetcher fuel turns s e (group_between log s e) answered
        | inr (error, rejected) ↦
            let early : retries turns < limit = rejected_early node turns s e range rejected in
            fetch-rejected fetcher fuel turns s e error rejected
            ∙ elim (Bool-cases (is_partitionable s e && is_partition_required error)) [
              | inl split ↦
                  let (low, high) = center_bounds s e (and_left _ _ split) in
                  let left : fetch_events_fall_over fuel fetcher (first ∷ turns) s
                        (center_of s e - 1)
                      ≡ ok (group_between log s (center_of s e - 1)) =
                    ih (first ∷ turns) s (center_of s e - 1) (omega arith) (omega arith) in
                  let right : fetch_events_fall_over fuel fetcher (second ∷ turns) (center_of s e) e
                      ≡ ok (group_between log (center_of s e) e) =
                    ih (second ∷ turns) (center_of s e) e (omega arith) (omega arith) in
                  rw (split, left, right) (merge_between s (center_of s e) e low high)
              | inr whole ↦ rw whole (ih (retry ∷ turns) s e range (omega arith))
            ]
      ]

  merge_halves_inversion :
      (s e : ℕ) (left right : Outcome (EventGroup E)) {g : EventGroup E}
      → merge_halves s e left right ≡ ok g
      → (a : EventGroup E) × (b : EventGroup E) × (left ≡ ok a) × (right ≡ ok b)
  unfolding merge_halves
  merge_halves_inversion s e (ok a) (ok b) h = (a, b, refl, refl)
  merge_halves_inversion s e (ok a) (throw _) h = cc
  merge_halves_inversion s e (ok a) exit h = cc
  merge_halves_inversion s e (ok a) pending h = cc
  merge_halves_inversion s e (throw _) _ h = cc
  merge_halves_inversion s e exit _ h = cc
  merge_halves_inversion s e pending _ h = cc

  -- If the answers of the node are honest, a fetch that ends, after whatever failures and splits,
  -- has the events of exactly the asked range, in the order of the chain.
  pub fetch_events_fall_over-eq-between :
      (fetcher : Fetcher E)
      → IsHonest fetcher
      → (fuel : ℕ) (turns : List Turn) (s e : ℕ) (g : EventGroup E) → s ≤ e + 1
      → fetch_events_fall_over fuel fetcher turns s e ≡ ok g
      → g ≡ group_between log s e
  fetch_events_fall_over-eq-between fetcher honest zero turns s e g range h =
      unfold fetch_events_fall_over in cc
  fetch_events_fall_over-eq-between fetcher honest (suc fuel) turns s e g range h =
      settled (fetch_events_fall_over-eq-between fetcher honest fuel) (fetcher turns s e) refl
    where
      settled :
          ((t : List Turn) (a b : ℕ) (x : EventGroup E)
            → a ≤ b + 1
            → fetch_events_fall_over fuel fetcher t a b ≡ ok x
            → x ≡ group_between log a b)
          → (r : Outcome (EventGroup E)) → fetcher turns s e ≡ r
          → g ≡ group_between log s e
      settled ih (ok x) answer =
          honest turns s e g range (cc (fetch-answered fetcher fuel turns s e x answer))
      settled ih (throw error) answer =
          let next = sym (fetch-rejected fetcher fuel turns s e error answer) ∙ h in
          elim (Bool-cases (is_partitionable s e && is_partition_required error)) [
            | inl split ↦
                let (low, high) = center_bounds s e (and_left _ _ split) in
                let merged : halves fetcher fuel turns s e ≡ ok g = rw split at next in
                let (a, b, ea, eb) = merge_halves_inversion s e _ _ merged in
                let pa : a ≡ group_between log s (center_of s e - 1) =
                  ih _ _ _ a (omega arith) ea in
                let pb : b ≡ group_between log (center_of s e) e = ih _ _ _ b (omega arith) eb in
                cc (merge_between s (center_of s e) e low high, ea ∙ ap ok pa, eb ∙ ap ok pb)
            | inr whole ↦ ih (retry ∷ turns) s e g range (rw whole at next)
          ]
      settled ih exit answer = unfold fetch_events_fall_over in cc
      settled ih pending answer = unfold fetch_events_fall_over in cc
