-- ===== src/Health.antt =====
-- src/health/provider.health.ts: the age of the last block. The clock and the node are outside.
use lidofinance_lido_council.Shared.{
  ℕ, ◌+◌, ◌-◌, ◌/◌, ◌≤◌, ◌<◌, ◌≡◌, ◌↔◌, refl, Bool, true, arith, leb, ltb, if◌then◌else◌,
}
use lidofinance_lido_council.Shared.Int.{ℤ, pos, negsuc}
use lidofinance_lido_council.Outcome.{new_error, Outcome, ok, throw, exit, pending}

abbrev pub max_block_delay_seconds : ℕ
max_block_delay_seconds = 300

pub record HealthIndicatorResult : Type 0 where
  pub is_up : Bool
  pub block_timestamp : ℤ
  pub now_timestamp : ℕ

-- `getBlockTimestamp`, of the answer of `getBlock`
unfoldable get_block_timestamp : Outcome ℕ → Outcome ℤ
get_block_timestamp (ok timestamp) = ok (pos timestamp)
get_block_timestamp (throw error) = ok (negsuc 0)
get_block_timestamp exit = exit
get_block_timestamp pending = pending

-- `Math.abs(nowTimestamp - blockTimestamp)`
abbrev delta_timestamp : ℕ → ℤ → ℕ
delta_timestamp now (pos block) = if leb block now then now - block else block - now
delta_timestamp now (negsuc n) = now + (n + 1)

abbrev checked : ℕ → Outcome ℤ → Outcome HealthIndicatorResult
checked now (ok block) =
    if ltb (delta_timestamp now block) max_block_delay_seconds
    then ok (record { is_up = true; block_timestamp = block; now_timestamp = now })
    else throw (new_error "Provider check failed")
checked now (throw error) = throw error
checked now exit = exit
checked now pending = pending

-- `Math.floor(Date.now() / 1000)`
unfoldable pub get_now_timestamp : ℕ → ℕ
get_now_timestamp date_now = date_now / 1000

unfoldable pub is_healthy : ℕ → Outcome ℕ → Outcome HealthIndicatorResult
unfolding get_block_timestamp
is_healthy date_now block = checked (get_now_timestamp date_now) (get_block_timestamp block)

-- What the check says of a block's timestamp at a time in seconds.
checked_iff :
    (now : ℕ) (block : Outcome ℕ)
    → max_block_delay_seconds ≤ now
    → ((r : HealthIndicatorResult) × (checked now (get_block_timestamp block) ≡ ok r)) ↔ (
        (t : ℕ) × (block ≡ ok t)
        × (now < t + max_block_delay_seconds)
        × (t < now + max_block_delay_seconds))
unfolding get_block_timestamp
checked_iff now (ok t) late = (
  λ (r, h). (t, refl, ground arith, ground arith),
  λ (u, e, near, far).
      (record { is_up = true; block_timestamp = pos t; now_timestamp = now }, ground arith),
)
checked_iff now (throw error) late =
    (λ (r, h). absurd (ground arith), λ (u, e, near, far). absurd (cc))
checked_iff now exit late = (λ (r, h). absurd (cc), λ (u, e, near, far). absurd (cc))
checked_iff now pending late = (λ (r, h). absurd (cc), λ (u, e, near, far). absurd (cc))

-- At any time later than the allowed delay, the daemon is healthy exactly when the node has given a
-- block whose timestamp is less than that delay away from the time in seconds; an error of the node
-- counts as unhealthy.
pub is_healthy_iff :
    (date_now : ℕ) (block : Outcome ℕ)
    → max_block_delay_seconds ≤ get_now_timestamp date_now
    → ((r : HealthIndicatorResult) × (is_healthy date_now block ≡ ok r)) ↔ (
        (t : ℕ) × (block ≡ ok t)
        × (get_now_timestamp date_now < t + max_block_delay_seconds)
        × (t < get_now_timestamp date_now + max_block_delay_seconds))
unfolding is_healthy
is_healthy_iff date_now block late = checked_iff (get_now_timestamp date_now) block late
