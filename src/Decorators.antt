-- ===== src/Decorators.antt =====
-- src/common/decorators/one-at-time.ts, as one call sees it: the flag that the decorator keeps beside
-- the method, and the method's own state.
pub mod Overlap
pub mod Cached
use lidofinance_lido_council.Shared.{Bool, true, false, Option, none, some, if◌then◌else◌}
use lidofinance_lido_council.Outcome.{Outcome, ok, throw, exit, pending, Exec}

pub record OneAtTime (S : Type 0) : Type 0 where
  pub is_executing : Bool
  pub state : S

module _ {S A : Type 0} where
  -- The catch and the finally block. A call that has not settled has not reached them.
  abbrev pub settle : Outcome A → S → Outcome (Option A) × OneAtTime S
  settle (ok a) s = (ok (some a), record { is_executing = false; state = s })
  settle (throw e) s = (ok none, record { is_executing = false; state = s })
  settle exit s = (exit, record { is_executing = false; state = s })
  settle pending s = (pending, record { is_executing = true; state = s })

  -- `none` is the `undefined` of a call that was skipped or failed.
  unfoldable pub one_at_time : Exec S A → Exec (OneAtTime S) (Option A)
  one_at_time method g =
      let called = (let (r, s) = method g.state in settle r s) in
      if g.is_executing then (ok none, g) else called
