-- ===== src/Provider.antt =====
-- src/provider/provider.service.ts and src/provider/provider.constants.ts.
-- The JSON-RPC node is outside the daemon: what it answers to each request is an argument. A call of
-- `fetchEventsFallOver` makes requests that run side by side and at different times, so the answer
-- may depend on the request's place in the tree of calls: its `List Turn`, the last turn first.
pub mod BlockLog
pub mod FallOver
pub mod Process
use lidofinance_lido_council.Shared.{
  ℕ, zero, suc, ◌+◌, ◌-◌, ◌/◌, String, Option, none, some, Bool, true, false, ◌&&◌, ◌||◌, List, [],
  ◌∷◌, ◌++◌, ltb, str_eq, if◌then◌else◌,
}
use lidofinance_lido_council.Shared.Int.{ℤ, pos, negsuc, int_eq, includes}
use lidofinance_lido_council.Outcome.{Failure, Outcome, ok, throw, exit, pending, bind}

pub record EventGroup {ℓ} (E : Type ℓ) : Type ℓ where
  pub events : List E
  pub start_block : ℕ
  pub end_block : ℕ

-- ERRORS_LIMIT_EXCEEDED: -32005, -32064, -32600, -32602
abbrev errors_limit_exceeded : List ℤ
errors_limit_exceeded = negsuc 32004 ∷ negsuc 32063 ∷ negsuc 32599 ∷ negsuc 32601 ∷ []

-- `value === text` for a field that may be missing
abbrev is_text : Option String → String → Bool
is_text none text = false
is_text (some value) text = str_eq value text

abbrev is_limit_exceeded : Option ℤ → Bool
is_limit_exceeded none = false
is_limit_exceeded (some code) = includes errors_limit_exceeded code

-- `isPartitionRequired`
pub is_partition_required : Failure → Bool
is_partition_required error =
    is_text error.code "TIMEOUT"
    || is_limit_exceeded error.nested_code
    || is_text error.reason "missing response"
    || is_text error.code "SERVER_ERROR"

-- `endBlock - startBlock > 1`; the truncated difference is 0 where the source's is negative.
pub is_partitionable : ℕ → ℕ → Bool
is_partitionable start_block end_block = ltb 1 (end_block - start_block)

-- `Math.ceil((endBlock + startBlock) / 2)`
pub center_of : ℕ → ℕ → ℕ
center_of start_block end_block = (end_block + start_block + 1) / 2

pub data Turn : Type 0 where
  first second retry : Turn

abbrev pub Fetcher {ℓ} : Type ℓ → Type ℓ
Fetcher E = List Turn → ℕ → ℕ → Outcome (EventGroup E)

-- The catch block retries for as long as the request fails, so the calls take fuel.
module _ {ℓ} {E : Type ℓ} where
  pub merge_halves :
      ℕ → ℕ → Outcome (EventGroup E) → Outcome (EventGroup E) → Outcome (EventGroup E)
  merge_halves start_block end_block left right = bind left λ a. bind right λ b.
      ok
        (record { events = a.events ++ b.events; start_block = start_block; end_block = end_block })

  unfoldable pub fetch_events_fall_over : ℕ → Fetcher E → List Turn → ℕ → ℕ → Outcome (EventGroup E)
  unfolding is_partition_required is_partitionable center_of merge_halves
  fetch_events_fall_over zero fetcher turns start_block end_block = pending
  fetch_events_fall_over (suc fuel) fetcher turns start_block end_block =
      let center = center_of start_block end_block in
      let halves =
        merge_halves start_block end_block
          (fetch_events_fall_over fuel fetcher (first ∷ turns) start_block (center - 1))
          (fetch_events_fall_over fuel fetcher (second ∷ turns) center end_block) in
      let again = fetch_events_fall_over fuel fetcher (retry ∷ turns) start_block end_block in
      elim (fetcher turns start_block end_block) [
        | ok group ↦ ok group
        | throw error ↦
            if is_partitionable start_block end_block && is_partition_required error
            then halves
            else again
        | exit ↦ exit
        | pending ↦ pending
      ]

-- `getChainId`: the `chainId` of `provider.getNetwork()`, which the node answers or rejects.
-- `getBlockNumber`: `provider.blockNumber` is -1 until the provider has polled a block.
unfoldable get_block_number : ℤ → Outcome ℕ → Outcome ℕ
get_block_number (pos cached) requested = ok cached
get_block_number (negsuc n) requested = requested
