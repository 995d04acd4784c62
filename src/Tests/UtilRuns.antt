-- ===== src/Tests/UtilRuns.antt =====
-- The health check and the utilities at concrete inputs.
use lidofinance_lido_council.Shared.{ℕ, zero, suc, ◌≡◌, refl, List, [], ◌∷◌, arith}
use lidofinance_lido_council.Shared.Int.{ℤ, pos, negsuc, ◌+ℤ◌, ◌-ℤ◌}
use lidofinance_lido_council.Promises.{Promise, fulfils, rejects, unsettled, promise_all}
use lidofinance_lido_council.Outcome.{new_error, ok}
use lidofinance_lido_council.Utils.Batches.{IsResult, range_promise-IsResult}
use lidofinance_lido_council.Utils.{
  range_promise, run_batches, batches, with_size, range, positive_iterator, negative_iterator,
  joined, split_pub_keys_array, joined-split_pub_keys_array,
}

abbrev bytes : List ℕ
bytes = 7 ∷ 8 ∷ 9 ∷ 10 ∷ []

joined-split_pub_keys_array_example :
    (keys : List (List ℕ)) × (split_pub_keys_array bytes 2 ≡ ok keys) × (joined keys ≡ bytes)
joined-split_pub_keys_array_example = joined-split_pub_keys_array bytes 2 (omega arith) refl

range_down : range (pos 1) (negsuc 1) ≡ pos 1 ∷ pos 0 ∷ negsuc 0 ∷ []
unfolding range positive_iterator negative_iterator ◌+ℤ◌ ◌-ℤ◌
range_down = refl

abbrev call : ℤ → Promise ℤ
call step = fulfils 1 step

range_promise_fulfilled :
    range_promise call (negsuc 1) (pos 1) (pos 2) ≡ fulfils 2 (negsuc 1 ∷ negsuc 0 ∷ pos 0 ∷ [])
unfolding range_promise run_batches batches with_size range positive_iterator promise_all ◌+ℤ◌ ◌-ℤ◌
range_promise_fulfilled = refl

range_promise_no_batch : range_promise call (pos 1) (pos 1) (pos 5) ≡ fulfils 0 []
unfolding range_promise run_batches batches with_size ◌+ℤ◌ ◌-ℤ◌
range_promise_no_batch = refl

range_promise_size :
    range_promise call (pos 1) (pos 5) (negsuc 0)
    ≡ rejects 0 (new_error "batchSize should be greater than 0")
unfolding range_promise with_size
range_promise_size = refl

-- a callback that never settles at 0, is rejected at 1 after a while and at 2 at once
abbrev failing : ℤ → Promise ℕ
failing (negsuc n) = fulfils 3 n
failing (pos zero) = unsettled
failing (pos (suc zero)) = rejects 9 (new_error "one")
failing (pos (suc (suc n))) = rejects 1 (new_error "two")

range_promise_first : range_promise failing (negsuc 1) (pos 4) (pos 5) ≡ rejects 1 (new_error "two")
unfolding range_promise run_batches batches with_size range positive_iterator promise_all ◌+ℤ◌ ◌-ℤ◌
range_promise_first = refl

range_promise-IsResult_example :
    IsResult failing 2
      (positive_iterator 6 (negsuc 1))
      (range_promise failing (negsuc 1) (negsuc 1 +ℤ pos 6) (pos 2))
range_promise-IsResult_example = range_promise-IsResult failing 2 (negsuc 1) 6 (omega arith)
