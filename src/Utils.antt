-- ===== src/Utils.antt =====
-- src/utils/: ranges of whole numbers, batches of promises, and the split of an array of public keys.
pub mod Batches
use lidofinance_lido_council.Shared.{
  String, map, ℕ, zero, suc, ◌+◌, ◌-◌, ◌*◌, ◌/◌, ◌%◌, ◌≤◌, ◌<◌, ◌≡◌, refl, sym, ◌∙◌, List, [], ◌∷◌,
  ◌++◌, arith, ltb, ◌==◌, length, take, drop, take-append-drop, Bool-cases, inl, inr, if◌then◌else◌,
}
use lidofinance_lido_council.Shared.Int.{ℤ, pos, negsuc, ◌+ℤ◌, ◌-ℤ◌, ltb_ℤ, pos_part}
use lidofinance_lido_council.Promises.{Promise, fulfils, rejects, await, promise_all}
use lidofinance_lido_council.Outcome.{new_error, Outcome, ok, throw, bind}

-- the numbers of a generator that yields `count` times
unfoldable pub positive_iterator : ℕ → ℤ → List ℤ
positive_iterator zero start = []
positive_iterator (suc count) start = start ∷ positive_iterator count (start +ℤ pos 1)

unfoldable pub negative_iterator : ℕ → ℤ → List ℤ
negative_iterator zero start = []
negative_iterator (suc count) start = start ∷ negative_iterator count (start -ℤ pos 1)

unfoldable pub range : ℤ → ℤ → List ℤ
unfolding positive_iterator negative_iterator
range start end =
    let delta = start -ℤ end in
    if ltb_ℤ delta (pos 0)
    then positive_iterator (pos_part (end -ℤ start)) start
    else negative_iterator (pos_part delta) start

module _ {T : Type 0} (callback : ℤ → Promise T) (from to : ℤ) where
  -- The batches that are left, from the given one; the callback is called for all numbers of a batch
  -- at once, and the next batch begins when it is fulfilled.
  unfoldable pub run_batches : ℕ → ℕ → ℕ → List T → Promise (List T)
  unfolding range promise_all
  run_batches batch_size zero batch result = fulfils 0 result
  run_batches batch_size (suc left) batch result =
      let batch_slot_from = from +ℤ pos (batch * batch_size) in
      let next = batch_slot_from +ℤ pos batch_size in
      let batch_slot_to = if ltb_ℤ next to then next else to in
      await (promise_all (map callback (range batch_slot_from batch_slot_to)))
        λ batch_result. run_batches batch_size left (batch + 1) (result ++ batch_result)

  -- `Math.ceil((to - from) / batchSize)` batches of a size that is not 0
  unfoldable pub batches : ℕ → Promise (List T)
  unfolding run_batches
  batches size =
      if size == 0
      then rejects 0 (new_error "batchSize should be greater than 0")
      else run_batches size ((pos_part (to -ℤ from) + size - 1) / size) 0 []

  unfoldable pub with_size : ℤ → Promise (List T)
  unfolding batches
  with_size (pos size) = batches size
  with_size (negsuc _) = rejects 0 (new_error "batchSize should be greater than 0")

  unfoldable pub range_promise : ℤ → Promise (List T)
  unfolding with_size
  range_promise batch_size =
      if ltb_ℤ to from
      then rejects 0 (new_error "From should be less than to")
      else with_size batch_size

-- The loop from index `i`; the fuel is the length of the array, and each step takes a byte at least.
module _ {A : Type 0} (array : List A) (key_length : ℕ) where
  slices_from : ℕ → ℕ → List (List A)
  slices_from zero i = []
  slices_from (suc fuel) i =
      let rest = slices_from fuel (i + key_length) in
      if ltb i (length array) then take key_length (drop i array) ∷ rest else []

  pub split_pub_keys_array : Outcome (List (List A))
  unfolding slices_from
  split_pub_keys_array =
      if key_length == 0
      then throw (new_error "Invalid key length size")
      else if ltb 0 (length array % key_length)
      then throw (new_error "Invalid array length")
      else ok (slices_from (length array) 0)

-- `splitPubKeys`: `arrayify` and `hexlify` are those of @ethersproject/bytes.
pub split_pub_keys :
    (String → Outcome (List ℕ)) → (List ℕ → String) → String → ℕ → Outcome (List String)
unfolding split_pub_keys_array
split_pub_keys arrayify hexlify hex_string pubkey_length = bind (arrayify hex_string) λ byte_array.
    bind (split_pub_keys_array byte_array pubkey_length)
      λ splitted_keys. ok (map hexlify splitted_keys)

abbrev pub joined : {A : Type 0} → List (List A) → List A
joined [] = []
joined (xs ∷ xss) = xs ++ joined xss

drop-nil : {A : Type 0} (n : ℕ) → drop {A = A} n [] ≡ []
drop-nil zero = refl
drop-nil (suc n) = refl

drop-drop : {A : Type 0} (n k : ℕ) (xs : List A) → drop k (drop n xs) ≡ drop (n + k) xs
drop-drop zero k xs = let e : zero + k ≡ k = omega arith in rw e
drop-drop (suc n) k [] = drop-nil k ∙ sym (drop-nil (suc n + k))
drop-drop (suc n) k (x ∷ xs) =
    let e : suc n + k ≡ suc (n + k) = omega arith in rw e (drop-drop n k xs)

drop-short : {A : Type 0} (n : ℕ) (xs : List A) → length xs ≤ n → drop n xs ≡ []
drop-short zero [] h = refl
drop-short zero (x ∷ xs) h = absurd (omega arith)
drop-short (suc n) [] h = refl
drop-short (suc n) (x ∷ xs) h = drop-short n xs (omega arith)

module _ {A : Type 0} (array : List A) (key_length : ℕ) (positive : 0 < key_length) where
  joined-slices_from :
      (fuel i : ℕ)
      → length array ≤ i + fuel
      → joined (slices_from array key_length fuel i) ≡ drop i array
  unfolding slices_from
  joined-slices_from zero i enough = sym (drop-short i array (omega arith))
  joined-slices_from (suc fuel) i enough = elim (Bool-cases (ltb i (length array))) [
    | inl inside ↦
        rw
          (
            inside,
            joined-slices_from fuel (i + key_length) (omega arith),
            ← drop-drop i key_length array,
          )
          (take-append-drop key_length (drop i array))
    | inr outside ↦ rw outside (sym (drop-short i array (ground arith)))
  ]

  -- An array whose length is a multiple of the key's length, which is not 0, is split, and the keys
  -- one after another are the array.
  pub joined-split_pub_keys_array :
      length array % key_length ≡ 0
      → (keys : List (List A)) × (split_pub_keys_array array key_length ≡ ok keys)
        × (joined keys ≡ array)
  unfolding split_pub_keys_array
  joined-split_pub_keys_array whole = (
    slices_from array key_length (length array) 0,
    ground arith,
    joined-slices_from (length array) 0 (omega arith),
  )

-- A hex text of as many bytes as the keys have is split into the texts of the keys.
pub split_pub_keys-eq-ok :
    (arrayify : String → Outcome (List ℕ)) (hexlify : List ℕ → String) (hex_string : String)
    (pubkey_length : ℕ) (byte_array : List ℕ)
    → arrayify hex_string ≡ ok byte_array
    → 0 < pubkey_length
    → length byte_array % pubkey_length ≡ 0
    → (keys : List (List ℕ)) × (split_pub_keys arrayify hexlify hex_string pubkey_length
        ≡ ok (map hexlify keys))
      × (joined keys ≡ byte_array)
unfolding split_pub_keys
split_pub_keys-eq-ok arrayify hexlify hex_string pubkey_length byte_array read positive whole =
    let (keys, split, together) =
      joined-split_pub_keys_array byte_array pubkey_length positive whole in
    (keys, rw (read, split) refl, together)
