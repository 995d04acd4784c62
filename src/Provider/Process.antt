-- ===== src/Provider/Process.antt =====
-- src/provider/provider.module.ts, src/provider/formatter.service.ts and the requests for the network
-- of src/provider/provider.service.ts: what the daemon adds to the providers of the ethers library.
-- Time comes as the milliseconds since the event before.
use lidofinance_lido_council.Shared.{
  ℕ, suc, ◌*◌, ◌≤◌, ◌<◌, ◌≡◌, refl, ap, ◌∙◌, String, Bool, true, false, ◌||◌, not, Option, none,
  some, List, [], ◌∷◌, ◌++◌, append_assoc, append-nil, sym, leb, ◌==◌, str_eq, if◌then◌else◌, arith,
}
use lidofinance_lido_council.Shared.Int.{ℤ, pos, negsuc}
use lidofinance_lido_council.Outcome.{Outcome, ok, throw, exit, pending, bind}

-- MAX_TIME_WITHOUT_NEW_BLOCKS_MS
abbrev pub max_time_without_new_blocks_ms : ℕ
max_time_without_new_blocks_ms = 5 * 60 * 1000

-- What `on` hands to the library: the listener inside a function that starts the timer first, and
-- the listener itself.
pub data Registered : Type 0 where
  with_timer plain : Registered

-- The timer of a subscription, with the last block that it was started with, and the blocks that the
-- listener was called with
pub record Subscription : Type 0 where
  pub die_timer : Option ℤ
  pub registered : List Registered
  pub calls : List ℕ

unfoldable pub on : String → Subscription
on event_name =
    if str_eq event_name "block"
    then record { die_timer = some (negsuc 0); registered = with_timer ∷ plain ∷ []; calls = [] }
    else record { die_timer = none; registered = plain ∷ []; calls = [] }

unfoldable pub emit : ℕ → List Registered → Subscription → Subscription
emit block [] s = s
emit block (with_timer ∷ rs) s =
    emit block rs (record s { die_timer = some (pos block); calls = s.calls ++ block ∷ [] })
emit block (plain ∷ rs) s = emit block rs (record s { calls = s.calls ++ block ∷ [] })

pub data Process : Type 0 where
  running : Process
  -- the last block of the OnBlockError
  exited : ℤ → Process

abbrev fired : Option ℤ → ℕ → Option ℤ
fired none elapsed = none
fired (some last_block) elapsed =
    if leb max_time_without_new_blocks_ms elapsed then some last_block else none

abbrev after_timer : Option ℤ → Process × Subscription → Subscription → Process × Subscription
after_timer none later s = later
after_timer (some last_block) later s = (exited last_block, s)

-- Blocks, each with the time since the one before; then a time with no block
unfoldable pub watch : List (ℕ × ℕ) → ℕ → Subscription → Process × Subscription
unfolding emit
watch [] silence s = after_timer (fired s.die_timer silence) (running, s) s
watch ((elapsed, block) ∷ blocks) silence s =
    after_timer (fired s.die_timer elapsed) (watch blocks silence (emit block s.registered s)) s

-- `send`, with what the library answers
pub record RequestMetrics : Type 0 where
  pub requests : ℕ
  pub errors : ℕ

unfoldable pub send : {A : Type 0} → Outcome A → RequestMetrics → Outcome A × RequestMetrics
send (ok result) m = (ok result, record m { requests = suc m.requests })
send (throw error) m = (throw error, record m { requests = suc m.requests; errors = suc m.errors })
send exit m = (exit, m)
send pending m = (pending, m)

-- `_uncachedDetectNetwork`
unfoldable pub detect_network : {A : Type 0} → Outcome A → Outcome A
detect_network (throw error) = exit
detect_network r = r

-- The network as the node names it
pub record Network : Type 0 where
  pub chain_id : ℕ
  pub name : String

abbrev answer_of : {A B : Type 0} → (A → B) → Outcome A → Outcome B
answer_of f r = bind r (λ a. ok (f a))

-- `getChainId`
unfoldable pub get_chain_id : Outcome Network → Outcome ℕ
get_chain_id = answer_of (λ network. network.chain_id)

-- `name || network.name`
abbrev name_or : Option String → String → String
name_or none other = other
name_or (some name) other = if str_eq name "" then other else name

-- `getNetworkName`; `chain_name` is the lower case of the name in `CHAINS`.
unfoldable pub get_network_name : (ℕ → Option String) → Outcome Network → Outcome String
get_network_name chain_name =
    answer_of (λ network. name_or (chain_name network.chain_id) network.name)

-- A block tag of EIP-1898 is an object with the number or the hash of a block.
pub data BlockTag : Type 0 where
  tag : String → BlockTag
  object : Option ℕ → Option String → BlockTag

abbrev is_number : Option ℕ → Bool
is_number none = false
is_number (some n) = not (n == 0)

abbrev is_hash : Option String → Bool
is_hash none = false
is_hash (some hash) = not (str_eq hash "")

unfoldable pub block_tag : (BlockTag → Outcome BlockTag) → BlockTag → Outcome BlockTag
block_tag super (tag t) = super (tag t)
block_tag super (object number hash) =
    if is_number number || is_hash hash then ok (object number hash) else super (object number hash)

abbrev pub AllShort : List (ℕ × ℕ) → Type 0
AllShort [] = Unit
AllShort ((elapsed, block) ∷ blocks) = (elapsed < max_time_without_new_blocks_ms) × AllShort blocks

-- Each block, twice
abbrev pub twice : List (ℕ × ℕ) → List ℕ
twice [] = []
twice ((elapsed, block) ∷ blocks) = block ∷ block ∷ twice blocks

abbrev pub last_of : List (ℕ × ℕ) → ℤ → ℤ
last_of [] last = last
last_of ((elapsed, block) ∷ blocks) last = last_of blocks (pos block)

abbrev pub watched : ℤ → List ℕ → Subscription
watched last calls = record {
  die_timer = some last;
  registered = with_timer ∷ plain ∷ [];
  calls = calls;
}

in_time :
    (elapsed : ℕ)
    → elapsed < max_time_without_new_blocks_ms
    → leb max_time_without_new_blocks_ms elapsed ≡ false
in_time elapsed h = ground arith

too_late :
    (elapsed : ℕ)
    → max_time_without_new_blocks_ms ≤ elapsed
    → leb max_time_without_new_blocks_ms elapsed ≡ true
too_late elapsed h = ground arith

watch-append :
    (blocks more : List (ℕ × ℕ)) (silence : ℕ) (last : ℤ) (calls : List ℕ)
    → AllShort blocks
    → watch (blocks ++ more) silence (watched last calls)
      ≡ watch more silence (watched (last_of blocks last) (calls ++ twice blocks))
unfolding watch emit
watch-append [] more silence last calls h =
    ap (λ cs. watch more silence (watched last cs)) (sym (append-nil calls))
watch-append ((elapsed, block) ∷ blocks) more silence last calls (short, h) =
    rw (in_time elapsed short) (
      rw (append_assoc calls (block ∷ []) (block ∷ [])) (
        watch-append blocks more silence (pos block) (calls ++ block ∷ block ∷ []) h
        ∙ ap (λ cs. watch more silence (watched (last_of blocks (pos block)) cs))
            (append_assoc calls (block ∷ block ∷ []) (twice blocks))))

-- The time before the first event
abbrev pub first_wait : List (ℕ × ℕ) → ℕ → ℕ
first_wait [] silence = silence
first_wait ((elapsed, block) ∷ blocks) silence = elapsed

watch-late :
    (more : List (ℕ × ℕ)) (silence : ℕ) (last : ℤ) (calls : List ℕ)
    → max_time_without_new_blocks_ms ≤ first_wait more silence
    → watch more silence (watched last calls) ≡ (exited last, watched last calls)
unfolding watch
watch-late [] silence last calls late = rw (too_late silence late) refl
watch-late ((elapsed, block) ∷ more) silence last calls late = rw (too_late elapsed late) refl

-- While each block of a subscription comes within five minutes of the event before it, and no longer
-- silence follows, the process runs, and the listener has been called with each block twice.
pub watch_runs :
    (blocks : List (ℕ × ℕ)) (silence : ℕ)
    → AllShort blocks
    → silence < max_time_without_new_blocks_ms
    → watch blocks silence (on "block")
      ≡ (running, watched (last_of blocks (negsuc 0)) (twice blocks))
unfolding on watch
watch_runs blocks silence h short =
    ap (λ bs. watch bs silence (watched (negsuc 0) [])) (sym (append-nil blocks))
    ∙ watch-append blocks [] silence (negsuc 0) [] h
    ∙ rw (in_time silence short) refl

-- At the first wait of five minutes or more, before a block or at the end, the process ends, on an error
-- with the number of the last block before it, or -1 where there was none. Until then the listener has
-- been called with each block twice.
pub watch_exits :
    (blocks more : List (ℕ × ℕ)) (silence : ℕ)
    → AllShort blocks
    → max_time_without_new_blocks_ms ≤ first_wait more silence
    → watch (blocks ++ more) silence (on "block")
      ≡ (exited (last_of blocks (negsuc 0)), watched (last_of blocks (negsuc 0)) (twice blocks))
unfolding on
watch_exits blocks more silence h late =
    watch-append blocks more silence (negsuc 0) [] h
    ∙ watch-late more silence (last_of blocks (negsuc 0)) (twice blocks) late
