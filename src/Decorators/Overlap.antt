-- ===== src/Decorators/Overlap.antt =====
-- src/common/decorators/one-at-time.ts: calls of a decorated method that overlap. A method is the
-- list of its parts between awaits; a part gives the next state and whether the method goes on.
use lidofinance_lido_council.Shared.{
  ℕ, zero, suc, ◌≡◌, ◌⊎◌, inl, inr, refl, sym, ap, ◌∙◌, Bool, true, false, Option, none, some, List,
  [], ◌∷◌, ◌++◌, Bool-cases, if◌then◌else◌,
}
use mathlib.Core.Path.{subst}

abbrev pub Method : Type 0 → Type 0
Method S = List (S → S × Bool)

-- The flag, the calls that are inside the method with what is left of each, the calls that got into
-- it, the number of those that did not, and the state that the method works on
pub record Calls (S : Type 0) : Type 0 where
  pub is_executing : Bool
  pub running : List (Method S)
  pub started : List (Method S)
  pub skipped : ℕ
  pub state : S

-- A call; or the next part of one that is inside, by its place
pub data Event (S : Type 0) : Type 0 where
  call : Method S → Event S
  advance : ℕ → Event S

module _ {S : Type 0} where
  abbrev pub new_calls : S → Calls S
  new_calls s = record { is_executing = false; running = []; started = []; skipped = 0; state = s }

  abbrev pub left_over : Bool → Method S → Method S
  left_over go rest = if go then rest else []

  unfoldable pub place : ℕ → List (Method S) → Option (Method S)
  place n [] = none
  place zero (m ∷ ms) = some m
  place (suc n) (m ∷ ms) = place n ms

  unfoldable pub put : ℕ → Method S → List (Method S) → List (Method S)
  put n rest [] = []
  put zero rest (m ∷ ms) = rest ∷ ms
  put (suc n) rest (m ∷ ms) = m ∷ put n rest ms

  unfoldable pub remove : ℕ → List (Method S) → List (Method S)
  remove n [] = []
  remove zero (m ∷ ms) = ms
  remove (suc n) (m ∷ ms) = m ∷ remove n ms

  -- A call with no part left reaches the finally block.
  abbrev pub advance_call : ℕ → Option (Method S) → Calls S → Calls S
  advance_call n none c = c
  advance_call n (some []) c = record c { is_executing = false; running = remove n c.running }
  advance_call n (some (part ∷ rest)) c =
      let (s, go) = part c.state in
      record c { state = s; running = put n (left_over go rest) c.running }

  unfoldable pub step : Event S → Calls S → Calls S
  unfolding place put remove
  step (call m) c = if c.is_executing then record c { skipped = suc c.skipped } else record c {
    is_executing = true;
    running = c.running ++ m ∷ [];
    started = c.started ++ m ∷ [];
  }
  step (advance n) c = advance_call n (place n c.running) c

  unfoldable pub run : List (Event S) → Calls S → Calls S
  unfolding step
  run [] c = c
  run (event ∷ events) c = run events (step event c)

  -- A method run alone, and methods one after another
  unfoldable pub run_method : Method S → S → S
  run_method [] s = s
  run_method (part ∷ rest) s =
      let (s', go) = part s in let after = run_method rest s' in if go then after else s'

  unfoldable pub run_all : List (Method S) → S → S
  unfolding run_method
  run_all [] s = s
  run_all (m ∷ ms) s = run_all ms (run_method m s)

  -- No call is inside, and the state is that of the calls one after another; or one call is, and
  -- the rest of it leads to that state.
  abbrev pub IsSerial : S → Calls S → Type 0
  IsSerial start c =
      ((c.is_executing ≡ false) × (c.running ≡ []) × (c.state ≡ run_all c.started start))
      ⊎ ((rest : Method S) × (c.is_executing ≡ true)
          × (c.running ≡ rest ∷ [])
          × (run_method rest c.state ≡ run_all c.started start))

  run_all-append :
      (ms : List (Method S)) (m : Method S) (s : S)
      → run_all (ms ++ m ∷ []) s ≡ run_method m (run_all ms s)
  unfolding run_all
  run_all-append [] m s = refl
  run_all-append (n ∷ ms) m s = run_all-append ms m (run_method n s)

  run_method-left_over :
      (part : S → S × Bool) (rest : Method S) (s : S)
      → run_method (left_over (part s).1 rest) (part s).0 ≡ run_method (part ∷ rest) s
  unfolding run_method
  run_method-left_over part rest s = elim (Bool-cases (part s).1) [
    | inl go ↦ rw go refl
    | inr stop ↦ rw stop refl
  ]

  advance-IsSerial :
      (n : ℕ) (rest : Method S) (start : S) (c : Calls S)
      → c.is_executing ≡ true
      → c.running ≡ rest ∷ []
      → run_method rest c.state ≡ run_all c.started start
      → IsSerial start (advance_call n (place n (rest ∷ [])) c)
  unfolding place put remove run_method
  advance-IsSerial zero [] start c busy inside same = inl (refl, ap (remove zero) inside, same)
  advance-IsSerial zero (part ∷ rest) start c busy inside same =
      let (s, go) = part c.state in
      inr (
        left_over go rest,
        busy,
        ap (put zero (left_over go rest)) inside,
        run_method-left_over part rest c.state ∙ same,
      )
  advance-IsSerial (suc n) rest start c busy inside same = inr (rest, busy, inside, same)

  step-IsSerial :
      (event : Event S) (start : S) (c : Calls S) → IsSerial start c → IsSerial start (step event c)
  unfolding step place
  step-IsSerial (call m) start c (inl (free, none_inside, same)) = rw free (
      inr (
        m,
        refl,
        ap (λ ms. ms ++ m ∷ []) none_inside,
        ap (run_method m) same ∙ sym (run_all-append c.started m start),
      ))
  step-IsSerial (call m) start c (inr (rest, busy, inside, same)) =
      rw busy (inr (rest, refl, inside, same))
  step-IsSerial (advance n) start c (inl (free, none_inside, same)) =
      subst (λ ms. IsSerial start (advance_call n (place n ms) c)) (sym none_inside)
        (inl (free, none_inside, same))
  step-IsSerial (advance n) start c (inr (rest, busy, inside, same)) =
      subst (λ ms. IsSerial start (advance_call n (place n ms) c)) (sym inside)
        (advance-IsSerial n rest start c busy inside same)

  run-IsSerial_from :
      (events : List (Event S)) (start : S) (c : Calls S)
      → IsSerial start c
      → IsSerial start (run events c)
  unfolding run
  run-IsSerial_from [] start c h = h
  run-IsSerial_from (event ∷ events) start c h =
      run-IsSerial_from events start (step event c) (step-IsSerial event start c h)

  -- However calls of a decorated method overlap, at most one is inside it, exactly when the flag is
  -- set; and the state is, or the rest of that call makes it, the one that the calls which got in
  -- leave when they run one after another in the order of their starts.
  pub run-IsSerial :
      (events : List (Event S)) (start : S) → IsSerial start (run events (new_calls start))
  unfolding run_all
  run-IsSerial events start =
      run-IsSerial_from events start (new_calls start) (inl (refl, refl, refl))
