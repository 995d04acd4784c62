-- ===== src/Stomp/Text.antt =====
-- Texts as lists of UTF-16 code units, with the string methods that src/transport/stomp/ calls.
use Prim.Native.Char.{code}
use lidofinance_lido_council.Shared.{
  ℕ, zero, suc, ◌+◌, ◌/◌, ◌%◌, ◌≤◌, String, ◌≡◌, ◌≢◌, ◌↔◌, refl, ap, Bool, true, false, ◌&&◌, ◌||◌,
  List, [], ◌∷◌, ◌++◌, arith, ltb, leb, ◌==◌, All, if◌then◌else◌,
}

abbrev pub Text : Type 0
Text = List ℕ

abbrev pub codes : String → Text
codes String.[] = []
codes (String.◌∷◌ c s) = code c ∷ codes s

unfoldable pub text_eq : Text → Text → Bool
text_eq [] [] = true
text_eq (x ∷ xs) (y ∷ ys) = x == y && text_eq xs ys
text_eq _ _ = false

pub text_eq_iff : (s t : Text) → (text_eq s t ≡ true) ↔ (s ≡ t)
unfolding text_eq
text_eq_iff [] [] = (λ h. refl, λ e. refl)
text_eq_iff [] (y ∷ ys) = (λ h. cc, λ e. cc)
text_eq_iff (x ∷ xs) [] = (λ h. cc, λ e. cc)
text_eq_iff (x ∷ xs) (y ∷ ys) =
    let (to, from) = text_eq_iff xs ys in (λ h. ground (arith, to), λ e. ground (arith, from))

-- A piece of `split` before the separator, and the pieces that follow.
abbrev before : ℕ → ℕ → Text × List Text → Text × List Text
before sep c (piece, pieces) = if c == sep then ([], piece ∷ pieces) else (c ∷ piece, pieces)

-- `text.split(sep)`, which has a first piece always
unfoldable pub split : ℕ → Text → Text × List Text
split sep [] = ([], [])
split sep (c ∷ cs) = before sep c (split sep cs)

-- The separator does not occur.
abbrev pub Lacks : ℕ → Text → Type 0
Lacks sep = All (λ c. c ≢ sep)

pub split-append :
    (sep : ℕ) (piece rest : Text)
    → Lacks sep piece
    → split sep (piece ++ (sep ∷ rest)) ≡ (piece, (split sep rest).0 ∷ (split sep rest).1)
unfolding split
split-append sep [] rest lacks = ground arith
split-append sep (c ∷ cs) rest (ne, lacks) = ground (arith, split-append sep cs rest lacks)

pub split-Lacks : (sep : ℕ) (piece : Text) → Lacks sep piece → split sep piece ≡ (piece, [])
unfolding split
split-Lacks sep [] lacks = refl
split-Lacks sep (c ∷ cs) (ne, lacks) = ground (arith, split-Lacks sep cs lacks)

-- `text.slice(0, -1)`
unfoldable pub slice_last : Text → Text
slice_last [] = []
slice_last (c ∷ []) = []
slice_last (c ∷ d ∷ cs) = c ∷ slice_last (d ∷ cs)

pub slice_last-append : (s : Text) (c : ℕ) → slice_last (s ++ c ∷ []) ≡ s
unfolding slice_last
slice_last-append [] c = refl
slice_last-append (d ∷ []) c = refl
slice_last-append (d ∷ e ∷ s) c = ap (λ r. d ∷ r) (slice_last-append (e ∷ s) c)

-- The characters of `\s`.
unfoldable pub is_space : ℕ → Bool
is_space c =
    (leb 9 c && leb c 13)
    || c == 32
    || c == 160
    || c == 5760
    || (leb 8192 c && leb c 8202)
    || c == 8232
    || c == 8233
    || c == 8239
    || c == 8287
    || c == 12288
    || c == 65279

pub drop_spaces : Text → Text
drop_spaces [] = []
drop_spaces (c ∷ cs) = let rest = drop_spaces cs in if is_space c then rest else c ∷ cs

abbrev keep_or_drop : ℕ → Text → Text
keep_or_drop c [] = if is_space c then [] else c ∷ []
keep_or_drop c (d ∷ ds) = c ∷ d ∷ ds

pub drop_last_spaces : Text → Text
drop_last_spaces [] = []
drop_last_spaces (c ∷ cs) = keep_or_drop c (drop_last_spaces cs)

-- `line.replace(/^\s+|\s+$/g, '')`
unfoldable pub strip : Text → Text
unfolding drop_spaces drop_last_spaces is_space
strip line = drop_last_spaces (drop_spaces line)

-- A number in decimal: fewer digits than the fuel, which is one more than the number.
pub digits_from : ℕ → ℕ → Text
digits_from zero n = []
digits_from (suc fuel) n =
    let higher = digits_from fuel (n / 10) in
    if ltb n 10 then (48 + n) ∷ [] else higher ++ (48 + n % 10) ∷ []

unfoldable pub digits : ℕ → Text
unfolding digits_from
digits n = digits_from (suc n) n

abbrev IsDigit : ℕ → Type 0
IsDigit c = (48 ≤ c) × (c ≤ 57)

pub All-append : (P : ℕ → Type 0) (xs ys : Text) → All P xs → All P ys → All P (xs ++ ys)
All-append P [] ys hx hy = hy
All-append P (x ∷ xs) ys (p, hx) hy = (p, All-append P xs ys hx hy)

digits_from-IsDigit : (fuel n : ℕ) → All IsDigit (digits_from fuel n)
unfolding digits_from
digits_from-IsDigit zero n = tt
digits_from-IsDigit (suc fuel) n = ground (
  arith,
  All-append IsDigit (digits_from fuel (n / 10)) ((48 + n % 10) ∷ []),
  digits_from-IsDigit fuel (n / 10),
)

All-map : (P Q : ℕ → Type 0) → ((c : ℕ) → P c → Q c) → (s : Text) → All P s → All Q s
All-map P Q f [] h = tt
All-map P Q f (c ∷ cs) (p, h) = (f c p, All-map P Q f cs h)

-- A number has digits only.
pub Lacks-digits : (sep n : ℕ) → ltb sep 48 || ltb 57 sep ≡ true → Lacks sep (digits n)
unfolding digits
Lacks-digits sep n outside =
    All-map IsDigit (λ c. c ≢ sep) (λ c h e. ground arith) (digits_from (suc n) n)
      (digits_from-IsDigit (suc n) n)

stripped : strip (codes " \tCONNECTED \r") ≡ codes "CONNECTED"
unfolding strip
stripped = refl

split_header : split 58 (codes "a:b:c") ≡ (codes "a", codes "b" ∷ codes "c" ∷ [])
unfolding split
split_header = refl

digits_1205 : digits 1205 ≡ codes "1205"
unfolding digits
digits_1205 = refl
