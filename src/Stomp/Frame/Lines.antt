-- ===== src/Stomp/Frame/Lines.antt =====
-- src/transport/stomp/stomp.frame.ts: header lines as `toString` writes them and `unmarshallSingle` reads them.
use lidofinance_lido_council.Shared.{
  ℕ, ◌≡◌, ◌≢◌, refl, false, Option, none, some, List, [], ◌∷◌, ◌++◌, Bool-cases, inl, inr, sym,
  arith, append_assoc, append-nil,
}
use mathlib.Core.Path.{subst}
use lidofinance_lido_council.Stomp.Text.{
  Text, text_eq, split, split-append, split-Lacks, Lacks, All-append,
}
use lidofinance_lido_council.Stomp.Frame.{
  Headers, lf, colon, content_length, set_header, has_header, shown, header_lines, read_header,
  read_lines,
}

-- Headers with values whose names and values hold no line feed and no colon; each name differs
-- from those before it.
abbrev pub Readable : Headers → Headers → Type 0
Readable before [] = Unit
Readable before ((key, none) ∷ headers) = ⊥
Readable before ((key, some value) ∷ headers) =
    Lacks lf key
    × Lacks colon key
    × Lacks lf value
    × Lacks colon value
    × (has_header key before ≡ false)
    × Readable (before ++ ((key, some value) ∷ [])) headers

abbrev pub line_of : Text → Option Text → Text
line_of key value = key ++ (colon ∷ shown value)

abbrev pub lines_of : Headers → List Text
lines_of [] = []
lines_of ((key, value) ∷ headers) = line_of key value ∷ lines_of headers

set_header-fresh :
    (key : Text) (value : Option Text) (headers : Headers)
    → has_header key headers ≡ false
    → set_header key value headers ≡ headers ++ (key, value) ∷ []
unfolding set_header has_header
set_header-fresh key value [] h = refl
set_header-fresh key value ((k, v) ∷ headers) h = ground (arith, set_header-fresh key value headers)

pub read_header-line :
    (key value : Text) (before : Headers)
    → Lacks colon key
    → Lacks colon value
    → has_header key before ≡ false
    → read_header (line_of key (some value)) before ≡ before ++ (key, some value) ∷ []
unfolding read_header
read_header-line key value before k v fresh =
    rw (split-append colon key value k, split-Lacks colon value v)
      (set_header-fresh key (some value) before fresh)

pub read_lines-line :
    (command : Text) (before : Headers) (key value : Text) (lines : List Text)
    → read_lines command before (line_of key (some value) ∷ lines)
      ≡ read_lines command (read_header (line_of key (some value)) before) lines
unfolding read_lines
read_lines-line command before [] value lines = refl
read_lines-line command before (c ∷ key) value lines = refl

pub read_lines-headers :
    (command : Text) (before headers : Headers) (lines : List Text)
    → Readable before headers
    → read_lines command before (lines_of headers ++ lines)
      ≡ read_lines command (before ++ headers) lines
read_lines-headers command before [] lines h = rw (append-nil before) (refl)
read_lines-headers command before ((key, none) ∷ headers) lines h = elim h [ ]
read_lines-headers command before ((key, some value) ∷ headers) lines (_, ck, _, cv, fresh, rest) =
    rw
      (
        read_lines-line command before key value (lines_of headers ++ lines),
        read_header-line key value before ck cv fresh,
        read_lines-headers command (before ++ (key, some value) ∷ []) headers lines rest,
        append_assoc before ((key, some value) ∷ []) headers,
      )
      refl

-- A text with no separator in front.
pub split-in_front :
    (sep : ℕ) (piece rest : Text)
    → Lacks sep piece
    → split sep (piece ++ rest) ≡ (piece ++ (split sep rest).0, (split sep rest).1)
unfolding split
split-in_front sep [] rest lacks = refl
split-in_front sep (c ∷ cs) rest (ne, lacks) = ground (arith, split-in_front sep cs rest lacks)

-- A text that starts with a line feed.
abbrev pub StartsLine : Text → List Text → Type 0
StartsLine rest lines = split lf rest ≡ ([], lines)

pub starts_line :
    (line rest : Text) (lines : List Text)
    → Lacks lf line
    → StartsLine rest lines
    → StartsLine (lf ∷ line ++ rest) (line ∷ lines)
unfolding split
starts_line line rest lines lacks starts =
    rw (split-in_front lf line rest lacks, starts, append-nil line) (refl)

Lacks-line :
    (key value : Text) → Lacks lf key → Lacks lf value → Lacks lf (line_of key (some value))
Lacks-line key value lk lv =
    All-append (λ c. c ≢ lf) key (colon ∷ value) lk ((λ e. absurd (omega arith)), lv)

header_lines-skip :
    (key : Text) (value : Option Text) (headers : Headers)
    → has_header content_length ((key, value) ∷ headers) ≡ false
    → (header_lines ((key, value) ∷ headers) ≡ (lf ∷ line_of key value) ++ header_lines headers)
      × (has_header content_length headers ≡ false)
unfolding header_lines has_header
header_lines-skip key value headers h = elim (Bool-cases (text_eq key content_length)) [
  | inl e ↦ ground arith
  | inr e ↦
      (rw e (rw (append_assoc key (colon ∷ shown value) (header_lines headers)) refl), ground arith)
]

pub split-header_lines :
    (before headers : Headers) (rest : Text) (lines : List Text)
    → Readable before headers
    → has_header content_length headers ≡ false
    → StartsLine rest lines
    → StartsLine (header_lines headers ++ rest) (lines_of headers ++ lines)
split-header_lines before [] rest lines h fresh starts = unfold header_lines in starts
split-header_lines before ((key, none) ∷ headers) rest lines h fresh starts = elim h [ ]
split-header_lines before ((key, some value) ∷ headers) rest lines (lk, _, lv, _, _, h) fresh
      starts =
    let (skip, fresh') = header_lines-skip key (some value) headers fresh in
    let ih =
      split-header_lines (before ++ (key, some value) ∷ []) headers rest lines h fresh' starts in
    subst (λ s. StartsLine (s ++ rest) (line_of key (some value) ∷ (lines_of headers ++ lines)))
      (sym skip)
      (subst (λ s. StartsLine (lf ∷ s) (line_of key (some value) ∷ (lines_of headers ++ lines)))
        (sym (append_assoc (line_of key (some value)) (header_lines headers) rest))
        (starts_line (line_of key (some value)) (header_lines headers ++ rest)
          (lines_of headers ++ lines) (Lacks-line key value lk lv) ih))
