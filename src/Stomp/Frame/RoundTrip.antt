-- ===== src/Stomp/Frame/RoundTrip.antt =====
-- src/transport/stomp/stomp.frame.ts: what `unmarshallSingle` makes of a frame that `marshall` wrote.
use lidofinance_lido_council.Shared.{
  ◌≡◌, ◌≢◌, refl, false, some, List, [], ◌∷◌, ◌++◌, length, ◌∙◌, arith, append_assoc, append-nil,
}
use lidofinance_lido_council.Stomp.Text.{
  Text, codes, text_eq, text_eq_iff, split, split-append, Lacks, Lacks-digits, All-append,
  slice_last, slice_last-append, strip, digits,
}
use lidofinance_lido_council.Stomp.Frame.{
  Headers, frame, lf, null, colon, content_length, has_header, header_lines, to_string, marshall,
  read_body, read_lines, unmarshall_single,
}
use lidofinance_lido_council.Stomp.Frame.Lines.{
  Readable, lines_of, StartsLine, read_header-line, read_lines-headers, split-in_front, starts_line,
  split-header_lines,
}

-- What `marshall` adds to the headers.
abbrev pub with_length : Headers → Text → Headers
with_length headers body = headers ++ (content_length, some (digits (length body))) ∷ []

Lacks-length : (body : Text) → Lacks lf (content_length ++ (colon ∷ digits (length body)))
Lacks-length body =
    All-append (λ c. c ≢ lf) content_length (colon ∷ digits (length body)) (omega arith)
      ((λ e. absurd (omega arith)), Lacks-digits lf (length body) refl)

-- The text behind the header lines.
abbrev tail_of : Text → Text
tail_of body =
    (lf ∷ content_length ++ (colon ∷ digits (length body))) ++ (lf ∷ lf ∷ body ++ null ∷ [])

abbrev body_lines : Text → List Text
body_lines body = let (line, lines) = split lf (body ++ null ∷ []) in line ∷ lines

abbrev tail_lines : Text → List Text
tail_lines body = (content_length ++ (colon ∷ digits (length body))) ∷ [] ∷ body_lines body

starts_tail : (body : Text) → StartsLine (tail_of body) (tail_lines body)
unfolding split
starts_tail body =
    starts_line (content_length ++ (colon ∷ digits (length body))) (lf ∷ lf ∷ body ++ null ∷ [])
      ([] ∷ body_lines body) (Lacks-length body) refl

marshall_lem :
    (command : Text) (headers : Headers) (body : Text)
    → has_header content_length headers ≡ false
    → marshall command headers body ≡ command ++ (header_lines headers ++ tail_of body)
unfolding marshall to_string
marshall_lem command headers body fresh = simp (fresh, append_assoc) (refl)

not_empty_frame : (text : Text) → text_eq (text ++ null ∷ []) (lf ∷ []) ≡ false
unfolding text_eq
not_empty_frame [] = refl
not_empty_frame (c ∷ []) = ground arith
not_empty_frame (c ∷ d ∷ text) = ground arith

read_tail :
    (command : Text) (headers : Headers) (body : Text)
    → has_header content_length headers ≡ false
    → read_lines command headers (tail_lines body)
      ≡ frame (record {
        command = command;
        headers = with_length headers body;
        body = read_body (split lf (body ++ null ∷ [])).0;
      })
unfolding read_lines
read_tail command headers body fresh =
    rw
      (read_header-line content_length (digits (length body)) headers (omega arith)
        (Lacks-digits colon (length body) refl) fresh)
      (refl)

marshall_not_empty :
    (command : Text) (headers : Headers) (body : Text)
    → text_eq (marshall command headers body) (lf ∷ []) ≡ false
unfolding marshall
marshall_not_empty command headers body =
    not_empty_frame (to_string (record { command = command; headers = headers; body = body }))

split-marshall :
    (command : Text) (headers : Headers) (body : Text)
    → Lacks lf command
    → Readable [] headers
    → has_header content_length headers ≡ false
    → split lf (marshall command headers body) ≡ (command, lines_of headers ++ tail_lines body)
split-marshall command headers body lc h fresh =
    rw
      (
        marshall_lem command headers body fresh,
        split-in_front lf command (header_lines headers ++ tail_of body) lc,
        split-header_lines [] headers (tail_of body) (tail_lines body) h fresh (starts_tail body),
        append-nil command,
      )
      (refl)

-- A frame that `marshall` wrote is read as its command without the spaces around it, its headers
-- with the content length behind them, and what `unmarshallSingle` takes for the body: the text up
-- to the first line feed, without its last character.
pub unmarshall_marshalled :
    (command : Text) (headers : Headers) (body : Text)
    → Lacks lf command
    → Readable [] headers
    → has_header content_length headers ≡ false
    → unmarshall_single (marshall command headers body)
      ≡ frame (record {
        command = strip command;
        headers = with_length headers body;
        body = read_body (split lf (body ++ null ∷ [])).0;
      })
unfolding unmarshall_single
unmarshall_marshalled command headers body lc h fresh =
    rw (marshall_not_empty command headers body, split-marshall command headers body lc h fresh)
      (read_lines-headers (strip command) [] headers (tail_lines body) h
        ∙ read_tail (strip command) headers body fresh)

first_line : (body : Text) → Lacks lf body → (split lf (body ++ null ∷ [])).0 ≡ body ++ null ∷ []
unfolding split
first_line body lacks = rw (split-in_front lf body (null ∷ []) lacks) refl

read_body-whole : (body : Text) → read_body (body ++ null ∷ []) ≡ body
unfolding read_body text_eq slice_last
read_body-whole [] = refl
read_body-whole (c ∷ []) = ground arith
read_body-whole (c ∷ d ∷ body) = ground (arith, slice_last-append (d ∷ body) null)

read_body-line : (line : Text) → line ≢ null ∷ [] → read_body line ≡ slice_last line
unfolding read_body
read_body-line line ne = ground (arith, text_eq_iff line (null ∷ []))

first_of_lines :
    (line rest : Text) → Lacks lf line → (split lf ((line ++ (lf ∷ rest)) ++ null ∷ [])).0 ≡ line
first_of_lines line rest lacks =
    rw (append_assoc line (lf ∷ rest) (null ∷ []), split-append lf line (rest ++ null ∷ []) lacks)
      refl

-- Reading what `marshall` wrote gives back the command, the headers in their order with the content
-- length behind them, and the body: for a command with no spaces around it, headers with distinct
-- names and no `content-length` whose names and values hold no line feed and no colon, and a
-- command and a body with no line feed.
pub unmarshall-marshall :
    (command : Text) (headers : Headers) (body : Text)
    → Lacks lf command
    → strip command ≡ command
    → Readable [] headers
    → has_header content_length headers ≡ false
    → Lacks lf body
    → unmarshall_single (marshall command headers body)
      ≡ frame (record { command = command; headers = with_length headers body; body = body })
unfolding read_body
unmarshall-marshall command headers body lc stripped h fresh lb =
    unmarshall_marshalled command headers body lc h fresh
    ∙ rw (stripped, first_line body lb, read_body-whole body) refl

-- A body of several lines loses all but its first line, and the last character of that one: for the
-- same commands and headers, and a first line that is not the null character alone.
pub unmarshall-marshall_lines :
    (command : Text) (headers : Headers) (line rest : Text)
    → Lacks lf command
    → Readable [] headers
    → has_header content_length headers ≡ false
    → Lacks lf line
    → line ≢ null ∷ []
    → unmarshall_single (marshall command headers (line ++ (lf ∷ rest)))
      ≡ frame (record {
        command = strip command;
        headers = with_length headers (line ++ (lf ∷ rest));
        body = slice_last line;
      })
unfolding read_body
unmarshall-marshall_lines command headers line rest lc h fresh ll ne =
    unmarshall_marshalled command headers (line ++ (lf ∷ rest)) lc h fresh
    ∙ rw (first_of_lines line rest ll, read_body-line line ne) refl

connected_frame :
    unmarshall_single
      (marshall (codes "CONNECTED") ((codes "version", some (codes "1.1")) ∷ []) (codes "hi"))
    ≡ frame (record {
      command = codes "CONNECTED";
      headers = (codes "version", some (codes "1.1")) ∷ (content_length, some (codes "2")) ∷ [];
      body = codes "hi";
    })
unfolding unmarshall_single marshall split strip text_eq digits slice_last
connected_frame = refl
