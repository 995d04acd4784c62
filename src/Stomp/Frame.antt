-- ===== src/Stomp/Frame.antt =====
-- src/transport/stomp/stomp.frame.ts: frames of the broker's protocol, written and read.
pub mod Lines
pub mod RoundTrip
use lidofinance_lido_council.Shared.{
  ℕ, suc, String, Bool, true, false, ◌||◌, Option, none, some, List, [], ◌∷◌, ◌++◌, length, ◌==◌,
  if◌then◌else◌,
}
use lidofinance_lido_council.Outcome.{new_error, Failure}
use lidofinance_lido_council.Stomp.Text.{Text, codes, text_eq, split, slice_last, strip, digits}

-- The headers in the order in which they were set; `none` is `undefined`. The object of the source
-- keeps that order for names that are not numbers.
abbrev pub Headers : Type 0
Headers = List (Text × Option Text)

pub record StompFrame : Type 0 where
  pub command : Text
  pub headers : Headers
  pub body : Text

-- What `unmarshallSingle` throws: its own exception, or the TypeError of a missing line.
pub data FrameError : Type 0 where
  empty_frame type_error : FrameError

pub data Read : Type 0 where
  frame : StompFrame → Read
  failed : FrameError → Read

-- FRAME_BYTE, and the colon between a name and its value
abbrev pub lf : ℕ
lf = 10

abbrev pub null : ℕ
null = 0

abbrev pub colon : ℕ
colon = 58

abbrev pub content_length : Text
content_length = codes "content-length"

-- `headers[key] = value`
unfoldable pub set_header : Text → Option Text → Headers → Headers
set_header key value [] = (key, value) ∷ []
set_header key value ((k, v) ∷ headers) =
    if text_eq k key then (k, value) ∷ headers else (k, v) ∷ set_header key value headers

-- `headers[key]`
unfoldable pub get_header : Text → Headers → Option Text
get_header key [] = none
get_header key ((k, v) ∷ headers) = if text_eq k key then v else get_header key headers

unfoldable pub has_header : Text → Headers → Bool
has_header key [] = false
has_header key ((k, v) ∷ headers) = text_eq k key || has_header key headers

abbrev pub shown : Option Text → Text
shown none = codes "undefined"
shown (some value) = value

-- The header lines of `toString`, each with the line feed before it; a content length is left out.
unfoldable pub header_lines : Headers → Text
header_lines [] = []
header_lines ((key, value) ∷ headers) =
    let rest = header_lines headers in
    if text_eq key content_length then rest else lf ∷ key ++ (colon ∷ shown value ++ rest)

abbrev pub length_line : Headers → Text → Text
length_line headers body =
    if has_header content_length headers
    then []
    else lf ∷ content_length ++ (colon ∷ digits (length body))

unfoldable pub to_string : StompFrame → Text
unfolding header_lines has_header
to_string f =
    f.command ++ (header_lines f.headers ++ (length_line f.headers f.body ++ (lf ∷ lf ∷ f.body)))

unfoldable pub marshall : Text → Headers → Text → Text
unfolding to_string
marshall command headers body =
    to_string (record { command = command; headers = headers; body = body }) ++ null ∷ []

abbrev pub value_of : List Text → Option Text
value_of [] = none
value_of (value ∷ _) = some value

-- A header line: the text before the first colon, and the text between the first two.
unfoldable pub read_header : Text → Headers → Headers
unfolding set_header
read_header line headers =
    let (key, values) = split colon line in set_header key (value_of values) headers

-- `lines[i + 1] == NULL ? '' : lines[i + 1].slice(0, -1)`
unfoldable pub read_body : Text → Text
read_body line = if text_eq line (null ∷ []) then [] else slice_last line

-- The line after the empty one is the body.
abbrev pub with_body : Text → Headers → List Text → Read
with_body command headers [] = failed type_error
with_body command headers (line ∷ _) =
    frame (record { command = command; headers = headers; body = read_body line })

-- `while (lines[i] != '')`, and the body behind it
unfoldable pub read_lines : Text → Headers → List Text → Read
unfolding read_header read_body
read_lines command headers [] = failed type_error
read_lines command headers ([] ∷ lines) = with_body command headers lines
read_lines command headers ((c ∷ cs) ∷ lines) =
    read_lines command (read_header (c ∷ cs) headers) lines

unfoldable pub unmarshall_single : Text → Read
unfolding read_lines
unmarshall_single text =
    let (first, lines) = split lf text in
    if text_eq text (lf ∷ []) then failed empty_frame else read_lines (strip first) [] lines
