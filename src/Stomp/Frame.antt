-- ===== src/Stomp/Frame.antt =====
-- `Frame` and its encoder in crates/oa-gateway-stomp/src/codec.rs.
use oa_gateway.Prelude.{
  ℕ, Bool, false, ◌||◌, Option, none, some, List, [], ◌∷◌, ◌++◌, length, ◌==◌, if◌then◌else◌,
}
use oa_gateway.Text.{Text, Bytes, codes, text_eq}
use oa_gateway.Text.Decimal.{print_usize}

abbrev pub Header : Type 0
Header = Text × Text

pub record Frame : Type 0 where
  pub command : Text
  pub headers : List Header
  pub body : Bytes

unfoldable pub new_frame : Text → Frame
new_frame command = record { command = command; headers = []; body = [] }

unfoldable pub with_header : Text → Text → Frame → Frame
with_header name value f = record f { headers = f.headers ++ (name, value) ∷ [] }

unfoldable pub with_body : Bytes → Frame → Frame
with_body body f = record f { body = body }

unfoldable pub find_header : Text → List Header → Option Text
find_header name [] = none
find_header name ((k, v) ∷ hs) = if text_eq k name then some v else find_header name hs

-- `Frame::header`
unfoldable pub header : Text → Frame → Option Text
unfolding find_header
header name f = find_header name f.headers

unfoldable pub escape_byte : ℕ → Text
escape_byte c =
    if c == b'\\'
    then b'\\' ∷ b'\\' ∷ []
    else if c == b':'
    then b'\\' ∷ b'c' ∷ []
    else if c == b'\n'
    then b'\\' ∷ b'n' ∷ []
    else if c == b'\r'
    then b'\\' ∷ b'r' ∷ []
    else c ∷ []

-- `escape_header`
unfoldable pub escape : Text → Text
unfolding escape_byte
escape [] = []
escape (c ∷ cs) = escape_byte c ++ escape cs

abbrev pub content_length : Text
content_length = codes "content-length"

-- One header as a line, with its line feed.
abbrev pub header_text : Header → Text
header_text (k, v) = escape k ++ (b':' ∷ escape v)

-- The header lines, each with its line feed.
unfoldable pub encode_headers : List Header → Text
encode_headers [] = []
encode_headers (h ∷ hs) = header_text h ++ (b'\n' ∷ encode_headers hs)

unfoldable pub has_length : List Header → Bool
has_length [] = false
has_length ((k, v) ∷ hs) = text_eq k content_length || has_length hs

-- The `content-length` line that is added where the headers do not name it.
unfoldable pub length_line : Frame → Text
unfolding has_length
length_line f =
    if has_length f.headers
    then []
    else (content_length ++ (b':' ∷ print_usize (length f.body))) ++ (b'\n' ∷ [])

-- Everything before the body: the command, the headers and the blank line.
unfoldable pub encode_head : Frame → Text
unfolding encode_headers length_line
encode_head f = f.command ++ (b'\n' ∷ (encode_headers f.headers ++ (length_line f ++ (b'\n' ∷ []))))

-- `Frame::encode`
unfoldable pub encode : Frame → Bytes
unfolding encode_head
encode f = encode_head f ++ (f.body ++ (0 ∷ []))
