-- ===== src/Stomp/Decode.antt =====
-- The decoder of crates/oa-gateway-stomp/src/codec.rs. A call takes the buffer and returns what is
-- left in it beside the result.
use oa_gateway.Prelude.{
  ℕ, suc, ◌+◌, ◌*◌, Bool, true, false, not, ◌&&◌, ◌||◌, Option, none, some, List, [], ◌∷◌, ◌++◌,
  length, ltb, leb, ◌==◌, if◌then◌else◌, take, drop, get_elem?, map, ◌-◌,
}
use oa_gateway.Text.{Text, Bytes, text_eq}
use oa_gateway.Text.Decimal.{parse_usize, usize_max}
use oa_gateway.Text.Utf8.{is_utf8}
use oa_gateway.Stomp.Frame.{Frame, Header, content_length}

-- `CodecError`; `io` carries the text of an `io::Error`.
pub data CodecError : Type 0 where
  not_utf8 missing_command bad_header bad_escape bad_content_length nul_in_headers : CodecError
  frame_too_large : ℕ → CodecError
  missing_null : CodecError
  io : Text → CodecError

pub data Result {ℓ} (A : Type ℓ) : Type ℓ where
  ok : A → Result A
  err : CodecError → Result A

infixl 5 ◌>>=◌
abbrev pub ◌>>=◌ {ℓ κ} : {A : Type ℓ} {B : Type κ} → Result A → (A → Result B) → Result B
ok a >>= f = f a
err e >>= f = err e

abbrev pub default_max_frame_size : ℕ
default_max_frame_size = 16 * 1024 * 1024

abbrev prepend : ℕ → Result Text → Result Text
prepend c r = do cs ← r; ok (c ∷ cs)

abbrev escaped : ℕ → Option ℕ
escaped c =
    if c == b'\\'
    then some b'\\'
    else if c == b'c'
    then some b':'
    else if c == b'n'
    then some b'\n'
    else if c == b'r'
    then some b'\r'
    else none

abbrev or_bad_escape : Option ℕ → Result Text → Result Text
or_bad_escape none r = err bad_escape
or_bad_escape (some c) r = prepend c r

-- `unescape_header`; the flag is that the last byte was an escaping backslash.
unescape_from : Bool → Text → Result Text
unescape_from false [] = ok []
unescape_from true [] = err bad_escape
unescape_from false (c ∷ cs) =
    let slashed = unescape_from true cs in
    let plain = unescape_from false cs in if c == b'\\' then slashed else prepend c plain
unescape_from true (c ∷ cs) = or_bad_escape (escaped c) (unescape_from false cs)

unfoldable pub unescape : Text → Result Text
unfolding unescape_from
unescape s = unescape_from false s

-- `\r\n\r\n`
abbrev pub is_crlf_crlf : Bytes → Bool
is_crlf_crlf (a ∷ b ∷ c ∷ d ∷ rest) = a == b'\r' && b == b'\n' && c == b'\r' && d == b'\n'
is_crlf_crlf _ = false

-- The loop of `find_header_end` at index `i`, over the bytes from there.
unfoldable pub find_header_end_from : ℕ → Bytes → Option ℕ
find_header_end_from i [] = none
find_header_end_from i (a ∷ []) = none
find_header_end_from i (a ∷ b ∷ rest) =
    let later = find_header_end_from (i + 1) (b ∷ rest) in
    if a == b'\n' && b == b'\n'
    then some (i + 2)
    else if is_crlf_crlf (a ∷ b ∷ rest)
    then some (i + 4)
    else later

unfoldable pub find_header_end : Bytes → Option ℕ
unfolding find_header_end_from
find_header_end buf = find_header_end_from 0 buf

-- `str::split`
abbrev onto_first : ℕ → List Text → List Text
onto_first c [] = (c ∷ []) ∷ []
onto_first c (l ∷ ls) = (c ∷ l) ∷ ls

unfoldable pub split : ℕ → Text → List Text
split sep [] = [] ∷ []
split sep (c ∷ cs) = let rest = split sep cs in if c == sep then [] ∷ rest else onto_first c rest

-- `trim_end_matches('\r')`
abbrev keep_unless_blank : ℕ → ℕ → Text → Text
keep_unless_blank sep c [] = if c == sep then [] else c ∷ []
keep_unless_blank sep c (x ∷ xs) = c ∷ x ∷ xs

unfoldable pub trim_end : ℕ → Text → Text
trim_end sep [] = []
trim_end sep (c ∷ cs) = keep_unless_blank sep c (trim_end sep cs)

-- `split_once`
abbrev onto_left : ℕ → Option (Text × Text) → Option (Text × Text)
onto_left c none = none
onto_left c (some (l, r)) = some (c ∷ l, r)

unfoldable pub split_once : ℕ → Text → Option (Text × Text)
split_once sep [] = none
split_once sep (c ∷ cs) =
    let rest = split_once sep cs in if c == sep then some ([], cs) else onto_left c rest

abbrev or_err {ℓ} : {A : Type ℓ} → Option A → CodecError → Result A
or_err none e = err e
or_err (some a) e = ok a

-- `content_length` after a header: replaced by a header of that name, which must be a number.
unfoldable pub read_length : Option ℕ → Text → Text → Result (Option ℕ)
read_length len name value =
    if text_eq name content_length
    then (do n ← or_err (parse_usize value) bad_content_length; ok (some n))
    else ok len

-- One line of the header block.
unfoldable pub parse_line : Text → Result Header
parse_line line = do
  (raw_name, raw_value) ← or_err (split_once b':' line) bad_header
  name ← unescape raw_name
  value ← unescape raw_value
  ok (name, value)

-- The loop over the header lines.
unfoldable pub parse_headers : List Header → Option ℕ → List Text → Result (List Header × Option ℕ)
parse_headers headers len [] = ok (headers, len)
parse_headers headers len ([] ∷ lines) = parse_headers headers len lines
parse_headers headers len ((c ∷ cs) ∷ lines) = parse_line (c ∷ cs) >>= λ (name, value).
    read_length len name value >>= λ len'. parse_headers (headers ++ (name, value) ∷ []) len' lines

-- What has been read of a frame before its body.
pub record Head : Type 0 where
  pub command : Text
  pub headers : List Header
  pub content_length : Option ℕ

abbrev parse_command : List Text → Result (Text × List Text)
parse_command [] = err missing_command
parse_command ([] ∷ lines) = err missing_command
parse_command ((c ∷ cs) ∷ lines) = ok (c ∷ cs, lines)

unfoldable pub has_nul : Bytes → Bool
has_nul [] = false
has_nul (c ∷ cs) = c == 0 || has_nul cs

abbrev pub refuse_if : Bool → CodecError → Result (Unit {0})
refuse_if true e = err e
refuse_if false e = ok tt

abbrev pub lines_of : Bytes → List Text
lines_of bytes = map (trim_end b'\r') (split b'\n' bytes)

-- The header block: `header_bytes` to `command` and `headers`.
unfoldable pub parse_head : Bytes → Result Head
parse_head bytes = refuse_if (has_nul bytes) nul_in_headers >>= λ _.
    refuse_if (not (is_utf8 bytes)) not_utf8 >>= λ _.
    parse_command (lines_of bytes) >>= λ (command, lines).
    parse_headers [] none lines >>= λ (headers, len).
    ok (record { command = command; headers = headers; content_length = len })

-- `iter().position(|&b| b == 0)`
abbrev shifted : Option ℕ → Option ℕ
shifted none = none
shifted (some n) = some (suc n)

unfoldable pub nul_position : Bytes → Option ℕ
nul_position [] = none
nul_position (c ∷ cs) = let rest = nul_position cs in if c == 0 then some 0 else shifted rest

abbrev nul_at : ℕ → Bytes → Result (Option (ℕ × ℕ))
nul_at stop buf = elim (get_elem? buf stop) [
  | none ↦ ok none
  | some b ↦ if b == 0 then ok (some (stop, stop + 1)) else err missing_null
]

-- `body_end` and `frame_end`; nothing where the frame is not complete yet.
unfoldable pub frame_bounds : ℕ → Bytes → ℕ → Option ℕ → Result (Option (ℕ × ℕ))
unfolding nul_position
frame_bounds max buf body_start (some len) =
    if ltb max len
    then err (frame_too_large max)
    else if ltb usize_max (body_start + len)
    then err (frame_too_large max)
    else if leb (length buf) (body_start + len)
    then ok none
    else nul_at (body_start + len) buf
frame_bounds max buf body_start none = elim (nul_position (drop body_start buf)) [
  | some rel ↦ ok (some (body_start + rel, body_start + rel + 1))
  | none ↦ if ltb max (length buf) then err (frame_too_large max) else ok none
]

-- The frame is cut out of the buffer: `buf[body_start..body_end]`, then `drain(..frame_end)`.
abbrev pub cut : Bytes → ℕ → Head → Result (Option (ℕ × ℕ)) → Bytes × Result (Option Frame)
cut buf body_start h (err e) = (buf, err e)
cut buf body_start h (ok none) = (buf, ok none)
cut buf body_start h (ok (some (body_end, frame_end))) = (
  drop frame_end buf,
  ok (
      some (record {
        command = h.command;
        headers = h.headers;
        body = take (body_end - body_start) (drop body_start buf);
      })),
)

abbrev pub with_head : ℕ → Bytes → ℕ → Result Head → Bytes × Result (Option Frame)
with_head max buf e (err x) = (buf, err x)
with_head max buf e (ok h) = cut buf e h (frame_bounds max buf e h.content_length)

abbrev pub with_header_end : ℕ → Bytes → Option ℕ → Bytes × Result (Option Frame)
with_header_end max buf none =
    (buf, if ltb max (length buf) then err (frame_too_large max) else ok none)
with_header_end max buf (some e) =
    if ltb max e
    then (buf, err (frame_too_large max))
    else with_head max buf e (parse_head (take e buf))

abbrev pub is_heartbeat : ℕ → Bool
is_heartbeat c = c == b'\n' || c == b'\r' || c == 0

-- Leading heartbeats are drained.
unfoldable pub skip_heartbeats : Bytes → Bytes
skip_heartbeats [] = []
skip_heartbeats (c ∷ cs) = let rest = skip_heartbeats cs in if is_heartbeat c then rest else c ∷ cs

-- The decoder on a buffer that does not begin with a heartbeat.
unfoldable pub decode_frame : ℕ → Bytes → Bytes × Result (Option Frame)
decode_frame max [] = ([], ok none)
decode_frame max (c ∷ cs) = with_header_end max (c ∷ cs) (find_header_end (c ∷ cs))

unfoldable pub decode_one_with_limit : ℕ → Bytes → Bytes × Result (Option Frame)
unfolding decode_frame skip_heartbeats
decode_one_with_limit max buf = decode_frame max (skip_heartbeats buf)

unfoldable pub decode_one : Bytes → Bytes × Result (Option Frame)
unfolding decode_one_with_limit
decode_one buf = decode_one_with_limit default_max_frame_size buf
