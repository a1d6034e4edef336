-- ===== src/Stomp/Client.antt =====
-- crates/oa-gateway-stomp/src/client.rs: the frames that the client sends, and `FrameReader`. What the
-- socket gives is a list of reads; at its end the socket is closed, and a read gives no byte.
use oa_gateway.Prelude.{
  ℕ, zero, suc, Bool, true, false, if◌then◌else◌, Option, none, some, List, [], ◌∷◌, ◌++◌,
}
use oa_gateway.Text.{Text, Bytes, codes, text_eq}
use oa_gateway.Text.Utf8.{is_utf8}
use oa_gateway.Stomp.Frame.{Frame, Header, new_frame, with_header, header}
use oa_gateway.Stomp.Decode.{Result, ok, err, io, decode_one_with_limit}

unfoldable pub subscribe_frame : Text → Text → Frame
unfolding with_header new_frame
subscribe_frame id destination = with_header (codes "ack") (codes "auto") (
    with_header (codes "destination") destination
      (with_header (codes "id") id (new_frame (codes "SUBSCRIBE"))))

unfoldable pub send_frame : Text → List Header → Bytes → Frame
unfolding with_header new_frame
send_frame destination headers body =
    let frame = with_header (codes "destination") destination (new_frame (codes "SEND")) in
    record frame { headers = frame.headers ++ headers; body = body }

unfoldable pub disconnect_frame : Frame
unfolding new_frame
disconnect_frame = new_frame (codes "DISCONNECT")

-- `connect`: the CONNECT frame; the passcode is sent with a login only.
abbrev with_passcode : Option Text → Frame → Frame
unfolding with_header
with_passcode none f = f
with_passcode (some passcode) f = with_header (codes "passcode") passcode f

unfoldable pub with_login : Option Text → Option Text → Frame → Frame
unfolding with_header with_passcode
with_login none passcode f = f
with_login (some login) passcode f = with_passcode passcode (with_header (codes "login") login f)

unfoldable pub connect_frame : Text → Option Text → Option Text → Frame
unfolding with_header new_frame with_login
connect_frame host login passcode = with_login login passcode (
    with_header (codes "heart-beat") (codes "0,0") (
      with_header (codes "host") host
        (with_header (codes "accept-version") (codes "1.2") (new_frame (codes "CONNECT")))))

-- The text of a broker's ERROR: its `message` header, else its body.
abbrev body_text : Text → Bool → Bytes → Text
body_text default true body = body
body_text default false body = default

abbrev message_or : Text → Option Text → Text
message_or other (some m) = m
message_or other none = other

unfoldable pub error_message : Text → Frame → Text
unfolding header
error_message default f =
    message_or (body_text default (is_utf8 f.body) f.body) (header (codes "message") f)

-- What `connect` makes of the first frame.
unfoldable pub connected : Option Frame → Result (Unit {0})
unfolding error_message
connected none = err (io (codes "broker closed during CONNECT"))
connected (some f) =
    if text_eq f.command (codes "CONNECTED")
    then ok tt
    else if text_eq f.command (codes "ERROR")
    then err (io (codes "STOMP ERROR: " ++ error_message (codes "ERROR") f))
    else err (io (codes "expected CONNECTED, got " ++ f.command))

pub data Read : Type 0 where
  bytes : Bytes → Read
  failed : Text → Read

-- One round of the loop of `recv`: its result, or the rest of the loop where the frame is incomplete.
abbrev pub taken :
    List Read
    → (Bytes → Bytes × List Read × Result (Option Frame))
    → Bytes × Result (Option Frame)
    → Bytes × List Read × Result (Option Frame)
taken reads more (left, err e) = (left, reads, err e)
taken reads more (left, ok (some f)) = (left, reads, ok (some f))
taken reads more (left, ok none) = more left

-- `FrameReader::recv`
unfoldable pub recv : ℕ → List Read → Bytes → Bytes × List Read × Result (Option Frame)
unfolding decode_one_with_limit
recv max [] buf = taken [] (λ left. (left, [], ok none)) (decode_one_with_limit max buf)
recv max (bytes [] ∷ reads) buf =
    taken (bytes [] ∷ reads) (λ left. (left, reads, ok none)) (decode_one_with_limit max buf)
recv max (bytes (c ∷ cs) ∷ reads) buf =
    taken (bytes (c ∷ cs) ∷ reads) (λ left. recv max reads (left ++ (c ∷ cs)))
      (decode_one_with_limit max buf)
recv max (failed e ∷ reads) buf =
    taken (failed e ∷ reads) (λ left. (left, reads, err (io e))) (decode_one_with_limit max buf)

abbrev pub onto_frames :
    Frame → Bytes × List Read × Result (List Frame) → Bytes × List Read × Result (List Frame)
onto_frames f (left, reads, ok fs) = (left, reads, ok (f ∷ fs))
onto_frames f (left, reads, err e) = (left, reads, err e)

abbrev pub and_then :
    (List Read → Bytes → Bytes × List Read × Result (List Frame))
    → Bytes × List Read × Result (Option Frame)
    → Bytes × List Read × Result (List Frame)
and_then more (left, reads, err e) = (left, reads, err e)
and_then more (left, reads, ok none) = (left, reads, ok [])
and_then more (left, reads, ok (some f)) = onto_frames f (more reads left)

-- A caller that receives at most so many frames, until the socket is closed or fails.
unfoldable pub recv_many : ℕ → ℕ → List Read → Bytes → Bytes × List Read × Result (List Frame)
unfolding recv
recv_many max zero reads buf = (buf, reads, ok [])
recv_many max (suc n) reads buf = and_then (recv_many max n) (recv max reads buf)
