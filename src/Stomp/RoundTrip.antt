-- ===== src/Stomp/RoundTrip.antt =====
-- Decoding what was encoded, in crates/oa-gateway-stomp/src/codec.rs.
use oa_gateway.Prelude.{
  ℕ, ◌+◌, ◌-◌, ◌≤◌, ◌≡◌, ◌≢◌, refl, ap, ◌∙◌, sym, false, none, some, List, [], ◌∷◌, ◌++◌, arith,
  ltb, All, length, map, append_assoc, length-append, take-length-append, drop-length-append,
  get_elem?-length, take, drop, get_elem?,
}
use oa_gateway.Text.{Text, Bytes}
use oa_gateway.Text.Decimal.{usize_max}
use oa_gateway.Text.Utf8.{is_utf8_of}
use oa_gateway.Stomp.Frame.{Frame, header_text, encode_head, encode}
use oa_gateway.Stomp.Decode.{
  ok, ◌>>=◌, parse_head, has_nul, lines_of, parse_headers, find_header_end, frame_bounds,
  decode_frame, skip_heartbeats, decode_one_with_limit, with_header_end,
}
use oa_gateway.Stomp.Lines.{IsLine, unlines, lines_of-unlines, find_header_end_from-unlines}
use oa_gateway.Stomp.Headers.{
  wire_headers, encode_head-unlines, parse_headers-wire_headers, IsClear, IsClear-unlines,
  All-wire_headers, All-IsLine, IsEncodable, IsClear-append, IsClear-cons,
}

parse_head_of :
    (bytes command : Text) (lines : List Text) {c : ℕ} {cs : Text}
    → IsClear bytes
    → command ≡ c ∷ cs
    → lines_of bytes ≡ command ∷ lines
    → parse_head bytes ≡ (
        parse_headers [] none lines >>= λ (headers, len).
        ok (record { command = command; headers = headers; content_length = len }))
unfolding parse_head
parse_head_of bytes command lines {c} {cs} clear e h =
    rw (clear.no_nul, is_utf8_of bytes clear.utf8, h, e)

nonempty : (s : Text) → s ≢ [] → (c : ℕ) × (cs : Text) × (s ≡ c ∷ cs)
nonempty [] h = absurd (h refl)
nonempty (c ∷ cs) h = (c, cs, refl)

module _ (f : Frame) (v : IsEncodable f) where
  block : List Text
  block = f.command ∷ map header_text (wire_headers f)

  block-IsLine : All IsLine block
  unfolding block
  block-IsLine = (v.command_line, All-IsLine (wire_headers f))

  encode_head-IsClear : IsClear (encode_head f)
  encode_head-IsClear =
      rw (encode_head-unlines f, append_assoc f.command _ (b'\n' ∷ []))
        (IsClear-append f.command _ v.command_clear (
          IsClear-cons b'\n' _ (omega arith) (omega arith)
            (IsClear-unlines (wire_headers f) (All-wire_headers f v.headers_clear))))

  lines_of-encode_head :
      lines_of (encode_head f) ≡ f.command ∷ (map header_text (wire_headers f) ++ ([] ∷ [] ∷ []))
  unfolding block
  lines_of-encode_head = rw (encode_head-unlines f) (lines_of-unlines block block-IsLine)

  pub parse_head-encode_head :
      parse_head (encode_head f)
      ≡ ok (record {
        command = f.command;
        headers = wire_headers f;
        content_length = some (length f.body);
      })
  parse_head-encode_head =
      let (c, cs, e) = nonempty f.command v.command_line.0 in
      parse_head_of (encode_head f) f.command _ encode_head-IsClear e lines_of-encode_head
      ∙ rw (parse_headers-wire_headers f v.no_length v.body_fits)

  pub find_header_end-encode_head :
      (more : Bytes) → find_header_end (encode_head f ++ more) ≡ some (length (encode_head f))
  unfolding find_header_end block
  find_header_end-encode_head more =
      rw (encode_head-unlines f, append_assoc (unlines block) (b'\n' ∷ []) more)
        (find_header_end_from-unlines 0 f.command (map header_text (wire_headers f)) more
            v.command_line (All-IsLine (wire_headers f))
          ∙ ap some (omega (arith, length-append (unlines block) (b'\n' ∷ []))))

nul_behind :
    (head body rest : Bytes)
    → get_elem? (head ++ (body ++ (0 ∷ rest))) (length head + length body) ≡ some 0
nul_behind head body rest =
    ap (get_elem? (head ++ (body ++ (0 ∷ rest)))) (sym (length-append head body))
    ∙ ap (λ t. get_elem? t (length (head ++ body))) (sym (append_assoc head body (0 ∷ rest)))
    ∙ get_elem?-length (head ++ body) 0 rest

frame_bounds-encoded :
    (max : ℕ) (head body rest : Bytes)
    → length body ≤ max
    → length head + length body ≤ usize_max
    → frame_bounds max (head ++ (body ++ (0 ∷ rest))) (length head) (some (length body))
      ≡ ok (some (length head + length body, length head + length body + 1))
unfolding frame_bounds
frame_bounds-encoded max head body rest h k = ground (
  arith,
  length-append head (body ++ (0 ∷ rest)),
  length-append body (0 ∷ rest),
  nul_behind head body rest,
)

drop_frame :
    (head body rest : Bytes)
    → drop (length head + length body + 1) (head ++ (body ++ (0 ∷ rest))) ≡ rest
drop_frame head body rest =
    let whole = (head ++ body) ++ (0 ∷ []) in
    let regrouped : whole ++ rest ≡ head ++ (body ++ (0 ∷ rest)) =
      append_assoc (head ++ body) (0 ∷ []) rest ∙ append_assoc head body (0 ∷ rest) in
    ap (λ n. drop n (head ++ (body ++ (0 ∷ rest))))
      (omega (arith, length-append (head ++ body) (0 ∷ []), length-append head body))
    ∙ ap (drop (length whole)) (sym regrouped)
    ∙ drop-length-append whole rest

take_body :
    (head body rest : Bytes)
    → take
        (length head + length body - length head)
        (drop (length head) (head ++ (body ++ (0 ∷ rest))))
      ≡ body
take_body head body rest =
    ap (λ n. take n (drop (length head) (head ++ (body ++ (0 ∷ rest))))) (omega arith)
    ∙ ap (take (length body)) (drop-length-append head (body ++ (0 ∷ rest)))
    ∙ take-length-append body (0 ∷ rest)

-- The frame as it is read: its headers name the length of the body.
abbrev pub as_read : Frame → Frame
as_read f = record f { headers = wire_headers f }

skip_heartbeats_line :
    (l : Text) (more : Bytes) → IsLine l → IsClear l → skip_heartbeats (l ++ more) ≡ l ++ more
unfolding skip_heartbeats has_nul
skip_heartbeats_line [] more h k = absurd (h.0 refl)
skip_heartbeats_line (c ∷ cs) more h k = ground (arith, k.no_nul)

pub decode_frame_ne :
    (max : ℕ) (buf : Bytes)
    → buf ≢ []
    → decode_frame max buf ≡ with_header_end max buf (find_header_end buf)
unfolding decode_frame
decode_frame_ne max [] h = absurd (h refl)
decode_frame_ne max (c ∷ cs) h = refl

ne_of_append : (s t : Bytes) → s ≢ [] → s ++ t ≢ []
ne_of_append [] t h = absurd (h refl)
ne_of_append (c ∷ cs) t h = ground arith

leb_not : (a b : ℕ) → b ≤ a → ltb a b ≡ false
leb_not a b h = ground arith

module _ (max : ℕ) (f : Frame) (rest : Bytes) (v : IsEncodable f) where
  abbrev buffer : Bytes
  buffer = encode_head f ++ (f.body ++ (0 ∷ rest))

  buffer_begins : (t : Bytes) × (buffer ≡ f.command ++ t)
  unfolding encode_head
  buffer_begins = (_, append_assoc f.command _ (f.body ++ (0 ∷ rest)))

  decode_frame-encode :
      length (encode_head f) ≤ max
      → length f.body ≤ max
      → length (encode_head f) + length f.body ≤ usize_max
      → decode_frame max buffer ≡ (rest, ok (some (as_read f)))
  decode_frame-encode hh hb hs =
      decode_frame_ne max buffer (rw buffer_begins.1 (ne_of_append f.command _ v.command_line.0))
      ∙ ap (with_header_end max buffer) (find_header_end-encode_head f v (f.body ++ (0 ∷ rest)))
      ∙ rw (
        leb_not max (length (encode_head f)) hh,
        take-length-append (encode_head f) (f.body ++ (0 ∷ rest)),
        parse_head-encode_head f v,
        frame_bounds-encoded max (encode_head f) f.body rest hb hs,
        drop_frame (encode_head f) f.body rest,
        take_body (encode_head f) f.body rest,
      )

  skip_heartbeats-buffer : skip_heartbeats buffer ≡ buffer
  skip_heartbeats-buffer =
      let (t, e) = buffer_begins in
      rw e (skip_heartbeats_line f.command t v.command_line v.command_clear)

  -- An encodable frame whose header block and body keep to the limit, and whose sizes add up within
  -- `usize`, is read back from the front of the buffer, with the `content-length` header that `encode`
  -- added; what follows it stays.
  pub decode-encode :
      length (encode_head f) ≤ max
      → length f.body ≤ max
      → length (encode_head f) + length f.body ≤ usize_max
      → decode_one_with_limit max (encode f ++ rest) ≡ (rest, ok (some (as_read f)))
  unfolding decode_one_with_limit encode
  decode-encode hh hb hs =
      ap (λ b. decode_frame max (skip_heartbeats b))
        (append_assoc (encode_head f) (f.body ++ (0 ∷ [])) rest
          ∙ ap (λ b. encode_head f ++ b) (append_assoc f.body (0 ∷ []) rest))
      ∙ ap (decode_frame max) skip_heartbeats-buffer
      ∙ decode_frame-encode hh hb hs
