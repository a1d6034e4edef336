-- ===== src/Stomp/Limits.antt =====
-- What a peer can make the decoder of crates/oa-gateway-stomp/src/codec.rs hold, and its progress.
use oa_gateway.Prelude.{
  ℕ, zero, suc, ◌+◌, ◌-◌, ◌<◌, ◌≤◌, ◌≡◌, refl, Option, none, some, [], ◌∷◌, arith, ltb, length,
  take, drop, get_elem?, length-drop, length-take-le, Option-cases, Bool-cases, inl, inr,
}
use oa_gateway.Text.{Bytes}
use oa_gateway.Stomp.Frame.{Frame}
use oa_gateway.Stomp.Decode.{
  Result, ok, err, parse_head, Head, find_header_end, frame_bounds, nul_position, cut, decode_frame,
  skip_heartbeats, decode_one_with_limit, with_header_end, with_head,
}

get_elem?-none : (xs : Bytes) (i : ℕ) → get_elem? xs i ≡ none → length xs ≤ i
get_elem?-none [] i h = omega arith
get_elem?-none (x ∷ xs) zero h = ground arith
get_elem?-none (x ∷ xs) (suc i) h = omega (arith, get_elem?-none xs i h)

get_elem?-some : (xs : Bytes) (i : ℕ) {c : ℕ} → get_elem? xs i ≡ some c → i < length xs
get_elem?-some [] i h = ground arith
get_elem?-some (x ∷ xs) zero h = omega arith
get_elem?-some (x ∷ xs) (suc i) h = omega (arith, get_elem?-some xs i h)

nul_position_lt : (xs : Bytes) {n : ℕ} → nul_position xs ≡ some n → n < length xs
unfolding nul_position
nul_position_lt [] h = ground arith
nul_position_lt (x ∷ xs) {n} h = elim (Option-cases (nul_position xs)) [
  | inl e ↦ ground arith
  | inr (m, e) ↦ ground (arith, nul_position_lt xs {n = m} e)
]

frame_bounds_pending :
    (max : ℕ) (buf : Bytes) (e : ℕ) (len : Option ℕ)
    → e ≤ max
    → frame_bounds max buf e len ≡ ok none
    → length buf ≤ max + max
unfolding frame_bounds
frame_bounds_pending max buf e (some n) h k = ground (arith, get_elem?-none buf (e + n))
frame_bounds_pending max buf e none h k = ground arith

-- A complete frame lies within the buffer: the body starts behind the head and ends before the NUL.
frame_bounds_found :
    (max : ℕ) (buf : Bytes) (e : ℕ) (len : Option ℕ) {stop last : ℕ}
    → frame_bounds max buf e len ≡ ok (some (stop, last))
    → (e ≤ stop) × (last ≡ stop + 1) × (stop < length buf)
unfolding frame_bounds
frame_bounds_found max buf e (some n) k = elim (Option-cases (get_elem? buf (e + n))) [
  | inl x ↦ ground (arith, x)
  | inr (c, x) ↦ ground (arith, get_elem?-some buf (e + n) {c = c} x)
]
frame_bounds_found max buf e none k = elim (Option-cases (nul_position (drop e buf))) [
  | inl x ↦ ground (arith, x)
  | inr (m, x) ↦ ground (arith, nul_position_lt (drop e buf) {n = m} x, length-drop e buf)
]

cut_pending :
    (buf : Bytes) (e n : ℕ) (head : Head) (r : Result (Option (ℕ × ℕ))) {left : Bytes}
    → (r ≡ ok none → length buf ≤ n)
    → cut buf e head r ≡ (left, ok none)
    → length left ≤ n
cut_pending buf e n head (err x) f k = ground arith
cut_pending buf e n head (ok none) f k = ground (arith, f refl)
cut_pending buf e n head (ok (some (stop, last))) f k = ground arith

with_head_pending :
    (max : ℕ) (buf : Bytes) (e : ℕ) (r : Result Head) {left : Bytes}
    → e ≤ max
    → with_head max buf e r ≡ (left, ok none)
    → length left ≤ max + max
with_head_pending max buf e (err x) h k = ground arith
with_head_pending max buf e (ok head) h k =
    cut_pending buf e (max + max) head (frame_bounds max buf e head.content_length)
      (frame_bounds_pending max buf e head.content_length h) k

with_header_end_pending :
    (max : ℕ) (buf : Bytes) (end : Option ℕ) {left : Bytes}
    → with_header_end max buf end ≡ (left, ok none)
    → length left ≤ max + max
with_header_end_pending max buf none k = ground arith
with_header_end_pending max buf (some e) {left} k = elim (Bool-cases (ltb max e)) [
  | inl big ↦ ground arith
  | inr fits ↦ with_head_pending max buf e (parse_head (take e buf)) (ground arith) (rw fits at k)
]

decode_frame_pending :
    (max : ℕ) (buf : Bytes) {left : Bytes}
    → decode_frame max buf ≡ (left, ok none)
    → length left ≤ max + max
unfolding decode_frame
decode_frame_pending max [] k = ground arith
decode_frame_pending max (c ∷ cs) k =
    with_header_end_pending max (c ∷ cs) (find_header_end (c ∷ cs)) k

-- Where the decoder asks for more input, it holds at most twice the limit: a peer cannot make the
-- buffer grow by never ending a frame.
pub decode-pending :
    (max : ℕ) (buf : Bytes) {left : Bytes}
    → decode_one_with_limit max buf ≡ (left, ok none)
    → length left ≤ max + max
unfolding decode_one_with_limit
decode-pending max buf k = decode_frame_pending max (skip_heartbeats buf) k

cut_found :
    (max : ℕ) (buf : Bytes) (e : ℕ) (head : Head) (r : Result (Option (ℕ × ℕ))) {left : Bytes}
    {f : Frame}
    → ((stop last : ℕ)
        → r ≡ ok (some (stop, last))
        → (e ≤ stop) × (last ≡ stop + 1) × (stop < length buf))
    → cut buf e head r ≡ (left, ok (some f))
    → length f.body + length left < length buf
cut_found max buf e head (err x) inside k = ground arith
cut_found max buf e head (ok none) inside k = ground arith
cut_found max buf e head (ok (some (stop, last))) inside k = ground (
  arith,
  inside stop last refl,
  length-drop last buf,
  length-drop e buf,
  length-take-le (stop - e) (drop e buf),
)

with_header_end_found :
    (max : ℕ) (buf : Bytes) (end : Option ℕ) {left : Bytes} {f : Frame}
    → with_header_end max buf end ≡ (left, ok (some f))
    → length f.body + length left < length buf
with_header_end_found max buf none k = ground arith
with_header_end_found max buf (some e) {left} {f} k = elim (Bool-cases (ltb max e)) [
  | inl big ↦ ground arith
  | inr fits ↦ with_head_found (parse_head (take e buf)) (rw fits at k)
]
  where
    with_head_found :
        (r : Result Head)
        → with_head max buf e r ≡ (left, ok (some f))
        → length f.body + length left < length buf
    with_head_found (err x) h = ground arith
    with_head_found (ok head) h =
        cut_found max buf e head (frame_bounds max buf e head.content_length)
          (λ stop last x. frame_bounds_found max buf e head.content_length x) h

decode_frame_found :
    (max : ℕ) (buf : Bytes) {left : Bytes} {f : Frame}
    → decode_frame max buf ≡ (left, ok (some f))
    → length f.body + length left < length buf
unfolding decode_frame
decode_frame_found max [] k = ground arith
decode_frame_found max (c ∷ cs) k = with_header_end_found max (c ∷ cs) (find_header_end (c ∷ cs)) k

length-skip_heartbeats : (buf : Bytes) → length (skip_heartbeats buf) ≤ length buf
unfolding skip_heartbeats
length-skip_heartbeats [] = omega arith
length-skip_heartbeats (c ∷ cs) = ground (arith, length-skip_heartbeats cs)

-- A decoded frame takes its body and at least one byte more out of the buffer, so a loop that
-- decodes until nothing is complete ends.
pub decode-found :
    (max : ℕ) (buf : Bytes) {left : Bytes} {f : Frame}
    → decode_one_with_limit max buf ≡ (left, ok (some f))
    → length f.body + length left < length buf
unfolding decode_one_with_limit
decode-found max buf k =
    omega (arith, decode_frame_found max (skip_heartbeats buf) k, length-skip_heartbeats buf)
