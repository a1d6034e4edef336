-- ===== src/Stomp/Reading.antt =====
-- `recv` of crates/oa-gateway-stomp/src/client.rs on reads that split what the broker sends.
use oa_gateway.Prelude.{
  ℕ, ◌+◌, ◌<◌, ◌≤◌, ◌≡◌, ◌≢◌, ◌⊎◌, inl, inr, refl, ap, ◌∙◌, sym, subst, true, false, none, some,
  List, [], ◌∷◌, ◌++◌, arith, ltb, All, length, map, append_assoc, append-nil, length-append,
  Option-cases, take-length-append,
}
use oa_gateway.Text.{Bytes}
use oa_gateway.Text.Decimal.{usize_max}
use oa_gateway.Stomp.Frame.{Frame, encode, encode_head}
use oa_gateway.Stomp.Decode.{
  Result, ok, err, find_header_end, find_header_end_from, is_crlf_crlf, frame_bounds, decode_frame,
  skip_heartbeats, decode_one_with_limit, with_header_end, has_nul, is_heartbeat,
}
use oa_gateway.Stomp.Headers.{IsEncodable}
use oa_gateway.Stomp.Lines.{IsLine}
use oa_gateway.Stomp.RoundTrip.{
  as_read, decode_frame_ne, decode-encode, find_header_end-encode_head, parse_head-encode_head,
}
use oa_gateway.Stomp.Client.{Read, bytes, taken, recv, recv_many, and_then, onto_frames}

-- Two ways to split one text: one of the first parts begins the other.
pub split_cases :
    (p q a b : Bytes)
    → p ++ q ≡ a ++ b
    → ((t : Bytes) × (p ≡ a ++ t) × (t ++ q ≡ b)) ⊎ ((c : ℕ) × (u : Bytes) × (a ≡ p ++ (c ∷ u)))
split_cases p q [] b e = inl (p, refl, e)
split_cases [] q (x ∷ xs) b e = inr (x, xs, refl)
split_cases (y ∷ ys) q (x ∷ xs) b e = elim (split_cases ys q xs b (ground (arith, e))) [
  | inl (t, h, k) ↦ inl (t, ground (arith, h, e), k)
  | inr (c, u, h) ↦ inr (c, u, ground (arith, h, e))
]

is_crlf_crlf-length : (xs : Bytes) → is_crlf_crlf xs ≡ true → 4 ≤ length xs
is_crlf_crlf-length [] h = ground arith
is_crlf_crlf-length (a ∷ []) h = ground arith
is_crlf_crlf-length (a ∷ b ∷ []) h = ground arith
is_crlf_crlf-length (a ∷ b ∷ c ∷ []) h = ground arith
is_crlf_crlf-length (a ∷ b ∷ c ∷ d ∷ xs) h = omega arith

-- The end of a header block lies within the buffer.
find_header_end_from-le :
    (i : ℕ) (xs : Bytes) {n : ℕ} → find_header_end_from i xs ≡ some n → n ≤ i + length xs
unfolding find_header_end_from
find_header_end_from-le i [] h = ground arith
find_header_end_from-le i (a ∷ []) h = ground arith
find_header_end_from-le i (a ∷ b ∷ xs) {n} h =
    ground
      (arith, is_crlf_crlf-length (a ∷ b ∷ xs), find_header_end_from-le (i + 1) (b ∷ xs) {n = n})

third_line_feed : (a b c : ℕ) (more : Bytes) → c ≡ b'\n' → is_crlf_crlf (a ∷ b ∷ c ∷ more) ≡ false
third_line_feed a b c [] h = refl
third_line_feed a b c (d ∷ more) h = ground arith

-- More input does not move an end that was found.
find_header_end_from-append :
    (i : ℕ) (xs more : Bytes) {n : ℕ}
    → find_header_end_from i xs ≡ some n
    → find_header_end_from i (xs ++ more) ≡ some n
unfolding find_header_end_from
find_header_end_from-append i [] more h = ground arith
find_header_end_from-append i (a ∷ []) more h = ground arith
find_header_end_from-append i (a ∷ b ∷ []) more h = ground arith
find_header_end_from-append i (a ∷ b ∷ c ∷ []) more {n} h =
    ground (arith, third_line_feed a b c more)
find_header_end_from-append i (a ∷ b ∷ c ∷ d ∷ xs) more {n} h =
    ground (arith, find_header_end_from-append (i + 1) (b ∷ c ∷ d ∷ xs) more {n = n})

frame_bounds_waiting :
    (max : ℕ) (head t : Bytes) (n : ℕ)
    → length t ≤ n
    → n ≤ max
    → length head + n ≤ usize_max
    → frame_bounds max (head ++ t) (length head) (some n) ≡ ok none
unfolding frame_bounds
frame_bounds_waiting max head t n h k l = ground (arith, length-append head t)

first_byte :
    (command t : Bytes) (d : ℕ) (r : Bytes)
    → IsLine command
    → has_nul command ≡ false
    → command ++ t ≡ d ∷ r
    → is_heartbeat d ≡ false
unfolding has_nul
first_byte [] t d r h k e = absurd (h.0 refl)
first_byte (b ∷ bs) t d r h k e = ground (arith, h.1.0, k)

ltb_not : (a b : ℕ) → b ≤ a → ltb a b ≡ false
ltb_not a b h = ground arith

skip_heartbeats_none :
    (c : ℕ) (cs : Bytes) → is_heartbeat c ≡ false → skip_heartbeats (c ∷ cs) ≡ c ∷ cs
unfolding skip_heartbeats
skip_heartbeats_none c cs h = rw h

module _ (max : ℕ) (f : Frame) (v : IsEncodable f) (hh : length (encode_head f) ≤ max)
    (hb : length f.body ≤ max) (hs : length (encode_head f) + length f.body ≤ usize_max) where
  -- A proper part of the header block shows no end of it.
  no_header_end :
      (p : Bytes) (c : ℕ) (u : Bytes) → encode_head f ≡ p ++ (c ∷ u) → find_header_end p ≡ none
  unfolding find_header_end
  no_header_end p c u e = elim (Option-cases (find_header_end_from 0 p)) [
    | inl missing ↦ missing
    | inr (n, found) ↦ absurd (
        too_long n (find_header_end_from-le 0 p found) (
          sym (find_header_end_from-append 0 p (c ∷ u) found)
          ∙ ap (find_header_end_from 0) (sym e ∙ sym (append-nil (encode_head f)))
          ∙ find_header_end-encode_head f v []))
  ]
    where
      too_long : (n : ℕ) → n ≤ 0 + length p → some n ≢ some (length (encode_head f))
      too_long n h k = ground (arith, ap (λ t. length t) e, length-append p (c ∷ u))

  -- The header block with a part of the body is waited on.
  body_part :
      (t : Bytes)
      → length t ≤ length f.body
      → with_header_end max (encode_head f ++ t) (find_header_end (encode_head f ++ t))
        ≡ (encode_head f ++ t, ok none)
  body_part t h =
      ap (with_header_end max (encode_head f ++ t)) (find_header_end-encode_head f v t)
      ∙ rw (
        ltb_not max (length (encode_head f)) hh,
        take-length-append (encode_head f) t,
        parse_head-encode_head f v,
        frame_bounds_waiting max (encode_head f) t (length f.body) h hb hs,
      )

  -- A proper part of an encoded frame is waited on.
  decode_frame_part :
      (p : Bytes) (c : ℕ) (u : Bytes)
      → p ≢ []
      → encode f ≡ p ++ (c ∷ u)
      → decode_frame max p ≡ (p, ok none)
  unfolding encode
  decode_frame_part p c u ne e =
      decode_frame_ne max p ne
      ∙ elim (split_cases p (c ∷ u) (encode_head f) (f.body ++ (0 ∷ [])) (sym e)) [
        | inl (t, whole, rest) ↦
            subst (λ b. with_header_end max b (find_header_end b) ≡ (b, ok none)) (sym whole)
              (body_part t (shorter t rest))
        | inr (d, w, part) ↦ rw (no_header_end p d w part, ltb_not max (length p) (within d w part))
      ]
    where
      shorter : (t : Bytes) → t ++ (c ∷ u) ≡ f.body ++ (0 ∷ []) → length t ≤ length f.body
      shorter t h =
          omega
            (arith, ap (λ b. length b) h, length-append t (c ∷ u), length-append f.body (0 ∷ []))

      within : (d : ℕ) (w : Bytes) → encode_head f ≡ p ++ (d ∷ w) → length p ≤ max
      within d w h = omega (arith, hh, ap (λ b. length b) h, length-append p (d ∷ w))

  begins : (d : ℕ) (r : Bytes) → encode f ≡ d ∷ r → is_heartbeat d ≡ false
  unfolding encode encode_head
  begins d r e =
      first_byte f.command _ d r v.command_line v.command_clear.no_nul
        (sym (append_assoc f.command _ (f.body ++ (0 ∷ []))) ∙ e)

  -- What has been read of a frame is its part, and is kept, or holds it whole.
  decode_part :
      (p q rest : Bytes)
      → p ++ q ≡ encode f ++ rest
      → ((decode_one_with_limit max p ≡ (p, ok none)) × (length p < length (encode f)))
        ⊎ ((left : Bytes) × (decode_one_with_limit max p ≡ (left, ok (some (as_read f))))
            × (left ++ q ≡ rest))
  unfolding decode_one_with_limit decode_frame skip_heartbeats
  decode_part p q rest e = elim (split_cases p q (encode f) rest e) [
    | inl (t, whole, more) ↦
        inr (t, ap (decode_one_with_limit max) whole ∙ decode-encode max f t v hh hb hs, more)
    | inr (c, u, part) ↦
        inl (waits p c u part, omega (arith, ap (λ b. length b) part, length-append p (c ∷ u)))
  ]
    where
      waits :
          (p : Bytes) (c : ℕ) (u : Bytes)
          → encode f ≡ p ++ (c ∷ u)
          → decode_frame max (skip_heartbeats p) ≡ (p, ok none)
      waits [] c u h = refl
      waits (d ∷ p) c u h =
          ap (decode_frame max) (skip_heartbeats_none d p (begins d (p ++ (c ∷ u)) h))
          ∙ decode_frame_part (d ∷ p) c u (ground arith) h

abbrev pub concat : List Bytes → Bytes
concat [] = []
concat (b ∷ bs) = b ++ concat bs

abbrev pub NonEmpty : List Bytes → Type 0
NonEmpty chunks = All (λ b. b ≢ []) chunks

-- A frame that a reader with this limit takes.
pub record IsSendable (max : ℕ) (f : Frame) : Type 0 where
  pub encodable : IsEncodable f
  pub head_fits : length (encode_head f) ≤ max
  pub body_fits : length f.body ≤ max
  pub size_fits : length (encode_head f) + length f.body ≤ usize_max

-- The reads hold the frame, and what they hold behind it is left for the next one.
abbrev pub IsReceived : ℕ → Frame → List Bytes → Bytes → Bytes → Type 0
IsReceived max f chunks buf rest =
    (left : Bytes) × (later : List Bytes) × (recv max (map bytes chunks) buf
      ≡ (left, map bytes later, ok (some (as_read f))))
    × (left ++ concat later ≡ rest)
    × NonEmpty later

shorter_than_whole :
    (buf whole rest : Bytes) → buf ++ [] ≡ whole ++ rest → length buf < length whole → ⊥
shorter_than_whole buf whole rest e h =
    ground (arith, ap (λ b. length b) e, length-append buf [], length-append whole rest)

-- A frame that is sent arrives, however the socket splits it and what follows it into reads.
pub recv-encode :
    (max : ℕ) (f : Frame) (chunks : List Bytes) (buf rest : Bytes)
    → IsSendable max f
    → NonEmpty chunks
    → buf ++ concat chunks ≡ encode f ++ rest
    → IsReceived max f chunks buf rest
unfolding recv
recv-encode max f [] buf rest v n e =
    elim (decode_part max f v.encodable v.head_fits v.body_fits v.size_fits buf [] rest e) [
      | inl (waits, short) ↦ absurd (shorter_than_whole buf (encode f) rest e short)
      | inr (left, found, more) ↦
          (left, [], ap (taken [] (λ left. (left, [], ok none))) found, more, tt)
    ]
recv-encode max f ([] ∷ chunks) buf rest v n e = absurd (n.0 refl)
recv-encode max f ((c ∷ cs) ∷ chunks) buf rest v n e =
    elim (decode_part max f v.encodable v.head_fits v.body_fits v.size_fits buf
      ((c ∷ cs) ++ concat chunks) rest e) [
        | inl (waits, short) ↦
            let (left, later, received, more, ns) =
              recv-encode max f chunks (buf ++ (c ∷ cs)) rest v n.1
                (append_assoc buf (c ∷ cs) (concat chunks) ∙ e) in
            (
              left,
              later,
              ap
                    (taken (bytes (c ∷ cs) ∷ map bytes chunks)
                      (λ left. recv max (map bytes chunks) (left ++ (c ∷ cs))))
                    waits
                  ∙ received,
              more,
              ns,
            )
        | inr (left, found, more) ↦ (
          left,
          (c ∷ cs) ∷ chunks,
          ap
              (taken (bytes (c ∷ cs) ∷ map bytes chunks)
                (λ left. recv max (map bytes chunks) (left ++ (c ∷ cs))))
              found,
          more,
          n,
        )
      ]

abbrev pub encode_all : List Frame → Bytes
encode_all [] = []
encode_all (f ∷ fs) = encode f ++ encode_all fs

onto_frames_ok :
    (f : Frame) (r : Bytes × List Read × Result (List Frame)) {fs : List Frame}
    → r.2 ≡ ok fs
    → (onto_frames f r).2 ≡ ok (f ∷ fs)
onto_frames_ok f (left, reads, ok fs) h = ground arith
onto_frames_ok f (left, reads, err e) h = ground arith

recv_many_from :
    (max : ℕ) (fs : List Frame) (chunks : List Bytes) (buf rest : Bytes)
    → All (IsSendable max) fs
    → NonEmpty chunks
    → buf ++ concat chunks ≡ encode_all fs ++ rest
    → (recv_many max (length fs) (map bytes chunks) buf).2 ≡ ok (map as_read fs)
unfolding recv_many
recv_many_from max [] chunks buf rest v n e = refl
recv_many_from max (f ∷ fs) chunks buf rest v n e =
    let (left, later, received, more, ns) =
      recv-encode max f chunks buf (encode_all fs ++ rest) v.0 n
        (e ∙ append_assoc (encode f) (encode_all fs) rest) in
    ap (λ r. (and_then (recv_many max (length fs)) r).2) received
    ∙ onto_frames_ok (as_read f) (recv_many max (length fs) (map bytes later) left)
        (recv_many_from max fs later left rest v.1 ns more)

-- Frames that can be encoded, have no content-length of their own, and keep to the limit and to usize,
-- are received in the order in which they are written one after the other, each with the
-- content-length that the encoder adds, however the socket splits them into reads that are not empty.
pub recv_many-encode_all :
    (max : ℕ) (fs : List Frame) (chunks : List Bytes) (rest : Bytes)
    → All (IsSendable max) fs
    → NonEmpty chunks
    → concat chunks ≡ encode_all fs ++ rest
    → (recv_many max (length fs) (map bytes chunks) []).2 ≡ ok (map as_read fs)
recv_many-encode_all max fs chunks rest v n e = recv_many_from max fs chunks [] rest v n e
