-- ===== src/Stomp/Headers.antt =====
-- The header block of an encoded frame is read back: crates/oa-gateway-stomp/src/codec.rs.
use oa_gateway.Prelude.{
  ℕ, ◌<◌, ◌≤◌, ◌≡◌, ◌≢◌, refl, ap, ◌∙◌, sym, true, false, Option, none, some, List, [], ◌∷◌, ◌++◌,
  arith, if◌then◌else◌, All, length, map, append_assoc, map-append, append-nil, Bool-cases, inl,
  inr,
}
use oa_gateway.Text.{Text, text_eq, text_eq_iff}
use oa_gateway.Text.Decimal.{
  print_usize, parse_usize-print_usize, print_usize-IsNumber, usize_max, is_digit,
}
use oa_gateway.Text.Utf8.{IsUtf8, IsUtf8-append, IsUtf8-cons, is_utf8}
use oa_gateway.Stomp.Frame.{
  Frame, Header, escape, header_text, content_length, encode_headers, encode_head, length_line,
  has_length,
}
use oa_gateway.Stomp.Decode.{ok, ◌>>=◌, split_once, parse_line, parse_headers, read_length, has_nul}
use oa_gateway.Stomp.Escape.{
  unescape-escape, IsClean, escape-IsClean, escape_digits, has_nul-append, has_nul-escape,
  IsUtf8-escape,
}
use oa_gateway.Stomp.Lines.{IsLine, HasNoBreak, unlines}

split_once-clean : (s t : Text) → IsClean s → split_once b':' (s ++ (b':' ∷ t)) ≡ some (s, t)
unfolding split_once
split_once-clean [] t h = refl
split_once-clean (c ∷ cs) t h = ground (arith, split_once-clean cs t h.1)

pub parse_line-header_text : (h : Header) → parse_line (header_text h) ≡ ok h
unfolding parse_line
parse_line-header_text (k, v) = rw (
  split_once-clean (escape k) (escape v) (escape-IsClean k),
  unescape-escape k,
  unescape-escape v,
)

HasNoBreak-of_clean : (s t : Text) → IsClean s → HasNoBreak t → HasNoBreak (s ++ t)
HasNoBreak-of_clean [] t h k = k
HasNoBreak-of_clean (c ∷ cs) t h k = ((h.0.1, h.0.2), HasNoBreak-of_clean cs t h.1 k)

pub header_text-IsLine : (h : Header) → IsLine (header_text h)
header_text-IsLine (k, v) = (
  nonempty (escape k),
  HasNoBreak-of_clean (escape k) (b':' ∷ escape v) (escape-IsClean k) (
    (omega arith, omega arith),
    rw (← append-nil (escape v)) (HasNoBreak-of_clean (escape v) [] (escape-IsClean v) tt),
  ),
)
  where
    nonempty : (s : Text) → s ++ (b':' ∷ escape v) ≢ []
    nonempty [] = ground arith
    nonempty (c ∷ cs) = ground arith

-- The headers of the frame on the wire.
abbrev pub wire_headers : Frame → List Header
wire_headers f =
    if has_length f.headers
    then f.headers
    else f.headers ++ (content_length, print_usize (length f.body)) ∷ []

encode_headers-unlines : (hs : List Header) → encode_headers hs ≡ unlines (map header_text hs)
unfolding encode_headers
encode_headers-unlines [] = refl
encode_headers-unlines (h ∷ hs) = ap (λ t. header_text h ++ (b'\n' ∷ t)) (encode_headers-unlines hs)

unlines-concat :
    (hs : List Header) (h : Header) (t : Text)
    → unlines (map header_text hs) ++ ((header_text h ++ (b'\n' ∷ [])) ++ t)
      ≡ unlines (map header_text (hs ++ h ∷ [])) ++ t
unlines-concat [] h t = refl
unlines-concat (g ∷ hs) h t =
    append_assoc (header_text g) (b'\n' ∷ unlines (map header_text hs)) _
    ∙ ap (λ u. header_text g ++ (b'\n' ∷ u)) (unlines-concat hs h t)
    ∙ sym (append_assoc (header_text g) (b'\n' ∷ unlines (map header_text (hs ++ h ∷ []))) t)

length_header_text :
    (n : ℕ) → header_text (content_length, print_usize n) ≡ content_length ++ (b':' ∷ print_usize n)
unfolding escape
length_header_text n =
    ap (λ t. content_length ++ (b':' ∷ t))
      (escape_digits (print_usize n) (print_usize-IsNumber n).1)

-- What is encoded before the body is a block of lines and a blank line.
pub encode_head-unlines :
    (f : Frame)
    → encode_head f ≡ unlines (f.command ∷ map header_text (wire_headers f)) ++ (b'\n' ∷ [])
unfolding encode_head
encode_head-unlines f = elim (Bool-cases (has_length f.headers)) [
  | inl given ↦
      rw (given, encode_headers-unlines f.headers, length_line)
        (sym (append_assoc f.command _ (b'\n' ∷ [])))
  | inr added ↦
      rw (added, encode_headers-unlines f.headers, length_line)
        (ap
            (λ u.
              f.command
              ++ (b'\n'
                  ∷ (unlines (map header_text f.headers) ++ ((u ++ (b'\n' ∷ [])) ++ (b'\n' ∷ [])))))
            (sym (length_header_text (length f.body)))
          ∙ ap (λ t. f.command ++ (b'\n' ∷ t))
              (unlines-concat f.headers (content_length, print_usize (length f.body)) (b'\n' ∷ []))
          ∙ sym (append_assoc f.command _ (b'\n' ∷ [])))
]

parse_headers_line :
    (acc : List Header) (len : Option ℕ) (l : Text) (ls : List Text)
    → l ≢ []
    → parse_headers acc len (l ∷ ls) ≡ (
        parse_line l >>= λ (name, value).
        read_length len name value >>= λ len'. parse_headers (acc ++ (name, value) ∷ []) len' ls)
unfolding parse_headers
parse_headers_line acc len [] ls h = absurd (h refl)
parse_headers_line acc len (c ∷ cs) ls h = refl

parse_headers_header :
    (acc : List Header) (len : Option ℕ) (h : Header) (ls : List Text)
    → parse_headers acc len (header_text h ∷ ls)
      ≡ (read_length len h.0 h.1 >>= λ len'. parse_headers (acc ++ h ∷ []) len' ls)
parse_headers_header acc len h ls = rw (
  parse_headers_line acc len (header_text h) ls (header_text-IsLine h).0,
  parse_line-header_text h,
)

read_length_other :
    (len : Option ℕ) (name value : Text)
    → text_eq name content_length ≡ false
    → read_length len name value ≡ ok len
unfolding read_length
read_length_other len name value h = rw h

read_length_printed :
    (len : Option ℕ) (n : ℕ)
    → n ≤ usize_max
    → read_length len content_length (print_usize n) ≡ ok (some n)
unfolding read_length
read_length_printed len n h =
    rw ((text_eq_iff content_length content_length).1 refl, parse_usize-print_usize n h)

-- Headers that do not name the length are read back and leave it.
parse_headers-plain :
    (acc : List Header) (len : Option ℕ) (hs : List Header) (ls : List Text)
    → has_length hs ≡ false
    → parse_headers acc len (map header_text hs ++ ls) ≡ parse_headers (acc ++ hs) len ls
unfolding has_length
parse_headers-plain acc len [] ls n = rw (append-nil acc)
parse_headers-plain acc len (h ∷ hs) ls n =
    parse_headers_header acc len h (map header_text hs ++ ls)
    ∙ rw (read_length_other len h.0 h.1 (ground arith)) (
        parse_headers-plain (acc ++ h ∷ []) len hs ls (ground arith)
        ∙ ap (λ a. parse_headers a len ls) (append_assoc acc (h ∷ []) hs))

parse_headers_blank :
    (acc : List Header) (len : Option ℕ) → parse_headers acc len ([] ∷ [] ∷ []) ≡ ok (acc, len)
unfolding parse_headers
parse_headers_blank acc len = refl

-- The headers that `encode` writes are read back, with the length of the body.
pub parse_headers-wire_headers :
    (f : Frame)
    → has_length f.headers ≡ false
    → length f.body ≤ usize_max
    → parse_headers [] none (map header_text (wire_headers f) ++ ([] ∷ [] ∷ []))
      ≡ ok (wire_headers f, some (length f.body))
parse_headers-wire_headers f n h =
    let last : Header = (content_length, print_usize (length f.body)) in
    rw
      (
        n,
        map-append header_text f.headers (last ∷ []),
        append_assoc (map header_text f.headers) (header_text last ∷ []) ([] ∷ [] ∷ []),
      )
      (parse_headers-plain [] none f.headers (header_text last ∷ [] ∷ [] ∷ []) n
        ∙ parse_headers_header f.headers none last ([] ∷ [] ∷ [])
        ∙ rw (read_length_printed none (length f.body) h)
            (parse_headers_blank (f.headers ++ last ∷ []) _))

-- A text that can stand in a header block: UTF-8 without a NUL.
pub record IsClear (s : Text) : Type 0 where
  pub utf8 : IsUtf8 s
  pub no_nul : has_nul s ≡ false

pub IsClear-append : (s t : Text) → IsClear s → IsClear t → IsClear (s ++ t)
IsClear-append s t h k = record {
  utf8 = IsUtf8-append s t h.utf8 k.utf8;
  no_nul = has_nul-append s t ∙ ground (arith, h.no_nul, k.no_nul);
}

pub IsClear-cons : (c : ℕ) (s : Text) → 0 < c → c < 0x80 → IsClear s → IsClear (c ∷ s)
unfolding has_nul
IsClear-cons c s p q h = record {
  utf8 = IsUtf8-cons c s q h.utf8;
  no_nul = ground (arith, h.no_nul);
}

IsClear-nil : IsClear []
unfolding has_nul is_utf8
IsClear-nil = record { utf8 = refl; no_nul = refl }

IsClear-digits : (s : Text) → All (λ c. is_digit c ≡ true) s → IsClear s
unfolding is_digit
IsClear-digits [] h = IsClear-nil
IsClear-digits (c ∷ cs) h = IsClear-cons c cs (ground arith) (ground arith) (IsClear-digits cs h.1)

IsClear-escape : (s : Text) → IsClear s → IsClear (escape s)
IsClear-escape s h = record { utf8 = IsUtf8-escape s h.utf8; no_nul = has_nul-escape s ∙ h.no_nul }

abbrev pub IsClearHeader : Header → Type 0
IsClearHeader h = IsClear h.0 × IsClear h.1

IsClear-header_text : (h : Header) → IsClearHeader h → IsClear (header_text h)
IsClear-header_text (k, v) h =
    IsClear-append (escape k) (b':' ∷ escape v) (IsClear-escape k h.0)
      (IsClear-cons b':' (escape v) (omega arith) (omega arith) (IsClear-escape v h.1))

IsClear-content_length : IsClear content_length
unfolding has_nul is_utf8
IsClear-content_length = record { utf8 = refl; no_nul = refl }

pub All-wire_headers :
    (f : Frame) → All IsClearHeader f.headers → All IsClearHeader (wire_headers f)
All-wire_headers f h = elim (Bool-cases (has_length f.headers)) [
  | inl given ↦ rw given h
  | inr added ↦ rw added (All-concat f.headers h)
]
  where
    last : IsClearHeader (content_length, print_usize (length f.body))
    last = (IsClear-content_length, IsClear-digits _ (print_usize-IsNumber (length f.body)).1)

    All-concat :
        (hs : List Header)
        → All IsClearHeader hs
        → All IsClearHeader (hs ++ (content_length, print_usize (length f.body)) ∷ [])
    All-concat [] _ = (last, tt)
    All-concat (x ∷ xs) (p, q) = (p, All-concat xs q)

pub IsClear-unlines :
    (hs : List Header)
    → All IsClearHeader hs
    → IsClear (unlines (map header_text hs) ++ (b'\n' ∷ []))
IsClear-unlines [] h = IsClear-cons b'\n' [] (omega arith) (omega arith) IsClear-nil
IsClear-unlines (x ∷ xs) h =
    rw (append_assoc (header_text x) (b'\n' ∷ unlines (map header_text xs)) (b'\n' ∷ [])) (
      IsClear-append (header_text x) _ (IsClear-header_text x h.0)
        (IsClear-cons b'\n' _ (omega arith) (omega arith) (IsClear-unlines xs h.1)))

pub All-IsLine : (hs : List Header) → All IsLine (map header_text hs)
All-IsLine [] = tt
All-IsLine (h ∷ hs) = (header_text-IsLine h, All-IsLine hs)

-- A frame that the wire format can carry.
pub record IsEncodable (f : Frame) : Type 0 where
  pub command_line : IsLine f.command
  pub command_clear : IsClear f.command
  pub headers_clear : All IsClearHeader f.headers
  pub no_length : has_length f.headers ≡ false
  pub body_fits : length f.body ≤ usize_max
