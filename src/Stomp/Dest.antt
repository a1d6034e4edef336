-- ===== src/Stomp/Dest.antt =====
-- `DestinationMap` in crates/oa-gateway-stomp/src/dest.rs: topics and STOMP destinations.
use oa_gateway.Prelude.{
  ℕ, ◌≡◌, ◌≢◌, ◌↔◌, refl, ap, ◌∙◌, sym, Bool, true, false, Option, none, some, [], ◌∷◌, ◌++◌, arith,
  ◌==◌, if◌then◌else◌, Bool-cases, inl, inr,
}
use oa_gateway.Text.{Text, codes}
use oa_gateway.Engine.Types.{RouteKey, topic_route, typed_route}

pub record DestinationMap : Type 0 where
  pub prefix : Text

-- `str::ends_with` for one byte.
unfoldable pub ends_with : ℕ → Text → Bool
ends_with c [] = false
ends_with c (x ∷ []) = x == c
ends_with c (x ∷ y ∷ ys) = ends_with c (y ∷ ys)

unfoldable pub new_map : Text → DestinationMap
unfolding ends_with
new_map prefix = record { prefix = if ends_with b'/' prefix then prefix else prefix ++ (b'/' ∷ []) }

abbrev pub default_map : DestinationMap
unfolding new_map
default_map = new_map (codes "/topic/")

-- `str::trim_start_matches` for one byte.
unfoldable pub trim_start_matches : ℕ → Text → Text
trim_start_matches c [] = []
trim_start_matches c (x ∷ xs) =
    let rest = trim_start_matches c xs in if x == c then rest else x ∷ xs

unfoldable pub to_stomp : DestinationMap → Text → Text
unfolding trim_start_matches
to_stomp m topic = m.prefix ++ trim_start_matches b'/' topic

-- `str::strip_prefix`
unfoldable pub strip_prefix : Text → Text → Option Text
strip_prefix [] s = some s
strip_prefix (p ∷ ps) [] = none
strip_prefix (p ∷ ps) (x ∷ xs) = let rest = strip_prefix ps xs in if x == p then rest else none

abbrev unless_empty : Option Text → Option Text
unless_empty (some (x ∷ xs)) = some (x ∷ xs)
unless_empty _ = none

unfoldable pub from_stomp : DestinationMap → Text → Option Text
unfolding strip_prefix
from_stomp m dest = unless_empty (strip_prefix m.prefix dest)

unfoldable pub inbound_route : Text → Option Text → RouteKey
inbound_route topic (some (c ∷ cs)) = typed_route topic (c ∷ cs)
inbound_route topic _ = topic_route topic

-- A topic that a destination can name: it is not empty and does not begin with a slash.
abbrev pub IsTopicName : Text → Type 0
IsTopicName [] = ⊥
IsTopicName (c ∷ cs) = c ≢ b'/'

strip_prefix-append : (p t : Text) → strip_prefix p (p ++ t) ≡ some t
unfolding strip_prefix
strip_prefix-append [] t = refl
strip_prefix-append (c ∷ cs) t = ground (arith, strip_prefix-append cs t)

strip_prefix-some : (p d : Text) {t : Text} → strip_prefix p d ≡ some t → p ++ t ≡ d
unfolding strip_prefix
strip_prefix-some [] d h = ground arith
strip_prefix-some (c ∷ cs) [] h = ground arith
strip_prefix-some (c ∷ cs) (x ∷ xs) {t} h = ground (arith, strip_prefix-some cs xs {t = t})

trim_topic : (t : Text) → IsTopicName t → trim_start_matches b'/' t ≡ t
unfolding trim_start_matches
trim_topic [] h = elim h [ ]
trim_topic (c ∷ cs) h = ground arith

unless_empty_topic : (t : Text) → IsTopicName t → unless_empty (some t) ≡ some t
unless_empty_topic [] h = elim h [ ]
unless_empty_topic (c ∷ cs) h = refl

unless_empty-some : (o : Option Text) {t : Text} → unless_empty o ≡ some t → o ≡ some t
unless_empty-some none h = ground arith
unless_empty-some (some []) h = ground arith
unless_empty-some (some (c ∷ cs)) h = h

-- For a topic that is not empty and does not begin with a slash, a destination is read as the topic
-- exactly where it is the destination that the topic is written as: the two directions are inverse.
pub from_stomp_iff :
    (m : DestinationMap) (dest topic : Text)
    → IsTopicName topic
    → (from_stomp m dest ≡ some topic) ↔ (to_stomp m topic ≡ dest)
unfolding from_stomp to_stomp
from_stomp_iff m dest topic h = (
  λ e.
      ap (λ t. m.prefix ++ t) (trim_topic topic h)
      ∙ strip_prefix-some m.prefix dest (unless_empty-some (strip_prefix m.prefix dest) e),
  λ e.
      rw (sym e, trim_topic topic h, strip_prefix-append m.prefix topic)
        (unless_empty_topic topic h),
)

ends_with-append : (s : Text) (c : ℕ) → ends_with c (s ++ (c ∷ [])) ≡ true
unfolding ends_with
ends_with-append [] c = ground arith
ends_with-append (x ∷ []) c = ground arith
ends_with-append (x ∷ y ∷ ys) c = ends_with-append (y ∷ ys) c

-- The prefix of a map ends in a slash, whatever it was built from.
pub ends_with-new_map : (prefix : Text) → ends_with b'/' (new_map prefix).prefix ≡ true
unfolding new_map
ends_with-new_map prefix = elim (Bool-cases (ends_with b'/' prefix)) [
  | inl y ↦ rw (y, y)
  | inr n ↦ rw n (ends_with-append prefix b'/')
]
