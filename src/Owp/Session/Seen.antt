-- ===== src/Owp/Session/Seen.antt =====
-- The trackers of reported routes in crates/oa-gateway-owp/src/session.rs.
use oa_gateway.Prelude.{
  ℕ, List, [], ◌∷◌, suc, ◌≡◌, ◌≤◌, ◌<◌, ◌⊎◌, inl, inr, refl, ◌∙◌, true, false, ◌||◌, arith, length,
  leb, ◌==◌, Bool-cases,
}
use oa_gateway.Map.{Set, contains, set_insert, contains-set_insert}
use oa_gateway.Engine.Types.{RouteKey, route_Eq, route_eq_iff}
use oa_gateway.Owp.Session.{Report, fresh, final, skip, report, cap}

length-set_insert_new :
    (r : RouteKey) (seen : Set RouteKey)
    → contains r seen ≡ false
    → length (set_insert r seen) ≡ suc (length seen)
unfolding set_insert
length-set_insert_new r seen h = rw h

contains_reported : (r : RouteKey) (seen : Set RouteKey) → contains r (set_insert r seen) ≡ true
contains_reported r seen = ground (arith, contains-set_insert r r seen, route_eq_iff r r)

abbrev IsNew : RouteKey → Set RouteKey → Set RouteKey → Type 0
IsNew route seen later = (contains route seen ≡ false) × (length later ≡ suc (length seen))

-- What each answer says of the tracker before and after it.
abbrev pub IsAnswer : RouteKey → Set RouteKey → Set RouteKey → Report → Type 0
IsAnswer route seen later skip =
    (later ≡ seen) × ((contains route seen ≡ true) ⊎ (length seen ≡ cap))
IsAnswer route seen later fresh = IsNew route seen later × (length later < cap)
IsAnswer route seen later final = IsNew route seen later × (length later ≡ cap)

leb_below : (n : ℕ) → n < cap → leb cap n ≡ false
leb_below n h = ground arith

differs : (n : ℕ) → n < cap → (n == cap) ≡ false
differs n h = ground arith

room : (n : ℕ) → n ≤ cap → (n ≡ cap) ⊎ ((suc n ≡ cap) ⊎ (suc n < cap))
room n h = omega arith

report_known :
    (route : RouteKey) (seen : Set RouteKey)
    → (leb cap (length seen) || contains route seen) ≡ true
    → report route seen ≡ (seen, skip)
unfolding report
report_known route seen h = rw h

report_full :
    (route : RouteKey) (seen : Set RouteKey)
    → suc (length seen) ≡ cap
    → contains route seen ≡ false
    → report route seen ≡ (set_insert route seen, final)
unfolding report
report_full route seen h k =
    let n = length-set_insert_new route seen k in
    rw (k, n, h, leb_below (length seen) (omega (arith, h)))

report_room :
    (route : RouteKey) (seen : Set RouteKey)
    → suc (length seen) < cap
    → contains route seen ≡ false
    → report route seen ≡ (set_insert route seen, fresh)
unfolding report
report_room route seen h k =
    let n = length-set_insert_new route seen k in
    rw (k, leb_below (length seen) (omega (arith, h)), n, differs (suc (length seen)) h)

-- The tracker after a sequence of reports.
unfoldable pub after_reports : List RouteKey → Set RouteKey → Set RouteKey
unfolding report
after_reports [] seen = seen
after_reports (r ∷ rs) seen = after_reports rs (report r seen).0

-- A route that is known, or a tracker that is full.
abbrev IsSettled : RouteKey → Set RouteKey → Type 0
IsSettled route seen = (leb cap (length seen) || contains route seen) ≡ true

report_new :
    (r : RouteKey) (seen : Set RouteKey)
    → (leb cap (length seen) || contains r seen) ≡ false
    → (report r seen).0 ≡ set_insert r seen
unfolding report
report_new r seen h = rw h refl

report-IsSettled :
    (route r : RouteKey) (seen : Set RouteKey)
    → IsSettled route seen
    → IsSettled route (report r seen).0
report-IsSettled route r seen h = elim (Bool-cases (leb cap (length seen) || contains r seen)) [
  | inl known ↦ rw (report_known r seen known) h
  | inr new ↦ rw (report_new r seen new) (ground (arith, h, new, contains-set_insert r route seen))
]

report_settled :
    (route : RouteKey) (rs : List RouteKey) (seen : Set RouteKey)
    → IsSettled route seen
    → (report route (after_reports rs seen)).1 ≡ skip
unfolding after_reports
report_settled route [] seen h = rw (report_known route seen h) refl
report_settled route (r ∷ rs) seen h =
    report_settled route rs (report r seen).0 (report-IsSettled route r seen h)

reported-IsSettled :
    (route : RouteKey) (seen : Set RouteKey) → IsSettled route (report route seen).0
reported-IsSettled route seen = elim (Bool-cases (leb cap (length seen) || contains route seen)) [
  | inl known ↦ rw (report_known route seen known) known
  | inr new ↦ rw (report_new route seen new) (ground (arith, contains_reported route seen))
]

pub report-IsAnswer :
    (route : RouteKey) (seen : Set RouteKey)
    → length seen ≤ cap
    → let (later, answer) = report route seen in
      (length later ≤ cap) × IsAnswer route seen later answer
report-IsAnswer route seen h = elim (Bool-cases (contains route seen)) [
  | inl old ↦ rw (report_known route seen (ground (arith, old))) (h, (refl, inl old))
  | inr new ↦
      let n = length-set_insert_new route seen new in
      elim (room (length seen) h) [
        | inl full ↦ rw (report_known route seen (ground (arith, full))) (h, (refl, inr full))
        | inr (inl last) ↦
            rw (report_full route seen last new) (omega (arith, n, last), ((new, n), n ∙ last))
        | inr (inr more) ↦
            rw (report_room route seen more new)
              (omega (arith, n, more), ((new, n), omega (arith, n, more)))
      ]
]

-- A tracker within its limit stays so. What is reported is new to it, `final` marks the route that
-- fills it, and a skipped route was known or came when the tracker was full and changes nothing.
-- After a report of a route, and any further reports, the route is skipped.
pub report_lem :
    (route : RouteKey) (rs : List RouteKey) (seen : Set RouteKey)
    → length seen ≤ cap
    → let (later, answer) = report route seen in
      (length later ≤ cap)
      × IsAnswer route seen later answer
      × ((report route (after_reports rs later)).1 ≡ skip)
report_lem route rs seen h =
    let (bounded, answered) = report-IsAnswer route seen h in
    (
      bounded,
      answered,
      report_settled route rs (report route seen).0 (reported-IsSettled route seen),
    )
