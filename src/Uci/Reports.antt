-- ===== src/Uci/Reports.antt =====
-- What the steps of crates/oa-gateway-uci/src/validate/rules.rs have in common: each extends a report, and
-- leaves an empty one empty exactly when what it checks holds.
use oa_gateway.Prelude.{
  ℕ, ◌≡◌, ◌≢◌, ◌≤◌, ◌↔◌, ◌∙◌, refl, ap, subst, Bool, true, false, [], ◌∷◌, length, ltb,
  if◌then◌else◌, arith, length-append,
}
use oa_gateway.Text.{Text}
use oa_gateway.Uci.Errors.{max_depth}
use oa_gateway.Uci.Rules.{Report, note, note_if, full}
use oa_gateway.Uci.Check.{guarded}
use oa_gateway.Uci.Violation.{ViolationKind, max_violations, too_deep}

-- A step that reports nothing exactly when `P` holds, is not quiet after a step that was not, and does
-- not fill a report beyond its cap.
pub record Reports (f : Report → Report) (P : Type 0) : Type 0 where
  pub keeps : (out : Report) → f out ≡ [] → out ≡ []
  pub sound : f [] ≡ [] → P
  pub complete : P → f [] ≡ []
  pub capped : (out : Report) → length out ≤ max_violations → length (f out) ≤ max_violations

pub Reports-skip : Reports (λ out. out) Unit
Reports-skip = record {
  keeps = λ out h. h;
  sound = λ _. tt;
  complete = λ _. refl;
  capped = λ out h. h;
}

pub Reports-then :
    {f g : Report → Report} {P Q : Type 0}
    → Reports f P
    → Reports g Q
    → Reports (λ out. g (f out)) (P × Q)
Reports-then {f} {g} p q = record {
  keeps = λ out h. p.keeps out (q.keeps (f out) h);
  sound = λ h.
      let quiet = q.keeps (f []) h in (p.sound quiet, q.sound (subst (λ out. g out ≡ []) quiet h));
  complete = λ h. ap g (p.complete h.0) ∙ q.complete h.1;
  capped = λ out h. q.capped (f out) (p.capped out h);
}

pub Reports-iff : {f : Report → Report} {P Q : Type 0} → P ↔ Q → Reports f P → Reports f Q
Reports-iff h p = record {
  keeps = p.keeps;
  sound = λ q. h.0 (p.sound q);
  complete = λ q. p.complete (h.1 q);
  capped = p.capped;
}

note_ne : (path : Text) (kind : ViolationKind) (out : Report) → note path kind out ≢ []
unfolding note
note_ne path kind [] h = ground (arith, h)
note_ne path kind (v ∷ vs) h = ground (arith, h)

note_capped :
    (path : Text) (kind : ViolationKind) (out : Report)
    → length out ≤ max_violations
    → length (note path kind out) ≤ max_violations
unfolding note
note_capped path kind out h =
    ground (arith, length-append out (record { path = path; kind = kind } ∷ []))

pub Reports-note : (path : Text) (kind : ViolationKind) → Reports (note path kind) ⊥
Reports-note path kind = record {
  keeps = λ out h. elim (note_ne path kind out h) [ ];
  sound = λ h. note_ne path kind [] h;
  complete = λ h. elim h [ ];
  capped = note_capped path kind;
}

pub Reports-note_if :
    (test : Bool) (path : Text) (kind : ViolationKind)
    → Reports (note_if test path kind) (test ≡ false)
unfolding note_if
Reports-note_if true path kind = Reports-iff (ground arith) (Reports-note path kind)
Reports-note_if false path kind = Reports-iff (ground arith) Reports-skip

guard_quiet :
    (deep : Bool) (path : Text) (r : Report)
    → ((if deep then note path too_deep [] else r) ≡ []) ↔ ((deep ≡ false) × (r ≡ []))
guard_quiet true path r = (λ h. elim (note_ne path too_deep [] h) [ ], λ h. ground (arith, h.0))
guard_quiet false path r = (λ h. (refl, h), λ h. h.1)

guard_keeps :
    (filled deep : Bool) (path : Text) (out r : Report)
    → (r ≡ [] → out ≡ [])
    → (if filled then out else if deep then note path too_deep out else r) ≡ []
    → out ≡ []
guard_keeps true deep path out r keeps h = h
guard_keeps false true path out r keeps h = elim (note_ne path too_deep out h) [ ]
guard_keeps false false path out r keeps h = keeps h

guard_capped :
    (filled deep : Bool) (path : Text) (out r : Report)
    → length out ≤ max_violations
    → length r ≤ max_violations
    → length (if filled then out else if deep then note path too_deep out else r) ≤ max_violations
guard_capped true deep path out r h k = h
guard_capped false true path out r h k = note_capped path too_deep out h
guard_capped false false path out r h k = k

pub Reports-guarded :
    (path : Text) (depth : ℕ) {rest : Report → Report} {P : Type 0}
    → Reports rest P
    → Reports (guarded path depth rest) ((depth ≤ max_depth) × P)
unfolding guarded
Reports-guarded path depth {rest} p =
    let (to, from) = guard_quiet (ltb max_depth depth) path (rest []) in
    record {
      keeps = λ out. guard_keeps (full out) (ltb max_depth depth) path out (rest out) (p.keeps out);
      sound = λ h. (ground (arith, (to h).0), p.sound (to h).1);
      complete = λ h. from (ground (arith, h.0), p.complete h.1);
      capped = λ out h.
          guard_capped (full out) (ltb max_depth depth) path out (rest out) h (p.capped out h);
    }
