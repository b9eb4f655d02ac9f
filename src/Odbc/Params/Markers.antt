-- ===== src/Odbc/Params/Markers.antt =====
-- The call text of db/odbc_db.cpp has a parameter marker for each parameter that is bound.
use ran_online.Base.{
  ℕ, zero, suc, ◌+◌, ◌≤◌, ◌≡◌, refl, List, [], ◌∷◌, ◌++◌, true, false, Bool-cases, inl, inr, arith,
  codes, ◌∙◌, length, length-append, ltb, ◌==◌, if◌then◌else◌,
}
use ran_online.Odbc.{Param}
use ran_online.Odbc.Params.{with_return, bind_order, markers, marker_list, call_text}

-- The question marks of a text.
unfoldable pub marks : List ℕ → ℕ
marks [] = 0
marks (c ∷ s) = let rest = marks s in if c == 0x3f then suc rest else rest

marks-append : (xs ys : List ℕ) → marks (xs ++ ys) ≡ marks xs + marks ys
unfolding marks
marks-append [] ys = omega arith
marks-append (c ∷ xs) ys = elim (Bool-cases (c == 0x3f)) [
  | inl h ↦ rw (h, marks-append xs ys) (omega arith)
  | inr h ↦ rw (h, marks-append xs ys) refl
]

marks-markers : (n : ℕ) → marks (markers n) ≡ n
unfolding markers marks
marks-markers zero = refl
marks-markers (suc n) = omega (arith, marks-markers n, marks-append (codes ",?") (markers n))

marks-marker_list : (n : ℕ) → marks (marker_list n) ≡ n
unfolding marker_list marks
marks-marker_list zero = refl
marks-marker_list (suc n) =
    rw
      (
        marks-append (codes " (?" ++ markers n) (codes ")"),
        marks-append (codes " (?") (markers n),
        marks-markers n,
      )
      (omega arith)

return_marks : (n : ℕ) → n ≤ 1 → marks (if ltb 0 n then codes "? = " else []) ≡ n
unfolding marks
return_marks zero h = refl
return_marks (suc zero) h = refl
return_marks (suc (suc n)) h = absurd (omega arith)

marks_parts :
    (a b c d l e : List ℕ)
    → marks (a ++ b ++ c ++ d ++ l ++ e) ≡ marks a + marks b + marks c + marks d + marks l + marks e
marks_parts a b c d l e = omega (
  arith,
  marks-append (a ++ b ++ c ++ d ++ l) e,
  marks-append (a ++ b ++ c ++ d) l,
  marks-append (a ++ b ++ c) d,
  marks-append (a ++ b) c,
  marks-append a b,
)

plain_parts : (marks (codes "{ ") ≡ 0) × (marks (codes "call ") ≡ 0) × (marks (codes " }") ≡ 0)
unfolding marks
plain_parts = (refl, refl, refl)

length-bind_order : (params : List Param) → length (bind_order params) ≡ length params
unfolding bind_order with_return
length-bind_order [] = refl
length-bind_order (p ∷ params) =
    let a = length-append (with_return true params) (with_return false params) in
    let b = length-append (p ∷ with_return true params) (with_return false params) in
    let c = length-append (with_return true params) (p ∷ with_return false params) in
    elim (Bool-cases p.is_return) [
      | inl h ↦ simp h (omega (arith, a, b, length-bind_order params))
      | inr h ↦ simp h (omega (arith, a, b, c, length-bind_order params))
    ]

-- A stored procedure's name without a question mark, and at most one return parameter: the call
-- text has exactly one marker for each of the accumulated parameters.
pub marks-call_text :
    (sp : List ℕ) (params : List Param)
    → marks sp ≡ 0
    → length (with_return true params) ≤ 1
    → marks (call_text sp params) ≡ length params
unfolding call_text bind_order
marks-call_text sp params plain one =
    let r = length (with_return true params) in
    let n = length (with_return false params) in
    marks_parts (codes "{ ") (if ltb 0 r then codes "? = " else []) (codes "call ") sp
      (marker_list n) (codes " }")
    ∙ omega (
      arith,
      plain,
      plain_parts.0,
      plain_parts.1,
      plain_parts.2,
      marks-marker_list n,
      return_marks r one,
      length-append (with_return true params) (with_return false params),
      length-bind_order params,
    )
