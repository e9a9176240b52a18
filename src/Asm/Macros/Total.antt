-- ===== src/Asm/Macros/Total.antt =====
-- macros_expand (asm/src/Macros.c) comes to an end.
use zlvm.Prelude.{
  ℕ, zero, suc, ◌+◌, ◌≤◌, ◌<◌, ◌≡◌, refl, inl, inr, not, List, [], ◌∷◌, some, arith, length,
  Bool-cases, Option-cases,
}
use zlvm.Outcome.{Outcome, accepted, Outcome-cases, and_then-accepted}
use zlvm.Prelude.{List-cases}
use zlvm.Asm.{Token, Failure, asm_token_fail}
use zlvm.Asm.Text.{codes}
use zlvm.Asm.Parser.{is_id}
use zlvm.Asm.Macros.{Macro, is_directive, find_macro, before_line_end, line_end, next_of}
use zlvm.Asm.Macros.Capture.{read_body, capture_macro, capture_macros}
use zlvm.Asm.Macros.Expand.{macros_expand}

line_end-le : (tokens : List Token) → length (line_end tokens) ≤ length tokens
unfolding line_end
line_end-le [] = omega arith
line_end-le (t ∷ tokens) = ground (arith, line_end-le tokens)

next_of-le : (tokens : List Token) → length (next_of tokens) ≤ length tokens
next_of-le [] = omega arith
next_of-le (t ∷ tokens) = omega arith

-- What follows a body is no longer than what it was read from.
read_body-le :
    (name : Token) (tokens body rest : List Token)
    → read_body name tokens ≡ accepted (body, rest)
    → length rest ≤ length tokens
unfolding read_body asm_token_fail
read_body-le name [] body rest h = absurd cc
read_body-le name (t ∷ tokens) body rest h = elim (Bool-cases (is_directive t (codes "endmacro"))) [
  | inl e ↦
      let found = rw (e, read_body) at h in let one : rest ≡ t ∷ tokens = cc in rw one (omega arith)
  | inr e ↦ elim (Bool-cases (is_directive t (codes "macro"))) [
    | inl f ↦ let bad = rw (e, read_body, f) at h in absurd cc
    | inr f ↦
        let found = rw (e, read_body, f) at h in
        let ((inner, after), again, last) = and_then-accepted _ _ found in
        let one : rest ≡ after = cc in
        rw one (omega (arith, read_body-le name tokens inner after again))
  ]
]

capture_macro-le :
    (macros : List Macro) (definition : Token) (tokens : List Token) (macro : Macro)
    (after : List Token)
    → capture_macro macros definition tokens ≡ accepted (macro, after)
    → length after ≤ length tokens
unfolding capture_macro asm_token_fail
capture_macro-le macros definition tokens macro after h =
    elim (List-cases (before_line_end tokens)) [
      | inl e ↦ let bad = rw (e, capture_macro) at h in absurd cc
      | inr (name, header, e) ↦ elim (Bool-cases (not (is_id name.type))) [
        | inl f ↦ let bad = rw (e, capture_macro, f) at h in absurd cc
        | inr f ↦ elim (Option-cases (find_macro macros name.value)) [
          | inr (m, g) ↦ let bad = rw (e, capture_macro, f, g) at h in absurd cc
          | inl g ↦
              let found = rw (e, capture_macro, f, g) at h in
              let (parameters, _, h1) = and_then-accepted _ _ found in
              let ((body, ending), read, h2) = and_then-accepted _ _ h1 in
              let (_, _, last) = and_then-accepted _ _ h2 in
              let one : after ≡ next_of (line_end ending) = cc in
              rw one (
                omega (
                  arith,
                  next_of-le (line_end ending),
                  line_end-le ending,
                  read_body-le name (next_of (line_end tokens)) body ending read,
                  next_of-le (line_end tokens),
                  line_end-le tokens,
                ))
        ]
      ]
    ]

capture_macros_total :
    (fuel : ℕ) (macros : List Macro) (tokens : List Token)
    → length tokens < fuel
    → (r : Outcome Failure (List Macro)) × (capture_macros fuel macros tokens ≡ some r)
unfolding capture_macros
capture_macros_total zero macros tokens h = absurd (omega arith)
capture_macros_total (suc fuel) macros [] h = (_, refl)
capture_macros_total (suc fuel) macros (t ∷ tokens) h =
    elim (Bool-cases (is_directive t (codes "macro"))) [
      | inl e ↦ elim (Outcome-cases (capture_macro macros t tokens)) [
        | inl (f, b) ↦ rw (e, capture_macros, b) (_, refl)
        | inr ((macro, after), b) ↦
            let less = capture_macro-le macros t tokens macro after b in
            rw (e, capture_macros, b)
              (capture_macros_total fuel (macro ∷ macros) after (omega arith))
      ]
      | inr e ↦ elim (Bool-cases (is_directive t (codes "endmacro"))) [
        | inl f ↦ rw (e, capture_macros, f) (_, refl)
        | inr f ↦ rw (e, capture_macros, f) (capture_macros_total fuel macros tokens (omega arith))
      ]
    ]

-- The expansion comes to an end on every list of tokens, recursive macros included.
pub macros_expand_total :
    (tokens : List Token) → (r : Outcome Failure (List Token)) × (macros_expand tokens ≡ some r)
unfolding macros_expand
macros_expand_total tokens =
    let (r, e) = capture_macros_total (length tokens + 1) [] tokens (omega arith) in
    elim (Outcome-cases r) [
      | inl (f, b) ↦ rw (e, macros_expand, b) (_, refl)
      | inr (macros, b) ↦ rw (e, macros_expand, b) (_, refl)
    ]
