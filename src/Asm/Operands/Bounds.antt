-- ===== src/Asm/Operands/Bounds.antt =====
-- asm/src/Assembler.c: what a statement's operands may be.
use zlvm.Prelude.{
  ℕ, ◌+◌, ◌-◌, ◌*◌, ◌<◌, ◌≡◌, refl, inl, inr, Bool, true, ◌&&◌, List, [], ◌∷◌, some, ltb, ◌==◌,
  arith, Bool-cases, Option-cases,
}
use zlvm.Outcome.{accepted}
use zlvm.Prelude.{List-cases}
use zlvm.Asm.{Token, asm_token_fail}
use zlvm.Asm.Operands.{
  register_total, condition_names, register_names, check_names, parse_condition, register_index,
  named_register, parse_register,
}

-- Every value of a table is below a bound.
abbrev all_below : ℕ → List (List ℕ × ℕ) → Bool
all_below bound [] = true
all_below bound ((name, value) ∷ names) = ltb value bound && all_below bound names

check_names_below :
    (names : List (List ℕ × ℕ)) (text : List ℕ) (bound value : ℕ)
    → all_below bound names ≡ true
    → check_names names text ≡ some value
    → value < bound
unfolding check_names
check_names_below [] text bound value below h = absurd cc
check_names_below ((name, v) ∷ names) text bound value below h =
    ground (arith, check_names_below names text bound value)

pub parse_condition-lt : (t : Token) (value : ℕ) → parse_condition t ≡ accepted value → value < 17
unfolding parse_condition asm_token_fail
parse_condition-lt t value h = elim (Option-cases (check_names condition_names t.value)) [
  | inl e ↦ absurd (ground arith)
  | inr (v, e) ↦
      let same : value ≡ v = ground arith in
      rw same (check_names_below condition_names t.value 17 v refl e)
]

register_index-lt :
    (t : Token) (index : ℕ) (cs : List ℕ) (value : ℕ)
    → index < register_total
    → register_index t index cs ≡ accepted value
    → value < register_total
unfolding register_index asm_token_fail
register_index-lt t index [] value small h = ground arith
register_index-lt t index (c ∷ cs) value small h =
    ground (arith, register_index-lt t (index * 10 + (c - b'0')) cs value)

named_register-lt :
    (t : Token) (value : ℕ) → named_register t ≡ accepted value → value < register_total
unfolding named_register asm_token_fail
named_register-lt t value h = elim (Option-cases (check_names register_names t.value)) [
  | inl e ↦ absurd (ground arith)
  | inr (v, e) ↦
      let same : value ≡ v = ground arith in
      rw same (check_names_below register_names t.value register_total v refl e)
]

-- A register that is accepted is one of the machine's.
pub parse_register-lt :
    (t : Token) (value : ℕ) → parse_register t ≡ accepted value → value < register_total
unfolding parse_register asm_token_fail
parse_register-lt t value h = elim (List-cases t.value) [
  | inl e ↦ named_register-lt t value (rw (e, parse_register) at h)
  | inr (c, cs, e) ↦ elim (Bool-cases (c == b'r')) [
    | inr other ↦ named_register-lt t value (rw (e, parse_register, other) at h)
    | inl r ↦ elim (List-cases cs) [
      | inl empty ↦ let bad = rw (e, parse_register, r, empty) at h in absurd cc
      | inr (d, digits, more) ↦
          register_index-lt t 0 (d ∷ digits) value (omega arith)
            (rw (e, parse_register, r, more) at h)
    ]
  ]
]
