-- ===== src/Asm/Literals/Value.antt =====
-- asm/src/Token.c: the loop of token_get_int_value against the positional value of the digits.
use native.Mathlib.Nat.{
  mod-eq_of_lt, one-le-pow, div-lt_iff_lt-mul, mul-le-mul_left, pow-succ', pow-zero,
}
use zlvm.Prelude.{
  ℕ, suc, ◌+◌, ◌-◌, ◌*◌, ◌/◌, ◌^◌, ◌≤◌, ◌<◌, ◌≡◌, refl, sym, inl, inr, List, [], ◌∷◌, Option, none,
  some, ltb, leb, if◌then◌else◌, to_dword, arith, length, Bool-cases, Option-cases,
}
use zlvm.Outcome.{accepted}
use zlvm.Outcome.{accepted_value}
use zlvm.Asm.{TokenType, Token, asm_token_fail, number_overflow}
use zlvm.Asm.Literals.{
  dword_max, digit_value, read_digits, read_value, integer_base, token_get_int_value,
}

-- The number that digits stand for, the first one highest; `none` where one is no digit of the base.
unfoldable pub place_value : ℕ → List ℕ → Option ℕ
place_value base [] = some 0
place_value base (c ∷ cs) = elim (digit_value c) [
  | none ↦ none
  | some digit ↦ elim (place_value base cs) [
    | none ↦ none
    | some v ↦ if leb base digit then none else some (digit * base ^ length cs + v)
  ]
]

-- The test by division is the test of the product.
division_test :
    (base value digit : ℕ)
    → 0 < base
    → digit ≤ dword_max
    → ltb ((dword_max - digit) / base) value ≡ ltb dword_max (value * base + digit)
division_test base value digit pos small =
    let (into, from) = div-lt_iff_lt-mul {k = base} {x = dword_max - digit} {y = value} pos in
    ground (arith, into, from)

shifted :
    (base value digit n v : ℕ)
    → (value * base + digit) * base ^ n + v ≡ value * base ^ suc n + (digit * base ^ n + v)
shifted base value digit n v = rw (pow-succ' base n) (grind arith)

too_large : (base value n v : ℕ) → 0 < base → dword_max < value → dword_max < value * base ^ n + v
too_large base value n v pos h =
    let p = one-le-pow n base pos in
    let product : value * 1 ≤ value * base ^ n = mul-le-mul_left value p in omega arith

-- The loop reads the digits that are left, from any value that fits.
read_digits_value :
    (t : Token) (base value : ℕ) (cs : List ℕ) (v : ℕ)
    → 0 < base
    → base ≤ 16
    → value ≤ dword_max
    → place_value base cs ≡ some v
    → read_digits t base value cs ≡ (
        if ltb dword_max (value * base ^ length cs + v)
        then asm_token_fail number_overflow t
        else accepted (value * base ^ length cs + v))
unfolding read_digits place_value
read_digits_value t base value [] v pos h small p =
    let e : base ^ 0 ≡ 1 = pow-zero base in rw e (ground arith)
read_digits_value t base value (c ∷ cs) v pos h small p = elim (Option-cases (digit_value c)) [
  | inl e ↦ absurd (ground arith)
  | inr (digit, e) ↦ elim (Option-cases (place_value base cs)) [
    | inl none_left ↦ absurd (ground arith)
    | inr (rest, some_left) ↦
        let fits : digit < base = ground arith in
        let total : v ≡ digit * base ^ length cs + rest = ground arith in
        let far = too_large base (value * base + digit) (length cs) rest pos in
        let test = division_test base value digit pos (omega arith) in
        let kept : value * base + digit ≤ dword_max
            → to_dword (value * base + digit) ≡ value * base + digit =
          λ q. mod-eq_of_lt (omega (arith, q)) in
        let step : value * base + digit ≤ dword_max → _ =
          λ q. read_digits_value t base (value * base + digit) cs rest pos h q some_left in
        rw (total, sym (shifted base value digit (length cs) rest))
          (elim (Bool-cases (ltb dword_max (value * base + digit))) [
            | inl above ↦ ground (arith, far)
            | inr within ↦ ground (arith, kept, step)
          ])
  ]
]

read_digits_malformed :
    (t : Token) (base value : ℕ) (cs : List ℕ)
    → place_value base cs ≡ none
    → accepted_value (read_digits t base value cs) ≡ none
unfolding read_digits place_value asm_token_fail accepted_value
read_digits_malformed t base value [] p = absurd cc
read_digits_malformed t base value (c ∷ cs) p = elim (Option-cases (digit_value c)) [
  | inl e ↦ ground arith
  | inr (digit, e) ↦
      let again = read_digits_malformed t base (to_dword (value * base + digit)) cs in
      elim (Option-cases (place_value base cs)) [
        | inl none_left ↦ ground (arith, again none_left)
        | inr (v, some_left) ↦ ground arith
      ]
]

-- At least one digit, each of the base, and 64 bits at most.
unfoldable pub value_in_base : ℕ → List ℕ → Option ℕ
value_in_base base [] = none
value_in_base base (c ∷ cs) = elim (place_value base (c ∷ cs)) [
  | none ↦ none
  | some v ↦ if ltb dword_max v then none else some v
]

-- What an integer token stands for.
unfoldable pub integer_value : Token → Option ℕ
integer_value t = elim (integer_base t.type) [
  | none ↦ none
  | some base ↦ value_in_base base t.value
]

base_bounds :
    (type : TokenType) (base : ℕ) → integer_base type ≡ some base → (0 < base) × (base ≤ 16)
unfolding integer_base
base_bounds type base e = ground arith

read_value-value_in_base :
    (t : Token) (base : ℕ) (cs : List ℕ)
    → 0 < base
    → base ≤ 16
    → accepted_value (read_value t base cs) ≡ value_in_base base cs
unfolding read_value value_in_base asm_token_fail accepted_value
read_value-value_in_base t base [] pos h = refl
read_value-value_in_base t base (c ∷ cs) pos h = elim (Option-cases (place_value base (c ∷ cs))) [
  | inl e ↦ ground (arith, read_digits_malformed t base 0 (c ∷ cs) e)
  | inr (v, e) ↦
      let start = read_digits_value t base 0 (c ∷ cs) v pos h (omega arith) e in
      let sum : 0 * base ^ length (c ∷ cs) + v ≡ v = omega arith in
      let r = rw sum at start in ground (arith, r)
]

-- The value of an integer token is the positional value of its digits, and it is refused when it
-- has none, when one is no digit of the base or when the value needs more than 64 bits.
pub token_get_int_value-integer_value :
    (t : Token) → accepted_value (token_get_int_value t) ≡ integer_value t
unfolding token_get_int_value integer_value asm_token_fail accepted_value
token_get_int_value-integer_value t = elim (Option-cases (integer_base t.type)) [
  | inl e ↦ ground arith
  | inr (base, e) ↦
      let (pos, h) = base_bounds t.type base e in
      ground (arith, read_value-value_in_base t base t.value pos h)
]
