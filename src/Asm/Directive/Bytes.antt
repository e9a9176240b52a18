-- ===== src/Asm/Directive/Bytes.antt =====
-- asm/src/Directive.c: the bytes of a numeric directive hold the values of its arguments.
use native.Mathlib.Nat.{mod-eq_of_lt, zero-add, one-le-pow}
use zlvm.Prelude.{
  length-append, get_or-append, ℕ, zero, suc, ◌+◌, ◌-◌, ◌*◌, ◌^◌, ◌≤◌, ◌<◌, ◌≡◌, refl, ap, ◌∙◌, inl,
  inr, List, [], ◌∷◌, ◌++◌, some, ltb, to_byte, ◌>>>◌, arith, length, get_elem?, get_or, Bool-cases,
}
use zlvm.Outcome.{accepted, and_then-accepted}
use zlvm.Prelude.{ltb→ge}
use zlvm.Bytes.{le_value}
use zlvm.Bytes.Laws.{le_value_digits, le_value_move}
use zlvm.Asm.{Token, asm_token_fail}
use zlvm.Asm.Literals.{value_bytes}
use zlvm.Asm.Directive.{
  DirectiveType, Directive, dir_byte, dir_hword, dir_word, dir_dword, numeric_value,
  encode_elements, encode_numeric_data, directive_get_raw_data,
}

-- The bytes of an element of a numeric directive; 0 for the others.
abbrev pub element_size : DirectiveType → ℕ
element_size dir_byte = 1
element_size dir_hword = 2
element_size dir_word = 4
element_size dir_dword = 8
element_size _ = 0

pub length-value_bytes : (left index value : ℕ) → length (value_bytes left index value) ≡ left
unfolding value_bytes
length-value_bytes zero index value = refl
length-value_bytes (suc left) index value = ap suc (length-value_bytes left (index + 1) value)

get_or-value_bytes :
    (left index value j : ℕ)
    → j < left
    → get_or (value_bytes left index value) j 0 ≡ to_byte (value >>> ((index + j) * 8))
unfolding get_or value_bytes
get_or-value_bytes zero index value j h = absurd (omega arith)
get_or-value_bytes (suc left) index value zero h =
    let e : index ≡ index + 0 = omega arith in ap (λ (k : ℕ). to_byte (value >>> (k * 8))) e
get_or-value_bytes (suc left) index value (suc j) h =
    let e : index + 1 + j ≡ index + suc j = omega arith in
    get_or-value_bytes left (index + 1) value j (omega arith)
    ∙ ap (λ (k : ℕ). to_byte (value >>> (k * 8))) e

-- What the loop leaves of the first argument and of those after it.
first_element :
    (size maximum : ℕ) (t : Token) (argv : List Token) (bytes : List ℕ)
    → encode_elements size maximum (t ∷ argv) ≡ accepted bytes
    → (v : ℕ) × (rest : List ℕ) × (numeric_value t ≡ accepted v)
      × (v ≤ maximum)
      × (encode_elements size maximum argv ≡ accepted rest)
      × (bytes ≡ value_bytes size 0 v ++ rest)
unfolding encode_elements asm_token_fail
first_element size maximum t argv bytes h =
    let (v, e, after) = and_then-accepted _ _ h in
    elim (Bool-cases (ltb maximum v)) [
      | inl above ↦ let bad = rw above at after in absurd (ground arith)
      | inr fits ↦
          let kept = rw fits at after in
          let (rest, e2, e3) = and_then-accepted _ _ kept in
          (v, rest, e, ltb→ge _ _ fits, e2, ground arith)
    ]

-- Every argument's value stands at its place in the bytes.
element-le_value :
    (size maximum : ℕ) (argv : List Token) (bytes : List ℕ) (i : ℕ) (t : Token)
    → maximum < 2 ^ (size * 8)
    → encode_elements size maximum argv ≡ accepted bytes
    → get_elem? argv i ≡ some t
    → (v : ℕ) × (numeric_value t ≡ accepted v)
      × (v ≤ maximum)
      × (le_value size (λ j. get_or bytes j 0) (i * size) ≡ v)
unfolding get_elem?
element-le_value size maximum [] bytes i t w h e = absurd cc
element-le_value size maximum (u ∷ argv) bytes zero t w h e =
    let (v, rest, number, fits, after, whole) = first_element size maximum u argv bytes h in
    let start : 0 * size ≡ 0 = omega arith in
    let digits : (j : ℕ) → j < size → get_or bytes (0 + j) 0 ≡ to_byte (v >>> (j * 8)) = λ j p.
      rw (whole, zero-add)
        (ground (
          arith,
          get_or-append (value_bytes size 0 v) rest j 0,
          length-value_bytes size 0 v,
          get_or-value_bytes size 0 v j p,
        )) in
    (
      v,
      ground arith,
      fits,
      rw start
          (le_value_digits size (λ j. get_or bytes j 0) 0 v digits ∙ mod-eq_of_lt (omega arith)),
    )
element-le_value size maximum (u ∷ argv) bytes (suc i) t w h e =
    let (v, rest, number, fits, after, whole) = first_element size maximum u argv bytes h in
    let (x, value, below, read) = element-le_value size maximum argv rest i t w after e in
    let moved : (j : ℕ) → get_or bytes (suc i * size + j) 0 ≡ get_or rest (i * size + j) 0 = λ j.
      let place : suc i * size + j ≡ size + (i * size + j) = grind arith in
      rw (whole, place)
        (ground (
          arith,
          get_or-append (value_bytes size 0 v) rest (size + (i * size + j)) 0,
          length-value_bytes size 0 v,
        )) in
    (
      x,
      value,
      below,
      le_value_move size (λ j. get_or bytes j 0) (λ j. get_or rest j 0) (suc i * size) (i * size)
            moved
          ∙ read,
    )

encode_elements-length :
    (size maximum : ℕ) (argv : List Token) (bytes : List ℕ)
    → encode_elements size maximum argv ≡ accepted bytes
    → length bytes ≡ length argv * size
unfolding encode_elements
encode_elements-length size maximum [] bytes h = ground arith
encode_elements-length size maximum (t ∷ argv) bytes h =
    let (v, rest, number, fits, after, whole) = first_element size maximum t argv bytes h in
    let shorter = encode_elements-length size maximum argv rest after in
    rw whole (
      omega
        (arith, length-append (value_bytes size 0 v) rest, length-value_bytes size 0 v, shorter))

-- The largest value of an element.
abbrev element_max : DirectiveType → ℕ
element_max type = 2 ^ (element_size type * 8) - 1

numeric_data :
    (d : Directive) (bytes : List ℕ)
    → 0 < element_size d.type
    → directive_get_raw_data d ≡ accepted bytes
    → encode_elements (element_size d.type) (element_max d.type) d.argv ≡ accepted bytes
unfolding directive_get_raw_data encode_numeric_data asm_token_fail
numeric_data d bytes pos h = ground arith

-- A numeric directive emits its width for each argument, and each argument's value, which fits the
-- width, is read back at its place; so an argument out of range is never accepted.
pub directive_get_raw_data-le_value :
    (d : Directive) (bytes : List ℕ) (i : ℕ) (t : Token)
    → 0 < element_size d.type
    → directive_get_raw_data d ≡ accepted bytes
    → get_elem? d.argv i ≡ some t
    → (length bytes ≡ length d.argv * element_size d.type)
      × (v : ℕ) × (numeric_value t ≡ accepted v)
      × (v < 2 ^ (element_size d.type * 8))
      × (le_value (element_size d.type) (λ j. get_or bytes j 0) (i * element_size d.type) ≡ v)
directive_get_raw_data-le_value d bytes i t pos h e =
    let size = element_size d.type in
    let all = numeric_data d bytes pos h in
    let some_room = one-le-pow (size * 8) 2 (omega arith) in
    let (v, value, fits, read) =
      element-le_value size (element_max d.type) d.argv bytes i t (omega arith) all e in
    (encode_elements-length size (element_max d.type) d.argv bytes all, v, value, omega arith, read)
