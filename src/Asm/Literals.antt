-- ===== src/Asm/Literals.antt =====
-- The values of tokens: asm/src/Token.c.
pub mod Value
use zlvm.Prelude.{
  ℕ, zero, suc, ◌+◌, ◌-◌, ◌*◌, ◌/◌, ◌^◌, ◌&&◌, List, [], ◌∷◌, Option, none, some, ltb, leb, ◌==◌,
  if◌then◌else◌, to_byte, to_dword, ◌>>>◌,
}
use zlvm.Outcome.{Outcome, accepted, and_then}
use zlvm.Asm.{
  TokenType, tok_string_literal, tok_char_literal, tok_int_hex, tok_int_dec, tok_int_oct,
  tok_int_bin, Token, Failure, asm_token_fail, malformed_number, number_overflow, malformed_literal,
  invalid_directive,
}

abbrev pub dword_max : ℕ
dword_max = 2 ^ 64 - 1

-- The base of an integer token; `none` is the default case.
unfoldable pub integer_base : TokenType → Option ℕ
integer_base tok_int_hex = some 16
integer_base tok_int_dec = some 10
integer_base tok_int_oct = some 8
integer_base tok_int_bin = some 2
integer_base _ = none

-- The chain of tests on one character; `none` is its last branch.
unfoldable pub digit_value : ℕ → Option ℕ
digit_value c =
    if leb b'0' c && leb c b'9'
    then some (c - b'0')
    else if leb b'a' c && leb c b'f'
    then some (c - b'a' + 10)
    else if leb b'A' c && leb c b'F'
    then some (c - b'A' + 10)
    else none

-- The loop over the characters that are left.
unfoldable pub read_digits : Token → ℕ → ℕ → List ℕ → Outcome Failure ℕ
read_digits t base value [] = accepted value
read_digits t base value (c ∷ cs) = elim (digit_value c) [
  | none ↦ asm_token_fail malformed_number t
  | some digit ↦
      if leb base digit
      then asm_token_fail malformed_number t
      else if ltb ((dword_max - digit) / base) value
      then asm_token_fail number_overflow t
      else read_digits t base (to_dword (value * base + digit)) cs
]

-- The test for an empty text before the loop.
unfoldable pub read_value : Token → ℕ → List ℕ → Outcome Failure ℕ
read_value t base [] = asm_token_fail malformed_number t
read_value t base (c ∷ cs) = read_digits t base 0 (c ∷ cs)

unfoldable pub token_get_int_value : Token → Outcome Failure ℕ
unfolding read_value integer_base
token_get_int_value t = elim (integer_base t.type) [
  | none ↦ asm_token_fail malformed_number t
  | some base ↦ read_value t base t.value
]

-- The switch on the character after the backslash.
unfoldable pub escape_value : ℕ → Option ℕ
escape_value c =
    if c == b'n'
    then some 10
    else if c == b'r'
    then some 13
    else if c == b't'
    then some 9
    else if c == b'a'
    then some 7
    else if c == b'f'
    then some 12
    else if c == b'v'
    then some 11
    else if c == b'b'
    then some 8
    else if c == b'\\'
    then some b'\\'
    else none

-- The character as a byte: every caller casts it.
unfoldable pub get_char_value : Token → List ℕ → Outcome Failure ℕ
unfolding escape_value
get_char_value t [] = asm_token_fail malformed_literal t
get_char_value t (c ∷ []) = if c == b'\\' then asm_token_fail malformed_literal t else accepted c
get_char_value t (c ∷ d ∷ []) =
    if c == b'\\'
    then elim (escape_value d) [ none ↦ asm_token_fail malformed_literal t | some v ↦ accepted v ]
    else asm_token_fail malformed_literal t
get_char_value t (c ∷ d ∷ e ∷ cs) = asm_token_fail malformed_literal t

unfoldable pub token_get_char_value : Token → Outcome Failure ℕ
unfolding get_char_value
token_get_char_value t = get_char_value t t.value

-- `for (; left > 0; left--, index++) result[index] = (byte)(value >> (index * 8))`
unfoldable pub value_bytes : ℕ → ℕ → ℕ → List ℕ
value_bytes zero index value = []
value_bytes (suc left) index value =
    to_byte (value >>> (index * 8)) ∷ value_bytes left (index + 1) value

-- A copy of the text's bytes, and their number is its length.
abbrev pub token_get_string_value : List ℕ → List ℕ
token_get_string_value value = value

raw_integer : Token → Outcome Failure (List ℕ)
raw_integer t = and_then (token_get_int_value t) (λ v. accepted (value_bytes 8 0 v))

unfoldable pub token_get_raw_data : Token → Outcome Failure (List ℕ)
unfolding raw_integer
token_get_raw_data t = elim t.type [
  | tok_string_literal ↦ accepted (token_get_string_value t.value)
  | tok_char_literal ↦ and_then (token_get_char_value t) (λ c. accepted (c ∷ []))
  | tok_int_hex ↦ raw_integer t
  | tok_int_dec ↦ raw_integer t
  | tok_int_oct ↦ raw_integer t
  | tok_int_bin ↦ raw_integer t
  | _ ↦ asm_token_fail invalid_directive t
]
