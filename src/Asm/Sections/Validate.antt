-- ===== src/Asm/Sections/Validate.antt =====
-- validate_directive (asm/src/Assembler.c).
use zlvm.Prelude.{ℕ, Bool, true, false, List, [], ◌∷◌, ◌==◌, if◌then◌else◌, length, get_or}
use zlvm.Outcome.{Outcome, accepted, and_then}
use zlvm.Asm.{
  TokenType, tok_string_literal, tok_char_literal, tok_int_hex, tok_int_dec, tok_int_oct,
  tok_int_bin, Token, Failure, asm_token_fail, invalid_directive,
}
use zlvm.Asm.Directive.{
  Directive, dir_section, dir_global, dir_extern, dir_align, dir_entry, dir_locate, dir_ascii,
  dir_asciiz, dir_byte, dir_hword, dir_word, dir_dword, dir_space, dir_macro, dir_endmacro,
  dir_proc, dir_endproc, dir_total,
}
use zlvm.Asm.Parser.{is_id}

unfoldable pub is_integer_token : TokenType → Bool
is_integer_token tok_int_bin = true
is_integer_token tok_int_oct = true
is_integer_token tok_int_dec = true
is_integer_token tok_int_hex = true
is_integer_token _ = false

unfoldable pub is_data_value_token : TokenType → Bool → Bool
is_data_value_token tok_char_literal allow_string = true
is_data_value_token tok_string_literal allow_string = allow_string
is_data_value_token type allow_string = is_integer_token type

-- The first argument; the name stands for it where there is none, which the arity check excludes.
abbrev pub first_argument : Directive → Token
first_argument d = elim d.argv [ [] ↦ d.name | t ∷ argv ↦ t ]

-- An argument too many is shown by itself, a missing one by the directive's name.
unfoldable pub require_arity : Directive → ℕ → Outcome Failure Directive
unfolding get_or
require_arity d expected =
    if length d.argv == expected
    then accepted d
    else asm_token_fail invalid_directive (get_or d.argv expected d.name)

unfoldable pub require_type : Directive → Bool → Outcome Failure Directive
require_type d right =
    if right then accepted d else asm_token_fail invalid_directive (first_argument d)

-- The loop over the arguments that are left.
unfoldable pub check_values : Directive → Bool → List Token → Outcome Failure Directive
check_values d allow_string [] = accepted d
check_values d allow_string (t ∷ argv) =
    let rest = check_values d allow_string argv in
    if is_data_value_token t.type allow_string then rest else asm_token_fail invalid_directive t

unfoldable pub require_some : Directive → Outcome Failure Directive
require_some d = elim d.argv [
  | [] ↦ asm_token_fail invalid_directive d.name
  | t ∷ argv ↦ accepted d
]

abbrev expects_symbol : Directive → Outcome Failure Directive
expects_symbol d =
    and_then (require_arity d 1) (λ e. require_type e (is_id (first_argument e).type))

abbrev expects_integer : Directive → Outcome Failure Directive
expects_integer d =
    and_then (require_arity d 1) (λ e. require_type e (is_integer_token (first_argument e).type))

abbrev expects_values : Bool → Directive → Outcome Failure Directive
expects_values allow_string d = and_then (require_some d) (λ e. check_values e allow_string e.argv)

unfoldable pub validate_directive : Directive → Outcome Failure Directive
unfolding require_arity require_type check_values require_some is_integer_token
validate_directive d = elim d.type [
  | dir_section ↦ expects_symbol d
  | dir_global ↦ expects_symbol d
  | dir_entry ↦ expects_symbol d
  | dir_proc ↦ expects_symbol d
  | dir_macro ↦ expects_symbol d
  | dir_extern ↦ and_then (require_some d) (λ e. require_type e (is_id (first_argument e).type))
  | dir_align ↦ expects_integer d
  | dir_locate ↦ expects_integer d
  | dir_space ↦ expects_integer d
  | dir_ascii ↦ expects_values true d
  | dir_asciiz ↦ expects_values true d
  | dir_byte ↦ expects_values false d
  | dir_hword ↦ expects_values false d
  | dir_word ↦ expects_values false d
  | dir_dword ↦ expects_values false d
  | dir_endmacro ↦ require_arity d 0
  | dir_endproc ↦ require_arity d 0
  | dir_total ↦ asm_token_fail invalid_directive d.name
]
