-- ===== src/Asm/Directive.antt =====
-- The directives and the bytes that they emit: include/asm/Directive.h and asm/src/Directive.c.
pub mod Bytes
use zlvm.Prelude.{
  ℕ, ◌+◌, ◌-◌, ◌/◌, Bool, true, false, List, [], ◌∷◌, ◌++◌, ltb, ◌==◌, if◌then◌else◌, to_byte,
  length, replicate, byte_max, hword_max, word_max, size_t_max,
}
use zlvm.Outcome.{Outcome, accepted, and_then}
use zlvm.Prelude.Names.{same_name}
use zlvm.Asm.{
  tok_string_literal, tok_char_literal, Token, Failure, asm_token_fail, value_out_of_range,
  output_too_large, invalid_directive, internal_error,
}
use zlvm.Asm.Text.{codes}
use zlvm.Asm.Literals.{
  dword_max, token_get_int_value, token_get_char_value, token_get_string_value, value_bytes,
}

pub data DirectiveType : Type 0 where
  dir_section dir_global dir_extern dir_align dir_entry dir_locate : DirectiveType
  dir_ascii dir_asciiz dir_byte dir_hword dir_word dir_dword dir_space : DirectiveType
  dir_macro dir_endmacro dir_proc dir_endproc dir_total : DirectiveType

-- argc is the length of argv.
pub record Directive : Type 0 where
  pub type : DirectiveType
  pub name : Token
  pub argv : List Token

abbrev pub directives : List (List ℕ × DirectiveType)
directives =
    (codes "section", dir_section)
    ∷ (codes "global", dir_global)
    ∷ (codes "extern", dir_extern)
    ∷ (codes "align", dir_align)
    ∷ (codes "entry", dir_entry)
    ∷ (codes "locate", dir_locate)
    ∷ (codes "ascii", dir_ascii)
    ∷ (codes "asciiz", dir_asciiz)
    ∷ (codes "byte", dir_byte)
    ∷ (codes "hword", dir_hword)
    ∷ (codes "word", dir_word)
    ∷ (codes "dword", dir_dword)
    ∷ (codes "space", dir_space)
    ∷ (codes "macro", dir_macro)
    ∷ (codes "endmacro", dir_endmacro)
    ∷ (codes "proc", dir_proc)
    ∷ (codes "endproc", dir_endproc)
    ∷ []

-- The loop over the entries that are left.
unfoldable pub find_directive : List ℕ → List (List ℕ × DirectiveType) → DirectiveType
find_directive value [] = dir_total
find_directive value ((name, type) ∷ entries) =
    let rest = find_directive value entries in if same_name value name then type else rest

unfoldable pub get_directive_type : Token → DirectiveType
unfolding find_directive
get_directive_type t = find_directive t.value directives

-- The result is that of `directive->type != DIR_TOTAL`, too.
unfoldable pub directive_init : Token → Directive × Bool
directive_init name = (
  record { type = get_directive_type name; name = name; argv = [] },
  elim (get_directive_type name) [ dir_total ↦ false | _ ↦ true ],
)

unfoldable pub directive_add_arg : Directive → Token → Directive
directive_add_arg d argument = record d { argv = d.argv ++ (argument ∷ []) }

unfoldable pub is_data_directive : DirectiveType → Bool
is_data_directive dir_ascii = true
is_data_directive dir_asciiz = true
is_data_directive dir_byte = true
is_data_directive dir_hword = true
is_data_directive dir_word = true
is_data_directive dir_dword = true
is_data_directive dir_space = true
is_data_directive _ = false

-- The value of one argument of .ascii or .asciiz.
unfoldable pub ascii_value : Token → Outcome Failure (List ℕ)
ascii_value t = elim t.type [
  | tok_string_literal ↦ accepted (token_get_string_value t.value)
  | tok_char_literal ↦ and_then (token_get_char_value t) (λ c. accepted (c ∷ []))
  | _ ↦ and_then (token_get_int_value t) (λ v.
      if ltb byte_max v then asm_token_fail value_out_of_range t else accepted (to_byte v ∷ []))
]

-- The loop over the arguments that are left, after the bytes of those before.
unfoldable pub ascii_data : Token → List ℕ → List Token → Outcome Failure (List ℕ)
ascii_data name result [] = accepted result
ascii_data name result (t ∷ argv) = and_then (ascii_value t) (λ value.
    if ltb (size_t_max - length result) (length value)
    then asm_token_fail output_too_large name
    else ascii_data name (result ++ value) argv)

-- One argument of .byte, .hword, .word or .dword.
unfoldable pub numeric_value : Token → Outcome Failure ℕ
numeric_value t = elim t.type [
  | tok_char_literal ↦ token_get_char_value t
  | _ ↦ token_get_int_value t
]

unfoldable pub encode_elements : ℕ → ℕ → List Token → Outcome Failure (List ℕ)
encode_elements element_size maximum_value [] = accepted []
encode_elements element_size maximum_value (t ∷ argv) = and_then (numeric_value t) (λ value.
    if ltb maximum_value value
    then asm_token_fail value_out_of_range t
    else and_then (encode_elements element_size maximum_value argv)
        (λ rest. accepted (value_bytes element_size 0 value ++ rest)))

unfoldable pub encode_numeric_data : Directive → ℕ → ℕ → Outcome Failure (List ℕ)
encode_numeric_data d element_size maximum_value =
    if ltb (size_t_max / element_size) (length d.argv)
    then asm_token_fail output_too_large d.name
    else encode_elements element_size maximum_value d.argv

-- `value > SIZE_MAX` never holds where `size_t` has 64 bits.
unfoldable pub space_data : Token → List Token → Outcome Failure (List ℕ)
space_data name (t ∷ []) = and_then (token_get_int_value t) (λ value.
    if ltb size_t_max value
    then asm_token_fail value_out_of_range t
    else accepted (replicate value 0))
space_data name _ = asm_token_fail invalid_directive name

-- The byte after the text of .asciiz.
unfoldable pub terminate : Token → List ℕ → Outcome Failure (List ℕ)
terminate name result =
    if length result == size_t_max
    then asm_token_fail output_too_large name
    else accepted (result ++ (0 ∷ []))

unfoldable pub directive_get_raw_data : Directive → Outcome Failure (List ℕ)
directive_get_raw_data d = elim d.type [
  | dir_ascii ↦ ascii_data d.name [] d.argv
  | dir_asciiz ↦ and_then (ascii_data d.name [] d.argv) (terminate d.name)
  | dir_byte ↦ encode_numeric_data d 1 byte_max
  | dir_hword ↦ encode_numeric_data d 2 hword_max
  | dir_word ↦ encode_numeric_data d 4 word_max
  | dir_dword ↦ encode_numeric_data d 8 dword_max
  | dir_space ↦ space_data d.name d.argv
  | _ ↦ asm_token_fail internal_error d.name
]
