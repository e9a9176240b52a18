-- ===== src/Asm/Translate.antt =====
-- The code of a flat program: asm_translate of asm/src/Assembler.c, without and with its loop.
pub mod Code
pub mod Program
use zlvm.Prelude.{
  ℕ, ◌+◌, ◌-◌, ◌^◌, ◌||◌, List, [], ◌∷◌, ◌++◌, map, Option, none, some, ltb, ◌==◌, if◌then◌else◌,
  to_word, length, replicate, word_max, size_t_max,
}
use zlvm.Outcome.{Outcome, accepted, and_then}
use zlvm.Asm.{
  tok_label_use, tok_char_literal, Token, Failure, asm_fail, asm_token_fail, unknown_opcode,
  unknown_label, value_out_of_range, internal_error, output_too_large,
}
use zlvm.Asm.Text.{text_of, toupper}
use zlvm.Asm.Literals.{token_get_int_value, token_get_char_value}
use zlvm.Asm.Parser.{Line, Statement, Content, stmt, dir, raw}
use zlvm.Asm.Sections.Labels.{LabelInfo, label_address}
use zlvm.Asm.Operands.{validate_operands, parse_condition, parse_register}
use zlvm.Opcode.{string_to_opcode, opcode_total}
use zlvm.Instruction.{Instruction, instruction_size, instruction_encode}

-- line_to_upper, and string_to_opcode of the text.
unfoldable pub statement_opcode : Statement → ℕ
unfolding text_of toupper
statement_opcode s = string_to_opcode (text_of (map toupper s.opcode.value))

-- C_UNCONDITIONAL or R_ZERO where the token is NULL.
unfoldable pub parse_optional : (Token → Outcome Failure ℕ) → Option Token → Outcome Failure ℕ
parse_optional parse none = accepted 0
parse_optional parse (some t) = parse t

-- `char` has a sign, as it has on x86: the conversion to `word` extends it.
abbrev pub char_to_word : ℕ → ℕ
char_to_word c = if ltb c (2 ^ 7) then c else to_word (2 ^ 32 - 2 ^ 8 + c)

-- An immediate that is no label.
unfoldable pub plain_immediate : Token → Outcome Failure ℕ
unfolding asm_token_fail
plain_immediate t = elim t.type [
  | tok_char_literal ↦ and_then (token_get_char_value t) (λ c. accepted (char_to_word c))
  | _ ↦
      and_then (token_get_int_value t) (λ value.
        if ltb word_max value then asm_token_fail value_out_of_range t else accepted value)
]

unfoldable pub label_immediate : List LabelInfo → Token → Outcome Failure ℕ
unfolding asm_token_fail
label_immediate labels t = elim (label_address labels t.value) [
  | none ↦ asm_token_fail unknown_label t
  | some address ↦
      if ltb word_max address then asm_token_fail value_out_of_range t else accepted address
]

unfoldable pub immediate_of : List LabelInfo → Option Token → Outcome Failure ℕ
unfolding plain_immediate label_immediate
immediate_of labels none = accepted 0
immediate_of labels (some t) = elim t.type [
  | tok_label_use ↦ label_immediate labels t
  | _ ↦ plain_immediate t
]

-- The eight bytes of an instruction.
unfoldable pub encode : Instruction → Outcome Failure (List ℕ)
unfolding asm_fail
encode i =
    elim (instruction_encode (some (replicate instruction_size 0)) instruction_size (some i)) [
      | none ↦ asm_fail internal_error
      | some bytes ↦ accepted bytes
    ]

unfoldable pub statement_instruction : List LabelInfo → Statement → Outcome Failure Instruction
unfolding statement_opcode validate_operands immediate_of parse_optional
statement_instruction labels s =
    let opcode = statement_opcode s in
    if opcode == opcode_total
    then asm_token_fail unknown_opcode s.opcode
    else and_then (validate_operands opcode s) (λ _.
      and_then (parse_optional parse_condition s.cond) (λ condition.
        and_then (parse_optional parse_register s.reg1) (λ register1.
          and_then (parse_optional parse_register s.reg2) (λ register2.
            and_then (immediate_of labels s.imm) (λ immediate. accepted (record {
              opcode = opcode;
              condition = condition;
              register1 = register1;
              register2 = register2;
              immediate = immediate;
            }))))))

-- The bytes of a line; asm_processDirectives leaves no directive.
unfoldable pub translate_content : List LabelInfo → Content → Outcome Failure (List ℕ)
unfolding statement_instruction encode
translate_content labels (stmt s) = and_then (statement_instruction labels s) encode
translate_content labels (raw bytes) = accepted bytes
translate_content labels (dir d) = asm_fail internal_error

-- The buffer grows from 1024 bytes by 1024 until the output fits, and the next step would wrap
-- around from the largest multiple of 1024 on.
abbrev capacity_limit : ℕ
capacity_limit = 2 ^ 64 - 2 ^ 10

-- The loop over the lines that are left, after the bytes of those before.
unfoldable pub translate_lines : List LabelInfo → List ℕ → List Line → Outcome Failure (List ℕ)
unfolding translate_content
translate_lines labels result [] = accepted result
translate_lines labels result (line ∷ lines) =
    and_then (translate_content labels line.content) (λ bytes.
      if ltb (size_t_max - length result) (length bytes)
        || ltb capacity_limit (length result + length bytes)
      then asm_fail output_too_large
      else translate_lines labels (result ++ bytes) lines)

unfoldable pub asm_translate : List LabelInfo → List Line → Outcome Failure (List ℕ)
unfolding translate_lines
asm_translate labels lines = translate_lines labels [] lines
