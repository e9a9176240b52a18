-- ===== src/Tests/Assembly.antt =====
-- The assembler on a small program: from the source to the bytes, and the theorems on its passes.
use zlvm.Prelude.{
  ℕ, ◌+◌, ◌*◌, ◌^◌, ◌<◌, ◌≡◌, refl, List, [], ◌∷◌, ◌++◌, none, some, if◌then◌else◌, arith, length,
  get_elem?, get_or, set, replicate,
}
use zlvm.Outcome.{Outcome, accepted, and_then}
use zlvm.Outcome.{accepted_value}
use zlvm.Asm.Lexer.{
  scan_while, is_ignored_char, next_place, scan_word, word_quote, word_stops, is_word_end,
  is_dec_char,
}
use zlvm.Asm.Lexer.Read.{
  read_tokens, lexer_read_token, read_lexeme, read_word, label_text, token_at, finish_token,
}
use zlvm.Prelude.Names.{same_name}
use zlvm.Bytes.{le_value, put_bytes}
use zlvm.Opcode.{string_to_opcode, find_opcode, opcode_of, opcode_total}
use zlvm.Condition.{condition_total}
use zlvm.Instruction.{Instruction, instruction_encode, instruction_decode, instruction_size}
use zlvm.Asm.{
  TokenType, tok_comment, tok_id, tok_register, tok_label_use, tok_directive, tok_comma,
  tok_char_literal, tok_int_hex, tok_int_dec, Token, Failure,
}
use zlvm.Asm.Text.{codes, text_of, toupper, isspace, isdigit}
use zlvm.Asm.Literals.{
  token_get_int_value, read_value, read_digits, digit_value, integer_base, token_get_char_value,
  get_char_value, value_bytes,
}
use zlvm.Asm.Literals.Value.{integer_value, token_get_int_value-integer_value}
use zlvm.Asm.Directive.{
  Directive, dir_hword, directive_get_raw_data, encode_numeric_data, encode_elements, numeric_value,
}
use zlvm.Asm.Directive.Bytes.{element_size, directive_get_raw_data-le_value}
use zlvm.Asm.Lexer.Read.{lex_source}
use zlvm.Asm.Lexer.Total.{Tiled, lex_source-Tiled, lex_source_total}
use zlvm.Asm.Parser.{Line, Statement, stmt, raw, new_line, parser_parse, parser_read_statement}
use zlvm.Asm.Parser.Total.{parser_parse_total}
use zlvm.Asm.Parser.RoundTrip.{IsStatement, operand_tokens, parser_read_statement_lem}
use zlvm.Asm.Sections.{
  AssemblerContext, asm_init, record_line, validate_section_range, current, put_current,
  select_section, find_section_named,
}
use zlvm.Asm.Sections.Process.{
  asm_process_directives, process_lines, process_line, process_content, line_label,
}
use zlvm.Asm.Sections.Places.{IsPlaced}
use zlvm.Asm.Sections.Invariant.{asm_process_directives-IsPlaced}
use zlvm.Asm.Sections.Labels.{
  LabelInfo, label_table_set_or_create, label_info_get_if_exist, label_address, process_labels,
  asm_process_labels, label_address-set_or_create,
}
use zlvm.Asm.Operands.{
  register_total, validate_operands, expected_operands, parse_condition, parse_register,
  check_names, register_index, named_register,
}
use zlvm.Asm.Translate.{
  statement_opcode, translate_content, translate_lines, asm_translate, statement_instruction,
  encode, immediate_of, label_immediate, plain_immediate, parse_optional,
}
use zlvm.Asm.Translate.Code.{translate_statement_decoded}
use zlvm.Asm.Translate.Program.{total_size, label_address-asm_translate, length-asm_translate}

abbrev token : TokenType → List ℕ → Token
token type value = record {
  type = type;
  size = length value;
  value = value;
  pos = 0;
  line = 1;
  col = 1;
  source_size = length value;
}

abbrev jump : Statement
jump = record {
  opcode = token tok_id (codes "jmp");
  cond = none;
  reg1 = none;
  reg2 = none;
  imm = some (token tok_label_use (codes "back"));
}

abbrev move : Statement
move = record {
  opcode = token tok_id (codes "MOVI");
  cond = some (token tok_id (codes "eq"));
  reg1 = some (token tok_register (codes "r1"));
  reg2 = none;
  imm = some (token tok_int_hex (codes "1F"));
}

abbrev jump_line : Line
jump_line = new_line (some (codes "back")) (stmt jump)

abbrev move_line : Line
move_line = new_line none (stmt move)

abbrev data_line : Line
data_line = new_line none (raw (1 ∷ 2 ∷ []))

abbrev placed : Line → ℕ → ℕ → Line
placed line size offset = record line { size = size; section_index = 0; section_offset = offset }

abbrev back_table : List LabelInfo
back_table = record { name = codes "back"; address = 8 } ∷ []

abbrev output : List ℕ
output = 7 ∷ 1 ∷ 1 ∷ 0 ∷ 31 ∷ 0 ∷ 0 ∷ 0 ∷ 20 ∷ 0 ∷ 0 ∷ 0 ∷ 8 ∷ 0 ∷ 0 ∷ 0 ∷ 1 ∷ 2 ∷ []

labelled : asm_process_labels (move_line ∷ jump_line ∷ data_line ∷ []) ≡ accepted back_table
unfolding asm_process_labels process_labels label_info_get_if_exist label_table_set_or_create
    same_name
labelled = refl

translated : asm_translate back_table (move_line ∷ jump_line ∷ data_line ∷ []) ≡ accepted output
unfolding asm_translate translate_lines translate_content statement_instruction statement_opcode
    text_of toupper string_to_opcode find_opcode validate_operands expected_operands opcode_of
    get_elem? parse_optional parse_condition parse_register check_names same_name register_index
    named_register immediate_of label_immediate plain_immediate label_address
    label_info_get_if_exist encode instruction_encode put_bytes set replicate token_get_int_value
    read_value read_digits integer_base digit_value and_then
translated = refl

label_address-asm_translate_example :
    (pre code post : List ℕ) × (output ≡ pre ++ (code ++ post))
    × (translate_content back_table jump_line.content ≡ accepted code)
    × (label_address back_table (codes "back") ≡ some (length pre))
label_address-asm_translate_example =
    label_address-asm_translate (move_line ∷ []) jump_line (data_line ∷ []) (codes "back")
      back_table output refl labelled translated

length-asm_translate_example : length output ≡ total_size (move_line ∷ jump_line ∷ data_line ∷ [])
length-asm_translate_example =
    length-asm_translate back_table (move_line ∷ jump_line ∷ data_line ∷ []) output translated

move_bytes : translate_content [] (stmt move) ≡ accepted (7 ∷ 1 ∷ 1 ∷ 0 ∷ 31 ∷ 0 ∷ 0 ∷ 0 ∷ [])
unfolding translate_content statement_instruction statement_opcode text_of toupper string_to_opcode
    find_opcode validate_operands expected_operands opcode_of get_elem? parse_optional
    parse_condition parse_register check_names same_name register_index named_register immediate_of
    plain_immediate encode instruction_encode put_bytes set replicate token_get_int_value read_value
    read_digits integer_base digit_value and_then
move_bytes = refl

translate_statement_decoded_example :
    (8 ≡ instruction_size)
    × (i : Instruction) × (instruction_decode
          (some (7 ∷ 1 ∷ 1 ∷ 0 ∷ 31 ∷ 0 ∷ 0 ∷ 0 ∷ []))
          instruction_size
        ≡ some i)
    × (i.opcode ≡ statement_opcode move)
    × (i.opcode < opcode_total)
    × (i.condition < condition_total)
    × (i.register1 < register_total)
    × (i.register2 < register_total)
translate_statement_decoded_example =
    translate_statement_decoded [] move (7 ∷ 1 ∷ 1 ∷ 0 ∷ 31 ∷ 0 ∷ 0 ∷ 0 ∷ []) move_bytes

token_get_int_value-integer_value_example :
    accepted_value (token_get_int_value (token tok_int_hex (codes "1F")))
    ≡ integer_value (token tok_int_hex (codes "1F"))
token_get_int_value-integer_value_example =
    token_get_int_value-integer_value (token tok_int_hex (codes "1F"))

abbrev halves : Directive
halves = record {
  type = dir_hword;
  name = token tok_directive (codes "hword");
  argv = token tok_char_literal (codes "a") ∷ token tok_int_dec (codes "500") ∷ [];
}

halves_bytes : directive_get_raw_data halves ≡ accepted (97 ∷ 0 ∷ 244 ∷ 1 ∷ [])
unfolding directive_get_raw_data encode_numeric_data encode_elements numeric_value
    token_get_char_value get_char_value token_get_int_value read_value read_digits integer_base
    digit_value value_bytes and_then
halves_bytes = refl

second_argument : get_elem? halves.argv 1 ≡ some (token tok_int_dec (codes "500"))
unfolding get_elem?
second_argument = refl

directive_get_raw_data-le_value_example :
    (4 ≡ length halves.argv * element_size halves.type)
    × (v : ℕ) × (numeric_value (token tok_int_dec (codes "500")) ≡ accepted v)
    × (v < 2 ^ (element_size halves.type * 8))
    × (le_value
          (element_size halves.type)
          (λ j. get_or (97 ∷ 0 ∷ 244 ∷ 1 ∷ []) j 0)
          (1 * element_size halves.type)
        ≡ v)
directive_get_raw_data-le_value_example =
    directive_get_raw_data-le_value halves (97 ∷ 0 ∷ 244 ∷ 1 ∷ []) 1
      (token tok_int_dec (codes "500")) (omega arith) halves_bytes second_argument

abbrev spaced : List ℕ
spaced = codes " a ,;b"

abbrev spaced_token : TokenType → ℕ → ℕ → List ℕ → Token
spaced_token type pos size value = record {
  type = type;
  size = length value;
  value = value;
  pos = pos;
  line = 1;
  col = pos + 1;
  source_size = size;
}

abbrev spaced_tokens : List Token
spaced_tokens =
    spaced_token tok_id 1 1 (codes "a")
    ∷ spaced_token tok_comma 3 1 (codes ",")
    ∷ spaced_token tok_comment 4 2 (codes "b")
    ∷ []

lexed : lex_source spaced ≡ some (accepted spaced_tokens)
unfolding lex_source read_tokens lexer_read_token scan_while is_ignored_char isspace next_place
    read_lexeme read_word scan_word word_quote word_stops is_word_end is_dec_char isdigit label_text
    token_at finish_token integer_base and_then
lexed = refl

lex_source-Tiled_example : Tiled 0 1 spaced spaced_tokens
lex_source-Tiled_example = lex_source-Tiled spaced spaced_tokens lexed

lex_source_total_example : (r : Outcome Failure (List Token)) × (lex_source spaced ≡ some r)
lex_source_total_example = lex_source_total spaced

parser_parse_total_example :
    (r : Outcome Failure (List Line)) × (parser_parse spaced_tokens ≡ some r)
parser_parse_total_example = parser_parse_total spaced_tokens

move-IsStatement : IsStatement move
move-IsStatement = record {
  opcode_type = refl;
  cond_type = refl;
  reg1_type = refl;
  reg2_type = tt;
  imm_type = refl;
  in_order = λ h. refl;
}

parser_read_statement_lem_example :
    parser_read_statement (operand_tokens move) move.opcode ≡ accepted move
parser_read_statement_lem_example = parser_read_statement_lem move move-IsStatement

label_address-set_or_create_example :
    label_address (label_table_set_or_create back_table (codes "end") 16) (codes "back") ≡ (
      if same_name (codes "end") (codes "back")
      then some 16
      else label_address back_table (codes "back"))
label_address-set_or_create_example =
    label_address-set_or_create back_table (codes "end") (codes "back") 16

abbrev placed_context : AssemblerContext
placed_context = record {
  entry = none;
  globals = [];
  externals = [];
  lines = placed move_line 8 0 ∷ placed data_line 2 8 ∷ [];
  sections =
      record { name = codes "text"; type = 1; flags = 0; address = 0; alignment = 1; size = 10 }
      ∷ [];
  current_section = 0;
}

processed : asm_process_directives asm_init (move_line ∷ data_line ∷ []) ≡ accepted placed_context
unfolding asm_process_directives process_lines process_line process_content line_label record_line
    validate_section_range current put_current get_or set asm_init select_section find_section_named
    same_name and_then
processed = refl

asm_process_directives-IsPlaced_example : IsPlaced placed_context
asm_process_directives-IsPlaced_example =
    asm_process_directives-IsPlaced (move_line ∷ data_line ∷ []) placed_context processed
