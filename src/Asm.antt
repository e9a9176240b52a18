-- ===== src/Asm.antt =====
-- The assembler (asm/src): what its parts share. A diagnostic of include/asm/zlasm.h, the error
-- exit of asm/src/Error.c, and the tokens of include/asm/Token.h.
-- A text is the list of its bytes before the terminating NUL, so no element of it is 0.
pub mod Text
pub mod Literals
pub mod Directive
pub mod Lexer
pub mod Macros
pub mod Parser
pub mod Sections
pub mod Operands
pub mod Translate
pub mod Object
pub mod Assemble
use zlvm.Prelude.{ℕ, List, Option, none, some}
use zlvm.Outcome.{Outcome, refused}

pub data DiagnosticCode : Type 0 where
  no_diagnostic invalid_argument out_of_memory unterminated_literal : DiagnosticCode
  unexpected_token unknown_directive invalid_directive malformed_number : DiagnosticCode
  number_overflow unknown_opcode invalid_operands unknown_condition : DiagnosticCode
  unknown_register unknown_label value_out_of_range output_too_large : DiagnosticCode
  internal_error malformed_literal macro_duplicate_definition macro_undefined : DiagnosticCode
  macro_invalid_argument macro_recursion section_error link_error : DiagnosticCode

pub data TokenType : Type 0 where
  tok_comment tok_newline tok_id tok_register tok_label_init tok_label_use : TokenType
  tok_directive tok_comma tok_string_literal tok_char_literal : TokenType
  tok_int_hex tok_int_dec tok_int_oct tok_int_bin : TokenType

pub record Token : Type 0 where
  pub type : TokenType
  pub size : ℕ
  pub value : List ℕ
  pub pos : ℕ
  pub line : ℕ
  pub col : ℕ
  pub source_size : ℕ

-- The source range of a diagnostic.
pub record SourceRange : Type 0 where
  pub line : ℕ
  pub column : ℕ
  pub byte_offset : ℕ
  pub byte_length : ℕ

-- What a ZlasmDiagnostic says: its code, and its range where has_source_location is set. The
-- message is a fixed text for people, and left out.
pub record Failure : Type 0 where
  pub code : DiagnosticCode
  pub range : Option SourceRange

-- `longjmp` out of the assembler, with the diagnostic set.
unfoldable pub asm_fail {ℓ} : {A : Type ℓ} → DiagnosticCode → Outcome Failure A
asm_fail c = refused (record { code = c; range = none })

abbrev pub range_of : Token → SourceRange
range_of t = record {
  line = t.line;
  column = t.col;
  byte_offset = t.pos;
  byte_length = t.source_size;
}

unfoldable pub asm_token_fail {ℓ} : {A : Type ℓ} → DiagnosticCode → Token → Outcome Failure A
asm_token_fail c t = refused (record { code = c; range = some (range_of t) })
