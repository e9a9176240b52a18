-- ===== src/Asm/Parser.antt =====
-- Lines of tokens, and what they say: asm/src/Parser.c and asm/src/Statement.c, with the types of
-- include/asm/Line.h and include/asm/Statement.h. A TokenStream is the list of its tokens.
pub mod Total
pub mod RoundTrip
use zlvm.Prelude.{
  ℕ, zero, suc, ◌+◌, Bool, true, false, ◌&&◌, ◌||◌, List, [], ◌∷◌, Option, none, some,
  if◌then◌else◌, length,
}
use zlvm.Outcome.{Outcome, refused, accepted, and_then}
use zlvm.Asm.{
  TokenType, tok_comment, tok_newline, tok_id, tok_register, tok_label_init, tok_label_use,
  tok_directive, tok_comma, tok_char_literal, tok_int_hex, tok_int_dec, tok_int_oct, tok_int_bin,
  Token, Failure, asm_fail, asm_token_fail, unexpected_token, unknown_directive,
}
use zlvm.Asm.Directive.{Directive, directive_init, directive_add_arg}

-- `none` is NULL.
pub record Statement : Type 0 where
  pub opcode : Token
  pub cond : Option Token
  pub reg1 : Option Token
  pub reg2 : Option Token
  pub imm : Option Token

-- The union of a line, by its type. A line of type L_NONE is never made.
pub data Content : Type 0 where
  stmt : Statement → Content
  dir : Directive → Content
  raw : List ℕ → Content

pub record Line : Type 0 where
  pub label : Option (List ℕ)
  pub content : Content
  pub size : ℕ
  pub section_index : ℕ
  pub section_offset : ℕ

abbrev pub is_comment : TokenType → Bool
is_comment tok_comment = true
is_comment _ = false

abbrev pub is_newline : TokenType → Bool
is_newline tok_newline = true
is_newline _ = false

abbrev pub is_comma : TokenType → Bool
is_comma tok_comma = true
is_comma _ = false

abbrev pub is_label_init : TokenType → Bool
is_label_init tok_label_init = true
is_label_init _ = false

abbrev pub is_id : TokenType → Bool
is_id tok_id = true
is_id _ = false

abbrev pub is_register : TokenType → Bool
is_register tok_register = true
is_register _ = false

abbrev pub is_immediate : TokenType → Bool
is_immediate tok_label_use = true
is_immediate tok_char_literal = true
is_immediate tok_int_bin = true
is_immediate tok_int_oct = true
is_immediate tok_int_dec = true
is_immediate tok_int_hex = true
is_immediate _ = false

-- The loop over comments and empty lines.
unfoldable pub skip_empty : List Token → List Token
skip_empty [] = []
skip_empty (t ∷ stream) =
    let more = skip_empty stream in
    if is_comment t.type || is_newline t.type then more else t ∷ stream

-- The loop up to the end of the line, and what is left of the stream.
unfoldable pub line_tokens : List Token → List Token × List Token
line_tokens [] = ([], [])
line_tokens (t ∷ stream) =
    let (line, rest) = line_tokens stream in
    if is_newline t.type || is_comment t.type
    then ([], stream)
    else if is_comma t.type
    then (line, rest)
    else (t ∷ line, rest)

-- A line's label may stand on the line before.
unfoldable pub skip_label_newline : Token → List Token → List Token
skip_label_newline first [] = []
skip_label_newline first (t ∷ stream) =
    if is_label_init first.type && is_newline t.type then stream else t ∷ stream

unfoldable pub parser_get_line : List Token → Option (List Token × List Token)
unfolding skip_empty line_tokens skip_label_newline
parser_get_line stream = elim (skip_empty stream) [
  | [] ↦ none
  | first ∷ more ↦
      let (line, rest) = line_tokens (skip_label_newline first more) in some (first ∷ line, rest)
]

-- `if (current != NULL && test(current->type)) { field = current; current = read_token(stream); }`
unfoldable pub take_token : (TokenType → Bool) → List Token → Option Token × List Token
take_token test [] = (none, [])
take_token test (t ∷ stream) = if test t.type then (some t, stream) else (none, t ∷ stream)

-- The second register, which is looked for after a first one only.
unfoldable pub take_second : Option Token → List Token → Option Token × List Token
unfolding take_token
take_second none stream = (none, stream)
take_second (some t) stream = take_token is_register stream

unfoldable pub parser_read_statement : List Token → Token → Outcome Failure Statement
unfolding take_token take_second
parser_read_statement stream current =
    let (cond, after_cond) = take_token is_id stream in
    let (reg1, after_reg1) = take_token is_register after_cond in
    let (reg2, after_reg2) = take_second reg1 after_reg1 in
    let (imm, rest) = take_token is_immediate after_reg2 in
    elim rest [
      | [] ↦
          accepted (record { opcode = current; cond = cond; reg1 = reg1; reg2 = reg2; imm = imm })
      | t ∷ more ↦ asm_token_fail unexpected_token t
    ]

unfoldable pub add_arguments : Directive → List Token → Directive
add_arguments d [] = d
add_arguments d (t ∷ stream) = add_arguments (directive_add_arg d t) stream

unfoldable pub parser_read_directive : List Token → Token → Outcome Failure Directive
unfolding add_arguments directive_init
parser_read_directive stream current =
    let (d, valid) = directive_init current in
    if valid then accepted (add_arguments d stream) else asm_token_fail unknown_directive current

-- A parsed line, before asm_processDirectives gives it its size and its place.
abbrev pub new_line : Option (List ℕ) → Content → Line
new_line label content = record {
  label = label;
  content = content;
  size = 0;
  section_index = 0;
  section_offset = 0;
}

-- The switch on the type of the line's first token after its label.
unfoldable pub read_content : List Token → Token → Outcome Failure Content
unfolding parser_read_statement parser_read_directive
read_content stream current = elim current.type [
  | tok_id ↦ and_then (parser_read_statement stream current) (λ s. accepted (stmt s))
  | tok_directive ↦ and_then (parser_read_directive stream current) (λ d. accepted (dir d))
  | _ ↦ asm_token_fail unexpected_token current
]

unfoldable pub parser_read_line : List Token → Outcome Failure Line
unfolding read_content
parser_read_line [] = asm_fail unexpected_token
parser_read_line (t ∷ []) =
    if is_label_init t.type
    then asm_token_fail unexpected_token t
    else and_then (read_content [] t) (λ c. accepted (new_line none c))
parser_read_line (t ∷ u ∷ stream) =
    if is_label_init t.type
    then and_then (read_content stream u) (λ c. accepted (new_line (some t.value) c))
    else and_then (read_content (u ∷ stream) t) (λ c. accepted (new_line none c))

-- The lines of a stream, on fuel; `none` where it runs out.
unfoldable pub parse_lines : ℕ → List Token → Option (Outcome Failure (List Line))
unfolding parser_get_line parser_read_line
parse_lines zero stream = none
parse_lines (suc fuel) stream = elim (parser_get_line stream) [
  | none ↦ some (accepted [])
  | some (tokens, rest) ↦ elim (parser_read_line tokens) [
    | refused f ↦ some (refused f)
    | accepted line ↦ elim (parse_lines fuel rest) [
      | none ↦ none
      | some (refused f) ↦ some (refused f)
      | some (accepted lines) ↦ some (accepted (line ∷ lines))
    ]
  ]
]

unfoldable pub parser_parse : List Token → Option (Outcome Failure (List Line))
unfolding parse_lines
parser_parse stream = parse_lines (length stream + 1) stream
