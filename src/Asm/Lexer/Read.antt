-- ===== src/Asm/Lexer/Read.antt =====
-- lexer_readToken (asm/src/Lexer.c) and the loop of assemble_source (asm/src/zlasm.c) over it.
use zlvm.Prelude.{
  ℕ, zero, suc, ◌+◌, ◌-◌, not, ◌||◌, List, [], ◌∷◌, Option, none, some, ◌==◌, if◌then◌else◌, length,
}
use zlvm.Outcome.{Outcome, refused, accepted, and_then}
use zlvm.Asm.{
  TokenType, tok_comment, tok_newline, tok_id, tok_register, tok_label_init, tok_label_use,
  tok_directive, tok_comma, tok_string_literal, tok_char_literal, tok_int_hex, tok_int_dec,
  tok_int_oct, tok_int_bin, Token, Failure, asm_token_fail, malformed_number, unterminated_literal,
}
use zlvm.Asm.Literals.{integer_base, token_get_int_value}
use zlvm.Asm.Lexer.{
  newline, is_ignored_char, is_dec_char, is_token_end, is_word_end, Place, Origin, first_place,
  first_origin, next_place, Scan, scan_while, scan_word, valid_digits, remove_digit_delimiters,
}

-- What the switch on the first character finds: the token's type and text, and what is left.
pub record Lexeme : Type 0 where
  pub type : TokenType
  pub value : List ℕ
  pub rest : List ℕ
  pub place : Place

-- The token that starts at one place and ends at another.
unfoldable pub token_at : Origin → Place → Place → TokenType → List ℕ → Token
token_at o start stop type value = record {
  type = type;
  size = length value;
  value = value;
  pos = o.source_pos + start.pos;
  line = o.source_line + start.line - 1;
  col = if start.line == 1 then o.source_col + start.col - 1 else start.col;
  source_size = stop.pos - start.pos;
}

abbrev lexeme : TokenType → Scan → Lexeme
lexeme type s = record { type = type; value = s.text; rest = s.rest; place = s.place }

-- The range of a literal that is not closed; the C code leaves the other fields of the token 0.
abbrev unterminated : Origin → Place → Place → Outcome Failure Lexeme
unterminated o start stop =
    asm_token_fail unterminated_literal (token_at o start stop tok_comment [])

-- A mark, and the word after it.
abbrev marked : TokenType → ℕ → List ℕ → Place → Lexeme
marked type c cs start = lexeme type (scan_while (λ d. not (is_word_end d)) cs (next_place c start))

-- The text after a quote, up to the next one.
unfoldable pub read_quoted : Origin → Place → TokenType → ℕ → List ℕ → Outcome Failure Lexeme
unfolding scan_while next_place asm_token_fail token_at
read_quoted o start type quote cs =
    let s = scan_while (λ d. not (d == quote)) cs (next_place quote start) in
    elim s.rest [
      | [] ↦ unterminated o start s.place
      | d ∷ more ↦
          accepted
            (record { type = type; value = s.text; rest = more; place = next_place d s.place })
    ]

-- The type that a digit's prefix gives.
unfoldable pub prefix_type : ℕ → Option TokenType
prefix_type c =
    if c == b'x' || c == b'X'
    then some tok_int_hex
    else if c == b'o' || c == b'O'
    then some tok_int_oct
    else if c == b'b' || c == b'B'
    then some tok_int_bin
    else none

abbrev digits : TokenType → List ℕ → Place → Lexeme
digits type cs start = lexeme type (scan_while (λ d. not (is_token_end d)) cs start)

-- A literal that starts with `c`, which is_dec_char holds of.
unfoldable pub read_number : ℕ → List ℕ → Place → Lexeme
unfolding prefix_type scan_while next_place
read_number c [] start = digits tok_int_dec (c ∷ []) start
read_number c (d ∷ cs) start = elim (if c == b'0' then prefix_type d else none) [
  | none ↦ digits tok_int_dec (c ∷ d ∷ cs) start
  | some type ↦ digits type cs (next_place d (next_place c start))
]

-- `*(CURRENT - 1) == LABEL_INIT_MARK`: the text before the mark that ends a word.
unfoldable pub label_text : List ℕ → Option (List ℕ)
label_text [] = none
label_text (c ∷ []) = if c == b':' then some [] else none
label_text (c ∷ d ∷ cs) = elim (label_text (d ∷ cs)) [ none ↦ none | some text ↦ some (c ∷ text) ]

unfoldable pub read_word : Origin → ℕ → List ℕ → Place → Outcome Failure Lexeme
unfolding scan_word asm_token_fail token_at label_text
read_word o c cs start =
    let (s, open_quote) = scan_word none (c ∷ cs) start in
    elim open_quote [
      | some quote ↦ unterminated o start s.place
      | none ↦ elim (label_text s.text) [
        | none ↦ accepted (lexeme tok_id s)
        | some text ↦
            accepted
              (record { type = tok_label_init; value = text; rest = s.rest; place = s.place })
      ]
    ]

-- The switch on the first character.
unfoldable pub read_lexeme : Origin → ℕ → List ℕ → Place → Outcome Failure Lexeme
unfolding read_number read_word read_quoted scan_while next_place
read_lexeme o c cs start =
    if c == newline
    then accepted
        (record { type = tok_newline; value = c ∷ []; rest = cs; place = next_place c start })
    else if c == b','
    then accepted
        (record { type = tok_comma; value = c ∷ []; rest = cs; place = next_place c start })
    else if c == b';'
    then accepted
        (lexeme tok_comment (scan_while (λ d. not (d == newline)) cs (next_place c start)))
    else if c == b'#'
    then accepted (marked tok_label_use c cs start)
    else if c == b'$'
    then accepted (marked tok_register c cs start)
    else if c == b'.'
    then accepted (marked tok_directive c cs start)
    else if c == b'"'
    then read_quoted o start tok_string_literal c cs
    else if c == b'\''
    then read_quoted o start tok_char_literal c cs
    else if is_dec_char c
    then accepted (read_number c cs start)
    else read_word o c cs start

-- The switch on the type of the token that was read: a number's digits are checked, its delimiters
-- removed, and its value checked.
unfoldable pub check_number : ℕ → Token → Outcome Failure Token
check_number base t = elim t.value [
  | [] ↦ asm_token_fail malformed_number t
  | c ∷ cs ↦
      if not (valid_digits base none (c ∷ cs))
      then asm_token_fail malformed_number t
      else let value = remove_digit_delimiters (c ∷ cs) in
        let plain : Token = record t { value = value; size = length value } in
        and_then (token_get_int_value plain) (λ v. accepted plain)
]

unfoldable pub finish_token : Token → Outcome Failure Token
unfolding check_number
finish_token t = elim (integer_base t.type) [ none ↦ accepted t | some base ↦ check_number base t ]

-- A token and what is left; `none` at the end of the source.
unfoldable pub lexer_read_token :
    Origin → List ℕ → Place → Outcome Failure (Option (Token × List ℕ × Place))
unfolding scan_while read_lexeme finish_token
lexer_read_token o source place =
    let s = scan_while is_ignored_char source place in
    elim s.rest [
      | [] ↦ accepted none
      | c ∷ cs ↦ and_then (read_lexeme o c cs s.place) (λ l.
          and_then (finish_token (token_at o s.place l.place l.type l.value))
            (λ t. accepted (some (t, l.rest, l.place))))
    ]

-- The tokens up to the end of the source, on fuel; `none` where it runs out.
unfoldable pub read_tokens : ℕ → Origin → List ℕ → Place → Option (Outcome Failure (List Token))
unfolding lexer_read_token
read_tokens zero o source place = none
read_tokens (suc fuel) o source place = elim (lexer_read_token o source place) [
  | refused f ↦ some (refused f)
  | accepted none ↦ some (accepted [])
  | accepted (some (t, rest, after)) ↦ elim (read_tokens fuel o rest after) [
    | none ↦ none
    | some (refused f) ↦ some (refused f)
    | some (accepted tokens) ↦ some (accepted (t ∷ tokens))
  ]
]

unfoldable pub lex_source : List ℕ → Option (Outcome Failure (List Token))
unfolding read_tokens
lex_source source = read_tokens (length source + 1) first_origin source first_place
