-- ===== src/Asm/Lexer.antt =====
-- The characters and the cursor of the lexer: asm/src/Lexer.c and include/asm/Lexer.h.
-- `state->source + state->pos` is the text that is left, so its end is the terminating NUL.
pub mod Read
pub mod Span
pub mod Range
pub mod Tokens
pub mod Total
use zlvm.Prelude.{
  ℕ, ◌+◌, ◌-◌, Bool, true, false, not, ◌&&◌, ◌||◌, List, [], ◌∷◌, Option, none, some, ltb, leb,
  ◌==◌, if◌then◌else◌,
}
use zlvm.Asm.Text.{isspace, isdigit, tolower}

-- `c == NEWLINE || c == COMMA`
abbrev pub newline : ℕ
newline = 10

unfoldable pub is_ignored_char : ℕ → Bool
unfolding isspace
is_ignored_char c = (isspace c && not (c == newline)) || c == 0

unfoldable pub is_dec_char : ℕ → Bool
unfolding isdigit
is_dec_char c = isdigit c || c == b'_'

unfoldable pub is_token_end : ℕ → Bool
unfolding is_ignored_char
is_token_end c = is_ignored_char c || c == newline || c == b',' || c == b';'

-- The characters that end a word, a label's use, a register or a directive's name.
unfoldable pub is_word_end : ℕ → Bool
unfolding is_ignored_char
is_word_end c = is_ignored_char c || c == newline || c == b','

unfoldable pub is_digit_for_base : ℕ → ℕ → Bool
unfolding tolower
is_digit_for_base c base =
    if leb b'0' c && leb c b'9'
    then ltb (c - b'0') base
    else base == 16 && leb b'a' (tolower c) && leb (tolower c) b'f'

-- pos, line and col of LexerState.
pub record Place : Type 0 where
  pub pos : ℕ
  pub line : ℕ
  pub col : ℕ

-- source_pos, source_line and source_col of LexerState.
pub record Origin : Type 0 where
  pub source_pos : ℕ
  pub source_line : ℕ
  pub source_col : ℕ

-- lexer_init
abbrev pub first_place : Place
first_place = record { pos = 0; line = 1; col = 1 }

abbrev pub first_origin : Origin
first_origin = record { source_pos = 0; source_line = 1; source_col = 1 }

-- lexer_nextChar past a character.
unfoldable pub next_place : ℕ → Place → Place
next_place c p =
    if c == newline
    then record { pos = p.pos + 1; line = p.line + 1; col = 1 }
    else record { pos = p.pos + 1; line = p.line; col = p.col + 1 }

-- What a scanning loop passes over, and where it stops.
pub record Scan : Type 0 where
  pub text : List ℕ
  pub rest : List ℕ
  pub place : Place

-- `while (continues(c)) c = lexer_nextChar(state);`, which ends at the end of the source.
unfoldable pub scan_while : (ℕ → Bool) → List ℕ → Place → Scan
scan_while continues [] place = record { text = []; rest = []; place = place }
scan_while continues (c ∷ cs) place =
    let more = scan_while continues cs (next_place c place) in
    if continues c
    then record { text = c ∷ more.text; rest = more.rest; place = more.place }
    else record { text = []; rest = c ∷ cs; place = place }

-- The loop over a word, in which a quote hides the characters up to the next one: the quote that
-- is open, if one is.
unfoldable pub word_quote : Option ℕ → ℕ → Option ℕ
word_quote none c = if c == b'"' || c == b'\'' then some c else none
word_quote (some quote) c = if c == quote then none else some quote

unfoldable pub word_stops : Option ℕ → ℕ → Bool
word_stops none c = is_word_end c
word_stops (some quote) c = false

unfoldable pub scan_word : Option ℕ → List ℕ → Place → Scan × Option ℕ
scan_word quote [] place = (record { text = []; rest = []; place = place }, quote)
scan_word quote (c ∷ cs) place =
    let (more, open_quote) = scan_word (word_quote quote c) cs (next_place c place) in
    if word_stops quote c
    then (record { text = []; rest = c ∷ cs; place = place }, none)
    else (record { text = c ∷ more.text; rest = more.rest; place = more.place }, open_quote)

-- validate_numeric_token: a character is a digit, or a delimiter between two digits.
abbrev is_neighbour : ℕ → Option ℕ → Bool
is_neighbour base none = false
is_neighbour base (some c) = is_digit_for_base c base

abbrev first_char : List ℕ → Option ℕ
first_char [] = none
first_char (c ∷ cs) = some c

-- The loop, with the character before those that are left.
unfoldable pub valid_digits : ℕ → Option ℕ → List ℕ → Bool
valid_digits base before [] = true
valid_digits base before (c ∷ cs) =
    let rest = valid_digits base (some c) cs in
    (if c == b'_'
      then is_neighbour base before && is_neighbour base (first_char cs)
      else is_digit_for_base c base)
    && rest

unfoldable pub remove_digit_delimiters : List ℕ → List ℕ
remove_digit_delimiters [] = []
remove_digit_delimiters (c ∷ cs) =
    let rest = remove_digit_delimiters cs in if c == b'_' then rest else c ∷ rest
