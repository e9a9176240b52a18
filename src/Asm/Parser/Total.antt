-- ===== src/Asm/Parser/Total.antt =====
-- parser_parse (asm/src/Parser.c) comes to an end.
use zlvm.Prelude.{
  ℕ, zero, suc, ◌+◌, ◌≤◌, ◌<◌, ◌≡◌, refl, ap, inl, inr, ◌&&◌, ◌||◌, List, [], ◌∷◌, some, arith,
  length, Option-cases,
}
use zlvm.Outcome.{Outcome, Outcome-cases}
use zlvm.Prelude.{List-cases, if_split}
use zlvm.Asm.{Token, Failure}
use zlvm.Asm.Parser.{
  Line, is_comment, is_newline, is_comma, is_label_init, skip_empty, line_tokens,
  skip_label_newline, parser_get_line, parser_read_line, parse_lines, parser_parse,
}

skip_empty-le : (stream : List Token) → length (skip_empty stream) ≤ length stream
unfolding skip_empty
skip_empty-le [] = omega arith
skip_empty-le (t ∷ stream) =
    let le = skip_empty-le stream in
    if_split (λ (xs : List Token). length xs ≤ length (t ∷ stream))
      (is_comment t.type || is_newline t.type) (λ e. omega arith) (λ e. omega arith)

line_tokens-le : (stream : List Token) → length (line_tokens stream).1 ≤ length stream
unfolding line_tokens
line_tokens-le [] = omega arith
line_tokens-le (t ∷ stream) =
    let le = line_tokens-le stream in
    let P = λ (p : List Token × List Token). length p.1 ≤ length (t ∷ stream) in
    if_split P (is_newline t.type || is_comment t.type) (λ e. omega arith)
      (λ e. if_split P (is_comma t.type) (λ f. omega arith) (λ f. omega arith))

skip_label_newline-le :
    (first : Token) (stream : List Token) → length (skip_label_newline first stream) ≤ length stream
unfolding skip_label_newline
skip_label_newline-le first [] = omega arith
skip_label_newline-le first (t ∷ stream) =
    if_split (λ (xs : List Token). length xs ≤ length (t ∷ stream))
      (is_label_init first.type && is_newline t.type) (λ e. omega arith) (λ e. omega arith)

-- A line takes a token at least.
get_line_shorter :
    (stream line rest : List Token)
    → parser_get_line stream ≡ some (line, rest)
    → length rest < length stream
unfolding parser_get_line
get_line_shorter stream line rest h = elim (List-cases (skip_empty stream)) [
  | inl e ↦ let bad = rw (e, parser_get_line) at h in absurd cc
  | inr (first, more, e) ↦
      let found = rw (e, parser_get_line) at h in
      let same : rest ≡ (line_tokens (skip_label_newline first more)).1 = cc in
      omega (
        arith,
        ap (length {A = Token}) same,
        ap (length {A = Token}) e,
        skip_empty-le stream,
        skip_label_newline-le first more,
        line_tokens-le (skip_label_newline first more),
      )
]

parse_lines_total :
    (fuel : ℕ) (stream : List Token)
    → length stream < fuel
    → (r : Outcome Failure (List Line)) × (parse_lines fuel stream ≡ some r)
unfolding parse_lines
parse_lines_total zero stream h = absurd (omega arith)
parse_lines_total (suc fuel) stream h = elim (Option-cases (parser_get_line stream)) [
  | inl e ↦ rw (e, parse_lines) (_, refl)
  | inr ((tokens, rest), e) ↦ elim (Outcome-cases (parser_read_line tokens)) [
    | inl (f, b) ↦ rw (e, parse_lines, b) (_, refl)
    | inr (line, b) ↦
        let less = get_line_shorter stream tokens rest e in
        let (r, again) = parse_lines_total fuel rest (omega arith) in
        elim (Outcome-cases r) [
          | inl (f, bad) ↦ rw (e, parse_lines, b, again, bad) (_, refl)
          | inr (lines, good) ↦ rw (e, parse_lines, b, again, good) (_, refl)
        ]
  ]
]

-- The parser comes to an end on every list of tokens, with lines or with a diagnostic.
pub parser_parse_total :
    (stream : List Token) → (r : Outcome Failure (List Line)) × (parser_parse stream ≡ some r)
unfolding parser_parse
parser_parse_total stream = parse_lines_total (length stream + 1) stream (omega arith)
