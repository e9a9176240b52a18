-- ===== src/Asm/Lexer/Total.antt =====
-- The loop of assemble_source (asm/src/zlasm.c) over lexer_readToken: it reaches the end of the
-- source, and the tokens tile it.
use mathlib.Core.List.{append_assoc, append-nil}
use mathlib.Core.Path.{subst}
use zlvm.Prelude.{
  length-append, ℕ, zero, suc, ◌+◌, ◌<◌, ◌≡◌, refl, sym, ap, ◌∙◌, inl, inr, true, List, [], ◌∷◌,
  ◌++◌, none, some, ◌==◌, if◌then◌else◌, arith, length, All, Option-cases,
}
use zlvm.Outcome.{Outcome, accepted, Outcome-cases, and_then-accepted}
use zlvm.Prelude.{List-cases}
use zlvm.Asm.{Token, Failure}
use zlvm.Asm.Lexer.{
  newline, is_ignored_char, Place, Origin, first_place, first_origin, next_place, scan_while,
}
use zlvm.Asm.Lexer.Read.{lexer_read_token, read_tokens, lex_source}
use zlvm.Asm.Lexer.Span.{walk, walk-pos, scan_while-Reads, scan_while-All}
use zlvm.Asm.Lexer.Tokens.{Placed, lexer_read_token-Placed}

unfoldable pub newlines : List ℕ → ℕ
newlines [] = 0
newlines (c ∷ cs) = (if c == newline then 1 else 0) + newlines cs

walk-line : (xs : List ℕ) (p : Place) → (walk xs p).line ≡ p.line + newlines xs
unfolding walk next_place newlines
walk-line [] p = omega arith
walk-line (x ∷ xs) p = ground (arith, walk-line xs (next_place x p))

-- The source from a position and a line on is the tokens' ranges, each after ignored characters
-- only, and more of these at the end.
abbrev pub Tiled : ℕ → ℕ → List ℕ → List Token → Type 0
Tiled pos line source [] = All (λ c. is_ignored_char c ≡ true) source
Tiled pos line source (t ∷ tokens) =
    (blanks raw rest : List ℕ) × (source ≡ blanks ++ (raw ++ rest))
    × All (λ c. is_ignored_char c ≡ true) blanks
    × (0 < length raw)
    × (t.pos ≡ pos + length blanks)
    × (t.line ≡ line + newlines blanks)
    × (t.source_size ≡ length raw)
    × Tiled (pos + length (blanks ++ raw)) (line + newlines (blanks ++ raw)) rest tokens

-- A token leaves a shorter source.
shorter :
    (o : Origin) (source : List ℕ) (start : Place) (t : Token) (rest : List ℕ) (stop : Place)
    → lexer_read_token o source start ≡ accepted (some (t, rest, stop))
    → length rest < length source
shorter o source start t rest stop h =
    let p = lexer_read_token-Placed o source start t rest stop h in
    let whole = ap length p.read.split in
    omega (
      arith,
      whole,
      length-append (p.blanks ++ p.raw) rest,
      length-append p.blanks p.raw,
      p.some_text,
    )

-- Fuel above the number of characters is enough.
read_tokens_total :
    (fuel : ℕ) (o : Origin) (source : List ℕ) (start : Place)
    → length source < fuel
    → (r : Outcome Failure (List Token)) × (read_tokens fuel o source start ≡ some r)
unfolding read_tokens
read_tokens_total zero o source start h = absurd (omega arith)
read_tokens_total (suc fuel) o source start h =
    elim (Outcome-cases (lexer_read_token o source start)) [
      | inl (f, e) ↦ rw (e, read_tokens) (_, refl)
      | inr (found, e) ↦ elim (Option-cases found) [
        | inl stop ↦ rw (e, read_tokens, stop) (_, refl)
        | inr ((t, rest, after), more) ↦
            let step : lexer_read_token o source start ≡ accepted (some (t, rest, after)) =
              rw more at e in
            let less = shorter o source start t rest after step in
            let (r, again) = read_tokens_total fuel o rest after (omega arith) in
            elim (Outcome-cases r) [
              | inl (f, bad) ↦ rw (step, read_tokens, again, bad) (_, refl)
              | inr (tokens, good) ↦ rw (step, read_tokens, again, good) (_, refl)
            ]
      ]
    ]

-- The lexer comes to an end on every source, with its tokens or with a diagnostic.
pub lex_source_total :
    (source : List ℕ) → (r : Outcome Failure (List Token)) × (lex_source source ≡ some r)
unfolding lex_source
lex_source_total source =
    read_tokens_total (length source + 1) first_origin source first_place (omega arith)

end_ignored :
    (o : Origin) (source : List ℕ) (start : Place)
    → lexer_read_token o source start ≡ accepted none
    → All (λ c. is_ignored_char c ≡ true) source
unfolding lexer_read_token
end_ignored o source start h =
    let s = scan_while is_ignored_char source start in
    let read = scan_while-Reads is_ignored_char source start in
    elim (List-cases s.rest) [
      | inl e ↦
          let whole : source ≡ s.text =
            read.split ∙ ap (λ xs. s.text ++ xs) e ∙ append-nil s.text in
          subst (All (λ c. is_ignored_char c ≡ true)) (sym whole)
            (scan_while-All is_ignored_char source start)
      | inr (c, cs, e) ↦
          let found = rw (e, lexer_read_token) at h in
          let (l, read_l, after) = and_then-accepted _ _ found in
          let (u, finished, last) = and_then-accepted _ _ after in absurd cc
    ]

loop_step :
    (fuel : ℕ) (source : List ℕ) (start : Place) (tokens : List Token) (t : Token) (rest : List ℕ)
    (after : Place)
    → lexer_read_token first_origin source start ≡ accepted (some (t, rest, after))
    → read_tokens (suc fuel) first_origin source start ≡ some (accepted tokens)
    → (others : List Token) × (read_tokens fuel first_origin rest after ≡ some (accepted others))
      × (tokens ≡ t ∷ others)
unfolding read_tokens
loop_step fuel source start tokens t rest after step h =
    elim (Option-cases (read_tokens fuel first_origin rest after)) [
      | inl e ↦ let bad = rw (step, read_tokens, e) at h in absurd cc
      | inr (r, e) ↦ elim (Outcome-cases r) [
        | inl (f, b) ↦ let bad = rw (step, read_tokens, e, b) at h in absurd cc
        | inr (others, b) ↦ let last = rw (step, read_tokens, e, b) at h in (others, rw b at e, cc)
      ]
    ]

tile :
    (source : List ℕ) (start : Place) (t : Token) (rest : List ℕ) (after : Place)
    (others : List Token)
    → Placed first_origin source start t rest after
    → 0 < start.line
    → (0 < after.line → Tiled after.pos after.line rest others)
    → Tiled start.pos start.line source (t ∷ others)
tile source start t rest after others p up tiled =
    let text = p.blanks ++ p.raw in
    let pos : after.pos ≡ start.pos + length text =
      ap (λ (q : Place). q.pos) p.read.moved ∙ walk-pos text start in
    let line : after.line ≡ start.line + newlines text =
      ap (λ (q : Place). q.line) p.read.moved ∙ walk-line text start in
    let left : Tiled (start.pos + length text) (start.line + newlines text) rest others =
      rw (sym pos, sym line) (tiled (omega (arith, line))) in
    (
      p.blanks,
      p.raw,
      rest,
      p.read.split ∙ append_assoc p.blanks p.raw rest,
      p.ignored,
      p.some_text,
      omega (arith, p.pos_lem),
      omega (arith, p.line_lem, walk-line p.blanks start),
      p.size_lem,
      left,
    )

-- The tokens of the loop tile what it was given.
read_tokens-Tiled :
    (fuel : ℕ) (source : List ℕ) (start : Place) (tokens : List Token)
    → 0 < start.line
    → read_tokens fuel first_origin source start ≡ some (accepted tokens)
    → Tiled start.pos start.line source tokens
unfolding read_tokens
read_tokens-Tiled zero source start tokens up h = absurd cc
read_tokens-Tiled (suc fuel) source start tokens up h =
    let o = first_origin in
    elim (Outcome-cases (lexer_read_token o source start)) [
      | inl (f, e) ↦ let bad = rw (e, read_tokens) at h in absurd cc
      | inr (found, e) ↦ elim (Option-cases found) [
        | inl stop ↦
            let last = rw (e, read_tokens, stop) at h in
            let none_left : tokens ≡ [] = cc in
            rw none_left (end_ignored o source start (rw stop at e))
        | inr ((t, rest, after), more) ↦
            let step : lexer_read_token o source start ≡ accepted (some (t, rest, after)) =
              rw more at e in
            let (others, again, whole) = loop_step fuel source start tokens t rest after step h in
            rw whole (
              tile source start t rest after others
                (lexer_read_token-Placed o source start t rest after step) up
                (λ u. read_tokens-Tiled fuel rest after others u again))
      ]
    ]

-- The tokens that the lexer accepts tile the source: each token's range is its text, at least one
-- character, at the position and on the line where it stands, and only ignored characters are left
-- out.
pub lex_source-Tiled :
    (source : List ℕ) (tokens : List Token)
    → lex_source source ≡ some (accepted tokens)
    → Tiled 0 1 source tokens
unfolding lex_source
lex_source-Tiled source tokens h =
    read_tokens-Tiled (length source + 1) source first_place tokens (omega arith) h
