-- ===== src/Asm/Lexer/Tokens.antt =====
-- lexer_readToken and the loop over it (asm/src/Lexer.c, asm/src/zlasm.c): where the tokens stand
-- in the source.
use zlvm.Prelude.{
  ℕ, ◌+◌, ◌-◌, ◌<◌, ◌≡◌, refl, ap, ◌∙◌, inl, inr, true, not, List, ◌∷◌, ◌++◌, none, some, arith,
  length, All, Bool-cases, Option-cases,
}
use zlvm.Outcome.{accepted, and_then-accepted}
use zlvm.Prelude.{List-cases}
use zlvm.Asm.{Token, asm_token_fail}
use zlvm.Asm.Literals.{integer_base}
use zlvm.Asm.Lexer.{
  is_ignored_char, Place, Origin, Scan, scan_while, valid_digits, remove_digit_delimiters,
}
use zlvm.Asm.Lexer.Read.{
  Lexeme, token_at, read_lexeme, finish_token, check_number, lexer_read_token,
}
use zlvm.Asm.Lexer.Span.{
  walk, walk-pos, Reads, Reads-append, scan_while-Reads, scan_while-All, scan_while_stop,
}
use zlvm.Asm.Lexer.Range.{read_lexeme-Takes}

-- Two tokens of one range and type.
pub record SameRange (t u : Token) : Type 0 where
  pub same_type : u.type ≡ t.type
  pub same_pos : u.pos ≡ t.pos
  pub same_line : u.line ≡ t.line
  pub same_col : u.col ≡ t.col
  pub same_size : u.source_size ≡ t.source_size

check_number-SameRange : (base : ℕ) (t u : Token) → check_number base t ≡ accepted u → SameRange t u
unfolding check_number asm_token_fail
check_number-SameRange base t u h = elim (List-cases t.value) [
  | inl e ↦ let bad = rw (e, check_number) at h in absurd cc
  | inr (c, cs, e) ↦ elim (Bool-cases (not (valid_digits base none (c ∷ cs)))) [
    | inl wrong ↦ let bad = rw (e, check_number, wrong) at h in absurd cc
    | inr right ↦
        let found = rw (e, check_number, right) at h in
        let (v, _, last) = and_then-accepted _ _ found in
        let value = remove_digit_delimiters (c ∷ cs) in
        let same : u ≡ record t { value = value; size = length value } = cc in
        rw same (record {
          same_type = refl;
          same_pos = refl;
          same_line = refl;
          same_col = refl;
          same_size = refl;
        })
  ]
]

pub finish_token-SameRange : (t u : Token) → finish_token t ≡ accepted u → SameRange t u
unfolding finish_token
finish_token-SameRange t u h = elim (Option-cases (integer_base t.type)) [
  | inl e ↦
      let found = rw (e, finish_token) at h in
      let same : u ≡ t = cc in
      rw same (record {
        same_type = refl;
        same_pos = refl;
        same_line = refl;
        same_col = refl;
        same_size = refl;
      })
  | inr (base, e) ↦ check_number-SameRange base t u (rw (e, finish_token) at h)
]

-- A token starts after blanks, and its range is the text up to what is left.
pub record Placed (o : Origin) (source : List ℕ) (start : Place) (t : Token) (rest : List ℕ)
    (stop : Place) : Type 0 where
  pub blanks : List ℕ
  pub raw : List ℕ
  pub read : Reads source start (blanks ++ raw) rest stop
  pub ignored : All (λ c. is_ignored_char c ≡ true) blanks
  pub some_text : 0 < length raw
  pub pos_lem : t.pos ≡ o.source_pos + (start.pos + length blanks)
  pub line_lem : t.line ≡ o.source_line + (walk blanks start).line - 1
  pub size_lem : t.source_size ≡ length raw

-- The steps of an accepted token.
record Steps (o : Origin) (source : List ℕ) (start : Place) (t : Token) (rest : List ℕ)
    (stop : Place) : Type 0 where
  c : ℕ
  cs : List ℕ
  l : Lexeme
  there : (scan_while is_ignored_char source start).rest ≡ c ∷ cs
  read : read_lexeme o c cs (scan_while is_ignored_char source start).place ≡ accepted l
  finished :
      finish_token
        (token_at o (scan_while is_ignored_char source start).place l.place l.type l.value)
      ≡ accepted t
  rest_lem : rest ≡ l.rest
  stop_lem : stop ≡ l.place

lexer_read_token-Steps :
    (o : Origin) (source : List ℕ) (start : Place) (t : Token) (rest : List ℕ) (stop : Place)
    → lexer_read_token o source start ≡ accepted (some (t, rest, stop))
    → Steps o source start t rest stop
unfolding lexer_read_token
lexer_read_token-Steps o source start t rest stop h =
    elim (List-cases (scan_while is_ignored_char source start).rest) [
      | inl e ↦ let bad = rw (e, lexer_read_token) at h in absurd cc
      | inr (c, cs, e) ↦
          let found = rw (e, lexer_read_token) at h in
          let (l, read, after) = and_then-accepted _ _ found in
          let (u, finished, last) = and_then-accepted _ _ after in
          let same : t ≡ u = cc in
          record {
            c = c;
            cs = cs;
            l = l;
            there = e;
            read = read;
            finished = rw same finished;
            rest_lem = cc;
            stop_lem = cc;
          }
    ]

ranged :
    (o : Origin) (source : List ℕ) (start : Place) (s : Scan) (l : Lexeme) (raw : List ℕ)
    (t : Token)
    → Reads source start s.text s.rest s.place
    → All (λ c. is_ignored_char c ≡ true) s.text
    → Reads s.rest s.place raw l.rest l.place
    → 0 < length raw
    → SameRange (token_at o s.place l.place l.type l.value) t
    → Placed o source start t l.rest l.place
unfolding token_at
ranged o source start s l raw t skipped ignored taken room same = record {
  blanks = s.text;
  raw = raw;
  read = Reads-append source s.text s.rest raw l.rest start s.place l.place skipped taken;
  ignored = ignored;
  some_text = room;
  pos_lem =
      omega (arith, same.same_pos, ap (λ (p : Place). p.pos) skipped.moved, walk-pos s.text start);
  line_lem = same.same_line ∙ ap (λ (p : Place). o.source_line + p.line - 1) skipped.moved;
  size_lem =
      omega (arith, same.same_size, ap (λ (p : Place). p.pos) taken.moved, walk-pos raw s.place);
}

pub lexer_read_token-Placed :
    (o : Origin) (source : List ℕ) (start : Place) (t : Token) (rest : List ℕ) (stop : Place)
    → lexer_read_token o source start ≡ accepted (some (t, rest, stop))
    → Placed o source start t rest stop
lexer_read_token-Placed o source start t rest stop h =
    let steps = lexer_read_token-Steps o source start t rest stop h in
    let s = scan_while is_ignored_char source start in
    let kept = scan_while_stop is_ignored_char source start steps.c steps.cs steps.there in
    let (raw, taken, room) = read_lexeme-Takes o steps.c steps.cs s.place kept steps.l steps.read in
    rw (steps.rest_lem, steps.stop_lem)
      (ranged o source start s steps.l raw t (scan_while-Reads is_ignored_char source start)
        (scan_while-All is_ignored_char source start) (rw steps.there taken) room
        (finish_token-SameRange _ t steps.finished))
