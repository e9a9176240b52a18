-- ===== src/Asm/Lexer/Range.antt =====
-- asm/src/Lexer.c: each token's source range is the text that it was read from.
use zlvm.Prelude.{
  ℕ, ◌<◌, ◌≡◌, inl, inr, Bool, true, false, not, List, [], ◌∷◌, ◌++◌, none, ◌==◌, if◌then◌else◌,
  arith, length, Option-cases,
}
use zlvm.Outcome.{Outcome, accepted}
use zlvm.Prelude.{List-cases, if_split}
use zlvm.Asm.{
  TokenType, Failure, asm_token_fail, tok_string_literal, tok_char_literal, tok_id, tok_label_init,
}
use zlvm.Asm.Lexer.{
  newline, is_ignored_char, is_token_end, is_word_end, is_dec_char, Place, Origin, next_place,
  scan_while, word_stops, scan_word,
}
use zlvm.Asm.Lexer.Read.{
  Lexeme, read_quoted, read_number, prefix_type, label_text, read_word, read_lexeme,
}
use zlvm.Asm.Lexer.Span.{
  Reads, Reads-nil, Reads-cons, Reads-append, scan_while-Reads, scan_word-Reads, scan_word_first,
  scan_while_first,
}

-- At least one character is read.
abbrev pub Takes : List ℕ → Place → List ℕ → Place → Type 0
Takes source start rest stop = (raw : List ℕ) × Reads source start raw rest stop × (0 < length raw)

-- A character, and what a loop passes over after it.
after_mark :
    (continues : ℕ → Bool) (c : ℕ) (cs : List ℕ) (start : Place)
    → let s = scan_while continues cs (next_place c start) in Takes (c ∷ cs) start s.rest s.place
after_mark continues c cs start =
    let s = scan_while continues cs (next_place c start) in
    (
      c ∷ s.text,
      Reads-cons c cs s.text s.rest start s.place
          (scan_while-Reads continues cs (next_place c start)),
      omega arith,
    )

one_char : (c : ℕ) (cs : List ℕ) (start : Place) → Takes (c ∷ cs) start cs (next_place c start)
one_char c cs start =
    (c ∷ [], Reads-cons c cs [] cs start (next_place c start) (Reads-nil cs _), omega arith)

read_quoted-Takes :
    (o : Origin) (start : Place) (type : TokenType) (quote : ℕ) (cs : List ℕ) (l : Lexeme)
    → read_quoted o start type quote cs ≡ accepted l
    → Takes (quote ∷ cs) start l.rest l.place
unfolding read_quoted asm_token_fail
read_quoted-Takes o start type quote cs l h =
    let s = scan_while (λ d. not (d == quote)) cs (next_place quote start) in
    let text = scan_while-Reads (λ d. not (d == quote)) cs (next_place quote start) in
    elim (List-cases s.rest) [
      | inl e ↦ let bad = rw (e, read_quoted) at h in absurd cc
      | inr (d, more, e) ↦
          let found = rw (e, read_quoted) at h in
          let whole : l
              ≡ record { type = type; value = s.text; rest = more; place = next_place d s.place } =
            cc in
          let closing : Reads s.rest s.place (d ∷ []) more (next_place d s.place) =
            rw e (Reads-cons d more [] more s.place _ (Reads-nil more _)) in
          rw whole (
            (quote ∷ s.text) ++ (d ∷ []),
            Reads-append (quote ∷ cs) (quote ∷ s.text) s.rest (d ∷ []) more start s.place _
                (Reads-cons quote cs s.text s.rest start s.place text) closing,
            omega arith,
          )
    ]

-- The digits themselves, from a character that does not end them.
digits-Takes :
    (c : ℕ) (cs : List ℕ) (start : Place)
    → is_token_end c ≡ false
    → let s = scan_while (λ d. not (is_token_end d)) (c ∷ cs) start in
      Takes (c ∷ cs) start s.rest s.place
digits-Takes c cs start h = (
  (scan_while (λ d. not (is_token_end d)) (c ∷ cs) start).text,
  scan_while-Reads (λ d. not (is_token_end d)) (c ∷ cs) start,
  scan_while_first (λ d. not (is_token_end d)) c cs start (ground arith),
)

read_number-Takes :
    (c : ℕ) (cs : List ℕ) (start : Place)
    → is_token_end c ≡ false
    → let l = read_number c cs start in Takes (c ∷ cs) start l.rest l.place
unfolding read_number
read_number-Takes c [] start h = digits-Takes c [] start h
read_number-Takes c (d ∷ cs) start h =
    elim (Option-cases (if c == b'0' then prefix_type d else none)) [
      | inl e ↦ rw (e, read_number) (digits-Takes c (d ∷ cs) start h)
      | inr (type, e) ↦
          let p = next_place d (next_place c start) in
          let s = scan_while (λ d. not (is_token_end d)) cs p in
          rw (e, read_number)
            (
              c ∷ d ∷ s.text,
              Reads-cons c (d ∷ cs) (d ∷ s.text) s.rest start s.place (
                  Reads-cons d cs s.text s.rest (next_place c start) s.place
                    (scan_while-Reads _ cs p)),
              omega arith,
            )
    ]

read_word-Takes :
    (o : Origin) (c : ℕ) (cs : List ℕ) (start : Place) (l : Lexeme)
    → is_word_end c ≡ false
    → read_word o c cs start ≡ accepted l
    → Takes (c ∷ cs) start l.rest l.place
unfolding read_word asm_token_fail word_stops
read_word-Takes o c cs start l first h =
    let s = (scan_word none (c ∷ cs) start).0 in
    let taken : Takes (c ∷ cs) start s.rest s.place =
      (s.text, scan_word-Reads none (c ∷ cs) start, scan_word_first c cs start first) in
    elim (Option-cases (scan_word none (c ∷ cs) start).1) [
      | inr (q, e) ↦ let bad = rw (e, read_word) at h in absurd cc
      | inl e ↦ elim (Option-cases (label_text s.text)) [
        | inl plain ↦
            let found = rw (e, plain, read_word) at h in
            let whole : l
                ≡ record { type = tok_id; value = s.text; rest = s.rest; place = s.place } =
              cc in
            rw whole taken
        | inr (text, label) ↦
            let found = rw (e, label, read_word) at h in
            let whole : l
                ≡ record { type = tok_label_init; value = text; rest = s.rest; place = s.place } =
              cc in
            rw whole taken
      ]
    ]

number_starts : (c : ℕ) → is_dec_char c ≡ true → is_ignored_char c ≡ false → is_token_end c ≡ false
unfolding is_dec_char is_token_end
number_starts c h kept = ground arith

word_starts :
    (c : ℕ)
    → is_ignored_char c ≡ false
    → (c == newline) ≡ false
    → (c == b',') ≡ false
    → is_word_end c ≡ false
unfolding is_word_end
word_starts c kept e1 e2 = ground arith

-- What holds of every lexeme that a branch may give.
abbrev Gives : List ℕ → Place → Outcome Failure Lexeme → Type 0
Gives source start r = (l : Lexeme) → r ≡ accepted l → Takes source start l.rest l.place

accepted-Gives :
    (source : List ℕ) (start : Place) (l : Lexeme)
    → Takes source start l.rest l.place
    → Gives source start (accepted l)
accepted-Gives source start l t k h = let same : k ≡ l = cc in rw same t

-- A character that is not ignored starts a lexeme of at least one character.
pub read_lexeme-Takes :
    (o : Origin) (c : ℕ) (cs : List ℕ) (start : Place)
    → is_ignored_char c ≡ false
    → Gives (c ∷ cs) start (read_lexeme o c cs start)
unfolding read_lexeme
read_lexeme-Takes o c cs start kept =
    let P = Gives (c ∷ cs) start in
    let give = accepted-Gives (c ∷ cs) start in
    if_split P (c == newline) (λ e. give _ (one_char c cs start))
      (λ e1.
        if_split P (c == b',') (λ e. give _ (one_char c cs start))
          (λ e2.
            if_split P (c == b';') (λ e. give _ (after_mark (λ d. not (d == newline)) c cs start))
              (λ e3.
                if_split P (c == b'#')
                  (λ e. give _ (after_mark (λ d. not (is_word_end d)) c cs start))
                  (λ e4.
                    if_split P (c == b'$')
                      (λ e. give _ (after_mark (λ d. not (is_word_end d)) c cs start))
                      (λ e5.
                        if_split P (c == b'.')
                          (λ e. give _ (after_mark (λ d. not (is_word_end d)) c cs start))
                          (λ e6.
                            if_split P (c == b'"')
                              (λ e l h. read_quoted-Takes o start tok_string_literal c cs l h)
                              (λ e7.
                                if_split P (c == b'\'')
                                  (λ e l h. read_quoted-Takes o start tok_char_literal c cs l h)
                                  (λ e8.
                                    if_split P (is_dec_char c)
                                      (λ e.
                                        give _
                                          (read_number-Takes c cs start (number_starts c e kept)))
                                      (λ e9 l h.
                                        read_word-Takes o c cs start l (word_starts c kept e1 e2)
                                          h)))))))))
