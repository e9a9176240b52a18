-- ===== src/Asm/Lexer/Span.antt =====
-- asm/src/Lexer.c: what the scanning loops pass over is a prefix of the source, and the place moves
-- over its characters.
use mathlib.Core.List.{append_assoc}
use zlvm.Prelude.{
  ℕ, ◌+◌, ◌<◌, ◌≡◌, refl, sym, ap, ◌∙◌, inl, inr, Bool, true, false, List, [], ◌∷◌, ◌++◌, Option,
  none, arith, length, All, Bool-cases,
}
use zlvm.Asm.Lexer.{Place, next_place, scan_while, word_quote, word_stops, scan_word}

-- lexer_nextChar for each character of a text.
unfoldable pub walk : List ℕ → Place → Place
walk [] p = p
walk (c ∷ cs) p = walk cs (next_place c p)

pub walk-append : (xs ys : List ℕ) (p : Place) → walk (xs ++ ys) p ≡ walk ys (walk xs p)
unfolding walk
walk-append [] ys p = refl
walk-append (x ∷ xs) ys p = walk-append xs ys (next_place x p)

pub walk-pos : (xs : List ℕ) (p : Place) → (walk xs p).pos ≡ p.pos + length xs
unfolding walk next_place
walk-pos [] p = omega arith
walk-pos (x ∷ xs) p = ground (arith, walk-pos xs (next_place x p))

-- A text is read from a source at a place, and another text and place are left.
pub record Reads (source : List ℕ) (start : Place) (text rest : List ℕ) (stop : Place)
    : Type 0 where
  pub split : source ≡ text ++ rest
  pub moved : stop ≡ walk text start

pub Reads-nil : (source : List ℕ) (p : Place) → Reads source p [] source p
unfolding walk
Reads-nil source p = record { split = refl; moved = refl }

pub Reads-cons :
    (c : ℕ) (cs text rest : List ℕ) (p stop : Place)
    → Reads cs (next_place c p) text rest stop
    → Reads (c ∷ cs) p (c ∷ text) rest stop
unfolding walk
Reads-cons c cs text rest p stop r = record { split = ap (λ xs. c ∷ xs) r.split; moved = r.moved }

pub Reads-append :
    (source xs middle ys rest : List ℕ) (p q stop : Place)
    → Reads source p xs middle q
    → Reads middle q ys rest stop
    → Reads source p (xs ++ ys) rest stop
Reads-append source xs middle ys rest p q stop r s = record {
  split = r.split ∙ ap (λ zs. xs ++ zs) s.split ∙ sym (append_assoc xs ys rest);
  moved = s.moved ∙ ap (walk ys) r.moved ∙ sym (walk-append xs ys p);
}

pub scan_while-Reads :
    (continues : ℕ → Bool) (source : List ℕ) (p : Place)
    → let s = scan_while continues source p in Reads source p s.text s.rest s.place
unfolding scan_while
scan_while-Reads continues [] p = Reads-nil [] p
scan_while-Reads continues (c ∷ cs) p = elim (Bool-cases (continues c)) [
  | inl e ↦ rw e (Reads-cons c cs _ _ p _ (scan_while-Reads continues cs (next_place c p)))
  | inr e ↦ rw e (Reads-nil (c ∷ cs) p)
]

-- The loop passes over characters that continue it, and stops at one that does not.
pub scan_while-All :
    (continues : ℕ → Bool) (source : List ℕ) (p : Place)
    → All (λ c. continues c ≡ true) (scan_while continues source p).text
unfolding scan_while
scan_while-All continues [] p = tt
scan_while-All continues (c ∷ cs) p = elim (Bool-cases (continues c)) [
  | inl e ↦ rw e (e, scan_while-All continues cs (next_place c p))
  | inr e ↦ rw e tt
]

pub scan_while_stop :
    (continues : ℕ → Bool) (source : List ℕ) (p : Place) (c : ℕ) (cs : List ℕ)
    → (scan_while continues source p).rest ≡ c ∷ cs
    → continues c ≡ false
unfolding scan_while
scan_while_stop continues [] p c cs h = absurd cc
scan_while_stop continues (d ∷ ds) p c cs h =
    ground (arith, scan_while_stop continues ds (next_place d p) c cs)

pub scan_word-Reads :
    (quote : Option ℕ) (source : List ℕ) (p : Place)
    → let s = (scan_word quote source p).0 in Reads source p s.text s.rest s.place
unfolding scan_word
scan_word-Reads quote [] p = Reads-nil [] p
scan_word-Reads quote (c ∷ cs) p = elim (Bool-cases (word_stops quote c)) [
  | inl e ↦ rw e (Reads-nil (c ∷ cs) p)
  | inr e ↦
      rw e (Reads-cons c cs _ _ p _ (scan_word-Reads (word_quote quote c) cs (next_place c p)))
]

-- A word of at least one character.
pub scan_word_first :
    (c : ℕ) (cs : List ℕ) (p : Place)
    → word_stops none c ≡ false
    → 0 < length (scan_word none (c ∷ cs) p).0.text
unfolding scan_word
scan_word_first c cs p e = rw e (omega arith)

pub scan_while_first :
    (continues : ℕ → Bool) (c : ℕ) (cs : List ℕ) (p : Place)
    → continues c ≡ true
    → 0 < length (scan_while continues (c ∷ cs) p).text
unfolding scan_while
scan_while_first continues c cs p e = rw e (omega arith)
