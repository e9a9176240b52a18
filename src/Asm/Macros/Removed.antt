-- ===== src/Asm/Macros/Removed.antt =====
-- asm/src/Macros.c: no definition of a macro is left after the expansion.

use zlvm.Prelude.{
  ℕ, zero, suc, ◌+◌, ◌≡◌, inl, inr, true, false, List, [], ◌∷◌, ◌++◌, map, Option, none, some,
  length, All, Bool-cases, Option-cases,
}
use zlvm.Outcome.{Outcome, refused, accepted, Outcome-cases, and_then-accepted}
use zlvm.Prelude.{if_split, All-append}
use zlvm.Asm.{Token, Failure, asm_token_fail, macro_recursion, range_of}
use zlvm.Asm.Text.{codes}
use zlvm.Asm.Macros.{Macro, is_directive, clone_token, before_line_end}
use zlvm.Asm.Macros.Capture.{capture_macros}
use zlvm.Asm.Macros.Expand.{
  Mode, reading, skipping_line, skipping_definition, invoked, expand_tokens, expand_range,
  expand_macro, stack_is_full, macros_expand, is_expanding, read_arguments, substitute,
}

-- A token that starts no definition.
abbrev pub IsPlain : Token → Type 0
IsPlain t = is_directive t (codes "macro") ≡ false

clone_token-IsPlain :
    (t : Token) (location : Option Token) → IsPlain t → IsPlain (clone_token t location)
unfolding clone_token is_directive
clone_token-IsPlain t none h = h
clone_token-IsPlain t (some l) h = h

-- What holds of every accepted expansion.
abbrev Clean : Outcome Failure (List Token) → Type 0
Clean r = (out : List Token) → r ≡ accepted out → All IsPlain out

expand_tokens-Clean :
    (expand : Macro → List Token → Token → Outcome Failure (List Token)) (macros : List Macro)
    (location : Option Token) (mode : Mode) (tokens : List Token)
    → ((m : Macro) (line : List Token) (t : Token) → Clean (expand m line t))
    → Clean (expand_tokens expand macros location mode tokens)
unfolding expand_tokens
expand_tokens-Clean expand macros location mode [] each out h = let one : out ≡ [] = cc in rw one tt
expand_tokens-Clean expand macros location skipping_line (t ∷ tokens) each out h =
    expand_tokens-Clean expand macros location _ tokens each out h
expand_tokens-Clean expand macros location skipping_definition (t ∷ tokens) each out h =
    expand_tokens-Clean expand macros location _ tokens each out h
expand_tokens-Clean expand macros location (reading line_start) (t ∷ tokens) each out h =
    elim (Bool-cases (is_directive t (codes "macro"))) [
      | inl e ↦
          expand_tokens-Clean expand macros location skipping_definition tokens each out
            (rw (e, expand_tokens) at h)
      | inr plain ↦ elim (Option-cases (invoked macros line_start t)) [
        | inl e ↦
            let found = rw (plain, expand_tokens, e) at h in
            let (rest, more, last) = and_then-accepted _ _ found in
            let one : out ≡ clone_token t location ∷ rest = cc in
            rw one (
              clone_token-IsPlain t location plain,
              expand_tokens-Clean expand macros location _ tokens each rest more,
            )
        | inr (r, e) ↦ elim (Outcome-cases r) [
          | inl (f, b) ↦ let bad = rw (plain, expand_tokens, e, b) at h in absurd cc
          | inr (macro, b) ↦
              let found = rw (plain, expand_tokens, e, b) at h in
              let (body, made, h1) = and_then-accepted _ _ found in
              let (rest, more, last) = and_then-accepted _ _ h1 in
              let one : out ≡ body ++ rest = cc in
              rw one (
                All-append IsPlain body rest (each macro (before_line_end tokens) t body made)
                  (expand_tokens-Clean expand macros location skipping_line tokens each rest more))
        ]
      ]
    ]

refused-Clean : (f : Failure) → Clean (refused f)
refused-Clean f out h = absurd cc

expand_range-Clean :
    (left : ℕ) (stack macros : List Macro) (location : Option Token) (tokens : List Token)
    → Clean (expand_range left stack macros location tokens)
unfolding expand_range expand_macro stack_is_full asm_token_fail
expand_range-Clean zero stack macros location tokens =
    expand_tokens-Clean stack_is_full macros location (reading true) tokens
      (λ m line t. refused-Clean (record { code = macro_recursion; range = some (range_of t) }))
expand_range-Clean (suc left) stack macros location tokens =
    let body : List Macro → Token → List Token → Outcome Failure (List Token) =
      λ deeper invocation expanded. expand_range left deeper macros (some invocation) expanded in
    expand_tokens-Clean (expand_macro body stack) macros location (reading true) tokens (λ m line t.
      if_split Clean (is_expanding stack m)
        (λ e. refused-Clean (record { code = macro_recursion; range = some (range_of t) }))
        (λ e out h.
          let (values, _, h1) = and_then-accepted (read_arguments m line t) _ h in
          expand_range-Clean left (m ∷ stack) macros (some t) (map (substitute m values t) m.body)
            out h1))

-- What the expansion of macros accepts holds no .macro, whatever the bodies and the arguments are.
pub macros_expand-IsPlain :
    (tokens out : List Token) → macros_expand tokens ≡ some (accepted out) → All IsPlain out
unfolding macros_expand
macros_expand-IsPlain tokens out h =
    elim (Option-cases (capture_macros (length tokens + 1) [] tokens)) [
      | inl e ↦ let bad = rw (e, macros_expand) at h in absurd cc
      | inr (r, e) ↦ elim (Outcome-cases r) [
        | inl (f, b) ↦ let bad = rw (e, macros_expand, b) at h in absurd cc
        | inr (macros, b) ↦
            let found = rw (e, macros_expand, b) at h in
            expand_range-Clean 64 [] macros none tokens out cc
      ]
    ]
