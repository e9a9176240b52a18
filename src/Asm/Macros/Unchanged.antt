-- ===== src/Asm/Macros/Unchanged.antt =====
-- asm/src/Macros.c: a program without macros is not changed.
use zlvm.Prelude.{
  ℕ, zero, suc, ◌+◌, ◌<◌, ◌≡◌, refl, ap, Bool, true, false, Bool-cases, ◌&&◌, ◌||◌, List, [], ◌∷◌,
  none, some, arith, length, All,
}
use zlvm.Outcome.{Outcome, accepted, and_then}
use zlvm.Asm.{Token, Failure}
use zlvm.Asm.Text.{codes}
use zlvm.Asm.Parser.{is_id, is_newline, is_label_init}
use zlvm.Asm.Macros.{Macro, is_directive, clone_token, find_macro}
use zlvm.Asm.Macros.Capture.{capture_macros}
use zlvm.Asm.Macros.Expand.{
  reading, macro_name, invoked, expand_tokens, expand_range, expand_macro, stack_is_full,
  macros_expand,
}

-- A token that neither starts nor ends a definition and, where it is an identifier, does not start
-- with the mark of an invocation.
pub record IsUnmarked (t : Token) : Type 0 where
  pub no_macro : is_directive t (codes "macro") ≡ false
  pub no_endmacro : is_directive t (codes "endmacro") ≡ false
  pub no_mark : is_id t.type && (macro_name t.value).0 ≡ false

capture_none :
    (fuel : ℕ) (tokens : List Token)
    → length tokens < fuel
    → All IsUnmarked tokens
    → capture_macros fuel [] tokens ≡ some (accepted [])
unfolding capture_macros
capture_none zero tokens h w = absurd (omega arith)
capture_none (suc fuel) [] h w = refl
capture_none (suc fuel) (t ∷ tokens) h w =
    rw (w.0.no_macro, capture_macros, w.0.no_endmacro) (capture_none fuel tokens (omega arith) w.1)

invoked_unmarked : (line_start : Bool) (t : Token) → IsUnmarked t → invoked [] line_start t ≡ none
unfolding invoked find_macro
invoked_unmarked line_start t w = ground (arith, w.no_mark, Bool-cases (is_id t.type))

expand_none :
    (expand : Macro → List Token → Token → Outcome Failure (List Token)) (line_start : Bool)
    (tokens : List Token)
    → All IsUnmarked tokens
    → expand_tokens expand [] none (reading line_start) tokens ≡ accepted tokens
unfolding expand_tokens clone_token and_then
expand_none expand line_start [] w = refl
expand_none expand line_start (t ∷ tokens) w =
    let next = is_newline t.type || (line_start && is_label_init t.type) in
    rw
      (
        w.0.no_macro,
        expand_tokens,
        invoked_unmarked line_start t w.0,
        expand_none expand next tokens w.1,
      )
      refl

expand_range_unmarked :
    (left : ℕ) (stack : List Macro) (tokens : List Token)
    → All IsUnmarked tokens
    → expand_range left stack [] none tokens ≡ accepted tokens
unfolding expand_range
expand_range_unmarked zero stack tokens w = expand_none stack_is_full true tokens w
expand_range_unmarked (suc left) stack tokens w =
    let body : List Macro → Token → List Token → Outcome Failure (List Token) =
      λ deeper invocation expanded. expand_range left deeper [] (some invocation) expanded in
    expand_none (expand_macro body stack) true tokens w

-- A program in which no token starts or ends the definition of a macro and no identifier starts
-- with the mark of an invocation is left as it is.
pub macros_expand_unchanged :
    (tokens : List Token) → All IsUnmarked tokens → macros_expand tokens ≡ some (accepted tokens)
unfolding macros_expand
macros_expand_unchanged tokens w =
    rw (capture_none (length tokens + 1) tokens (omega arith) w, macros_expand)
      (ap some (expand_range_unmarked 64 [] tokens w))
