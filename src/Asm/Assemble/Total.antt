-- ===== src/Asm/Assemble/Total.antt =====
-- assemble_source (asm/src/zlasm.c) comes to an end.
use zlvm.Prelude.{ℕ, ◌≡◌, refl, Bool, List, Option, none, some}
use zlvm.Outcome.{Outcome, refused, accepted}
use zlvm.Asm.{Failure}
use zlvm.Asm.Lexer.Read.{lex_source}
use zlvm.Asm.Lexer.Total.{lex_source_total}
use zlvm.Asm.Macros.Expand.{macros_expand}
use zlvm.Asm.Macros.Total.{macros_expand_total}
use zlvm.Asm.Parser.{parser_parse}
use zlvm.Asm.Parser.Total.{parser_parse_total}
use zlvm.Asm.Assemble.{Assembled, then_pass, assemble_lines, assemble_source}

-- A result that is there, whatever it is.
abbrev Ends {ℓ} : {A : Type ℓ} → Option (Outcome Failure A) → Type ℓ
Ends {A} o = (r : Outcome Failure A) × (o ≡ some r)

then_pass_total {ℓ κ} :
    {A : Type ℓ} {B : Type κ} (o : Option (Outcome Failure A)) (f : A → Option (Outcome Failure B))
    → Ends o
    → ((a : A) → Ends (f a))
    → Ends (then_pass o f)
unfolding then_pass
then_pass_total none f h each = absurd cc
then_pass_total (some (refused e)) f h each = (refused e, refl)
then_pass_total (some (accepted a)) f h each = each a

-- The assembler comes to an end on every source, with an output or with a diagnostic.
pub assemble_source_total :
    (is_object : Bool) (source : List ℕ)
    → (r : Outcome Failure Assembled) × (assemble_source is_object source ≡ some r)
unfolding assemble_source
assemble_source_total is_object source =
    then_pass_total (lex_source source) _ (lex_source_total source) (λ tokens.
      then_pass_total (macros_expand tokens) _ (macros_expand_total tokens) (λ expanded.
        then_pass_total (parser_parse expanded) _ (parser_parse_total expanded)
          (λ lines. (assemble_lines is_object lines, refl))))
