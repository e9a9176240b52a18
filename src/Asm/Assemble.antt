-- ===== src/Asm/Assemble.antt =====
-- assemble_source of asm/src/zlasm.c: the passes in their order. An object file is the image that
-- asm_translate_object encodes.
pub mod Total
use zlvm.Prelude.{ℕ, Bool, List, Option, none, some, if◌then◌else◌}
use zlvm.Outcome.{Outcome, refused, accepted, and_then}
use zlvm.Image.{Image}
use zlvm.Asm.{Failure}
use zlvm.Asm.Lexer.Read.{lex_source}
use zlvm.Asm.Macros.Expand.{macros_expand}
use zlvm.Asm.Parser.{Line, parser_parse}
use zlvm.Asm.Sections.{AssemblerContext, asm_init}
use zlvm.Asm.Sections.Process.{asm_process_directives}
use zlvm.Asm.Sections.Labels.{asm_process_labels}
use zlvm.Asm.Translate.{asm_translate}
use zlvm.Asm.Object.{object_image}

-- What assemble_source returns.
pub data Assembled : Type 0 where
  flat : List ℕ → Assembled
  object : Image → Assembled

-- A pass after one that may use up its fuel, or leave with a diagnostic.
unfoldable pub then_pass {ℓ κ} :
    {A : Type ℓ} {B : Type κ}
    → Option (Outcome Failure A)
    → (A → Option (Outcome Failure B))
    → Option (Outcome Failure B)
then_pass none f = none
then_pass (some (refused e)) f = some (refused e)
then_pass (some (accepted a)) f = f a

unfoldable pub translate_program : Bool → AssemblerContext → Outcome Failure Assembled
unfolding asm_process_labels asm_translate object_image
translate_program is_object context = and_then (asm_process_labels context.lines) (λ labels.
    if is_object
    then and_then (object_image context) (λ image. accepted (object image))
    else and_then (asm_translate labels context.lines) (λ bytes. accepted (flat bytes)))

unfoldable pub assemble_lines : Bool → List Line → Outcome Failure Assembled
unfolding asm_process_directives asm_init translate_program
assemble_lines is_object lines =
    and_then (asm_process_directives asm_init lines) (translate_program is_object)

unfoldable pub assemble_source : Bool → List ℕ → Option (Outcome Failure Assembled)
unfolding lex_source macros_expand parser_parse then_pass assemble_lines
assemble_source is_object source = then_pass (lex_source source) (λ tokens.
    then_pass (macros_expand tokens) (λ expanded.
      then_pass (parser_parse expanded) (λ lines. some (assemble_lines is_object lines))))
