-- ===== src/Tests/Macros.antt =====
-- Macros, and the assembler as a whole, on a small program.
use zlvm.Prelude.{ℕ, ◌≡◌, refl, false, List, [], ◌∷◌, some, length, replicate, All}
use zlvm.Outcome.{Outcome, accepted, and_then}
use zlvm.Prelude.Names.{same_name}
use zlvm.Asm.{TokenType, tok_id, tok_newline, tok_comment, tok_directive, Token, Failure}
use zlvm.Asm.Text.{codes}
use zlvm.Asm.Macros.{
  is_directive, clone_token, find_macro, before_line_end, line_end, parameter_index,
}
use zlvm.Asm.Macros.Capture.{
  read_parameters, read_body, check_endmacro, capture_macro, capture_macros,
}
use zlvm.Asm.Macros.Expand.{
  read_line_arguments, all_arguments, read_arguments, substitute, macro_name, invoked,
  expand_tokens, is_expanding, expand_range, macros_expand,
}
use zlvm.Asm.Macros.Unchanged.{IsUnmarked, macros_expand_unchanged}
use zlvm.Asm.Macros.Removed.{IsPlain, macros_expand-IsPlain}
use zlvm.Asm.Assemble.{Assembled, assemble_source}
use zlvm.Asm.Assemble.Total.{assemble_source_total}

-- A definition that does not end.
abbrev unterminated : List ℕ
unterminated = codes ".macro m"

assemble_source_total_example :
    (r : Outcome Failure Assembled) × (assemble_source false unterminated ≡ some r)
assemble_source_total_example = assemble_source_total false unterminated

abbrev token : TokenType → List ℕ → ℕ → Token
token type value pos = record {
  type = type;
  size = length value;
  value = value;
  pos = pos;
  line = 1;
  col = 1;
  source_size = length value;
}

abbrev end_of_line : Token
end_of_line = token tok_newline (10 ∷ []) 0

abbrev program : List Token
program =
    token tok_directive (codes "macro") 0
    ∷ token tok_id (codes "two") 1
    ∷ end_of_line
    ∷ token tok_id (codes "nop") 2
    ∷ end_of_line
    ∷ token tok_directive (codes "endmacro") 3
    ∷ end_of_line
    ∷ token tok_id (codes "two") 4
    ∷ []

abbrev expanded : List Token
expanded =
    token tok_id (codes "nop") 4 ∷ record (token tok_newline (10 ∷ []) 4) { source_size = 3 } ∷ []

expansion : macros_expand program ≡ some (accepted expanded)
unfolding macros_expand capture_macros capture_macro is_directive same_name before_line_end line_end
    find_macro read_parameters read_body check_endmacro expand_range expand_tokens invoked
    macro_name is_expanding read_arguments read_line_arguments all_arguments replicate substitute
    parameter_index clone_token and_then
expansion = refl

macros_expand-IsPlain_example : All IsPlain expanded
macros_expand-IsPlain_example = macros_expand-IsPlain program expanded expansion

-- The comment starts with the mark; only an identifier may not.
abbrev unmarked : List Token
unmarked = token tok_id (codes "nop") 0 ∷ token tok_comment (codes "@todo") 1 ∷ end_of_line ∷ []

unmarked-IsUnmarked : All IsUnmarked unmarked
unfolding is_directive macro_name
unmarked-IsUnmarked = (
  record { no_macro = refl; no_endmacro = refl; no_mark = refl },
  (
    record { no_macro = refl; no_endmacro = refl; no_mark = refl },
    (record { no_macro = refl; no_endmacro = refl; no_mark = refl }, tt),
  ),
)

macros_expand_unchanged_example : macros_expand unmarked ≡ some (accepted unmarked)
macros_expand_unchanged_example = macros_expand_unchanged unmarked unmarked-IsUnmarked
