-- ===== src/Asm/Macros.antt =====
-- Macros: the definitions and the small functions of asm/src/Macros.c.
pub mod Capture
pub mod Expand
pub mod Removed
pub mod Total
pub mod Unchanged
use zlvm.Prelude.{ℕ, ◌+◌, Bool, true, false, ◌&&◌, List, [], ◌∷◌, Option, none, some, if◌then◌else◌}
use zlvm.Prelude.Names.{same_name}
use zlvm.Asm.{TokenType, tok_newline, tok_directive, Token}

-- A macro's body is the tokens before its .endmacro.
pub record Macro : Type 0 where
  pub name : Token
  pub parameters : List Token
  pub body : List Token

abbrev is_directive_type : TokenType → Bool
is_directive_type tok_directive = true
is_directive_type _ = false

unfoldable pub is_directive : Token → List ℕ → Bool
is_directive t name = is_directive_type t.type && same_name t.value name

-- `none` is a NULL location.
unfoldable pub clone_token : Token → Option Token → Token
clone_token t none = t
clone_token t (some location) = record t {
  pos = location.pos;
  line = location.line;
  col = location.col;
  source_size = location.source_size;
}

unfoldable pub find_macro : List Macro → List ℕ → Option Macro
find_macro [] name = none
find_macro (macro ∷ macros) name =
    let rest = find_macro macros name in
    if same_name macro.name.value name then some macro else rest

abbrev is_end_of_line : TokenType → Bool
is_end_of_line tok_newline = true
is_end_of_line _ = false

-- line_end: the tokens before the end of the line, and those from it on.
unfoldable pub before_line_end : List Token → List Token
before_line_end [] = []
before_line_end (t ∷ tokens) =
    let rest = before_line_end tokens in if is_end_of_line t.type then [] else t ∷ rest

unfoldable pub line_end : List Token → List Token
line_end [] = []
line_end (t ∷ tokens) =
    let rest = line_end tokens in if is_end_of_line t.type then t ∷ tokens else rest

-- `end == NULL ? NULL : end->next`
abbrev pub next_of : List Token → List Token
next_of [] = []
next_of (t ∷ tokens) = tokens

-- `none` is the number of the parameters.
unfoldable pub parameter_index : List Token → ℕ → List ℕ → Option ℕ
parameter_index [] index name = none
parameter_index (parameter ∷ parameters) index name =
    let rest = parameter_index parameters (index + 1) name in
    if same_name parameter.value name then some index else rest
