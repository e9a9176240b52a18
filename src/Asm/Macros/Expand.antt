-- ===== src/Asm/Macros/Expand.antt =====
-- The expansion of macros: read_arguments, expand_macro, expand_range and macros_expand of
-- asm/src/Macros.c. A stack of 64 expansions bounds the recursion, so it needs no other fuel.
use zlvm.Prelude.{
  ℕ, zero, suc, ◌+◌, Bool, true, false, not, ◌&&◌, ◌||◌, List, [], ◌∷◌, ◌++◌, map, Option, none,
  some, ◌==◌, if◌then◌else◌, length, get_elem?, get_or, set, replicate,
}
use zlvm.Outcome.{Outcome, refused, accepted, and_then}
use zlvm.Prelude.Names.{same_name}
use zlvm.Asm.{
  TokenType, tok_id, tok_label_init, tok_label_use, Token, Failure, asm_token_fail,
  macro_invalid_argument, macro_recursion, macro_undefined,
}
use zlvm.Asm.Text.{codes}
use zlvm.Asm.Lexer.{Origin, first_place}
use zlvm.Asm.Lexer.Read.{lexer_read_token}
use zlvm.Asm.Parser.{is_id, is_comma, is_comment, is_newline, is_label_init}
use zlvm.Asm.Macros.{Macro, is_directive, clone_token, find_macro, before_line_end, parameter_index}
use zlvm.Asm.Macros.Capture.{capture_macros}

-- `strchr(value, '=')`: the texts before and after the mark.
unfoldable pub split_equals : List ℕ → Option (List ℕ × List ℕ)
split_equals [] = none
split_equals (c ∷ cs) =
    let rest = split_equals cs in
    if c == b'='
    then some ([], cs)
    else elim rest [ none ↦ none | some (name, value) ↦ some (c ∷ name, value) ]

-- The text after the mark holds one token, whose range is the invocation's.
unfoldable pub named_argument_value : List ℕ → Token → Outcome Failure Token
unfolding lexer_read_token clone_token
named_argument_value text invocation =
    let o : Origin = record {
      source_pos = invocation.pos;
      source_line = invocation.line;
      source_col = invocation.col;
    } in
    and_then (lexer_read_token o text first_place) (λ found. elim found [
      | none ↦ asm_token_fail macro_invalid_argument invocation
      | some (value, rest, place) ↦ and_then (lexer_read_token o rest place) (λ more. elim more [
        | none ↦ accepted (clone_token value (some invocation))
        | some again ↦ asm_token_fail macro_invalid_argument invocation
      ])
    ])

abbrev is_set : Option (Option Token) → Bool
is_set (some (some t)) = true
is_set _ = false

-- An argument `name=text`.
unfoldable pub set_named :
    Macro → Token → List (Option Token) → List ℕ → List ℕ → Outcome Failure (List (Option Token))
unfolding parameter_index named_argument_value get_elem? set
set_named macro invocation arguments [] text = asm_token_fail macro_invalid_argument invocation
set_named macro invocation arguments (c ∷ name) [] =
    asm_token_fail macro_invalid_argument invocation
set_named macro invocation arguments (c ∷ name) (d ∷ text) =
    elim (parameter_index macro.parameters 0 (c ∷ name)) [
      | none ↦ asm_token_fail macro_invalid_argument invocation
      | some index ↦
          if is_set (get_elem? arguments index)
          then asm_token_fail macro_invalid_argument invocation
          else and_then (named_argument_value (d ∷ text) invocation)
              (λ value. accepted (set arguments index (some value)))
    ]

-- The loop over the rest of the line, with positional_index and has_named_argument.
unfoldable pub read_line_arguments :
    Macro
    → Token
    → List (Option Token)
    → ℕ
    → Bool
    → List Token
    → Outcome Failure (List (Option Token))
unfolding split_equals set_named set
read_line_arguments macro invocation arguments positional named [] = accepted arguments
read_line_arguments macro invocation arguments positional named (t ∷ tokens) =
    if is_comment t.type
    then accepted arguments
    else if is_comma t.type
    then read_line_arguments macro invocation arguments positional named tokens
    else elim (if is_id t.type then split_equals t.value else none) [
      | some (name, text) ↦
          and_then (set_named macro invocation arguments name text)
            (λ more. read_line_arguments macro invocation more positional true tokens)
      | none ↦
          if named || positional == length macro.parameters
          then asm_token_fail macro_invalid_argument invocation
          else read_line_arguments macro invocation (set arguments positional (some t))
              (positional + 1) named tokens
    ]

-- Every parameter has its argument.
unfoldable pub all_arguments : Token → List (Option Token) → Outcome Failure (List Token)
all_arguments invocation [] = accepted []
all_arguments invocation (none ∷ arguments) = asm_token_fail macro_invalid_argument invocation
all_arguments invocation (some t ∷ arguments) =
    and_then (all_arguments invocation arguments) (λ rest. accepted (t ∷ rest))

unfoldable pub read_arguments : Macro → List Token → Token → Outcome Failure (List Token)
unfolding read_line_arguments all_arguments replicate
read_arguments macro tokens invocation =
    and_then
      (read_line_arguments macro invocation (replicate (length macro.parameters) none) 0 false
        tokens)
      (all_arguments invocation)

abbrev is_substituted : TokenType → Bool
is_substituted tok_id = true
is_substituted tok_label_use = true
is_substituted tok_label_init = true
is_substituted _ = false

-- A token of a body: the argument where it names a parameter, else itself.
unfoldable pub substitute : Macro → List Token → Token → Token → Token
unfolding parameter_index clone_token get_or
substitute macro values invocation t =
    elim (if is_substituted t.type then parameter_index macro.parameters 0 t.value else none) [
      | none ↦ clone_token t (some invocation)
      | some index ↦
          let expanded = clone_token (get_or values index t) (some invocation) in
          if is_label_init t.type then record expanded { type = tok_label_init } else expanded
    ]

-- What expand_range does with a token: its line may be an invocation's, which is passed over, or
-- a definition's, which is passed over up to the end of the line of .endmacro.
pub data Mode : Type 0 where
  reading : Bool → Mode
  skipping_line skipping_definition : Mode

-- `value[0] == '@'`, and the name without the mark.
unfoldable pub macro_name : List ℕ → Bool × List ℕ
macro_name [] = (false, [])
macro_name (c ∷ cs) = if c == b'@' then (true, cs) else (false, c ∷ cs)

-- Whether a token at the start of a line is an invocation: `none` where it is no macro's.
unfoldable pub invoked : List Macro → Bool → Token → Option (Outcome Failure Macro)
unfolding macro_name find_macro asm_token_fail
invoked macros line_start t =
    let (marked, name) = macro_name t.value in
    if not (line_start && is_id t.type) then none else elim (find_macro macros name) [
      | some macro ↦ some (accepted macro)
      | none ↦ if marked then some (asm_token_fail macro_undefined t) else none
    ]

-- The loop of expand_range over the tokens that are left; `expand` is expand_macro.
unfoldable pub expand_tokens :
    (Macro → List Token → Token → Outcome Failure (List Token))
    → List Macro
    → Option Token
    → Mode
    → List Token
    → Outcome Failure (List Token)
unfolding is_directive invoked before_line_end clone_token
expand_tokens expand macros location mode [] = accepted []
expand_tokens expand macros location skipping_line (t ∷ tokens) =
    expand_tokens expand macros location (if is_newline t.type then reading true else skipping_line)
      tokens
expand_tokens expand macros location skipping_definition (t ∷ tokens) =
    expand_tokens expand macros location
      (if is_directive t (codes "endmacro") then skipping_line else skipping_definition) tokens
expand_tokens expand macros location (reading line_start) (t ∷ tokens) =
    if is_directive t (codes "macro")
    then expand_tokens expand macros location skipping_definition tokens
    else elim (invoked macros line_start t) [
      | some (refused f) ↦ refused f
      | some (accepted macro) ↦ and_then (expand macro (before_line_end tokens) t) (λ body.
          and_then (expand_tokens expand macros location skipping_line tokens)
            (λ rest. accepted (body ++ rest)))
      | none ↦
          let next = is_newline t.type || (line_start && is_label_init t.type) in
          and_then (expand_tokens expand macros location (reading next) tokens)
            (λ rest. accepted (clone_token t location ∷ rest))
    ]

-- Macros are compared by their addresses; their names are different, since a second definition of
-- a name is refused.
unfoldable pub is_expanding : List Macro → Macro → Bool
is_expanding [] macro = false
is_expanding (m ∷ stack) macro =
    let rest = is_expanding stack macro in same_name m.name.value macro.name.value || rest

-- expand_macro with a full stack; the message of a recursive macro is another one.
unfoldable pub stack_is_full : Macro → List Token → Token → Outcome Failure (List Token)
stack_is_full macro line invocation = asm_token_fail macro_recursion invocation

-- `expand_body` is the call of expand_range, on the stack with the macro on it.
unfoldable pub expand_macro :
    (List Macro → Token → List Token → Outcome Failure (List Token))
    → List Macro
    → Macro
    → List Token
    → Token
    → Outcome Failure (List Token)
unfolding read_arguments substitute is_expanding asm_token_fail
expand_macro expand_body stack macro line invocation =
    if is_expanding stack macro
    then asm_token_fail macro_recursion invocation
    else and_then (read_arguments macro line invocation) (λ values.
      expand_body (macro ∷ stack) invocation (map (substitute macro values invocation) macro.body))

-- expand_range with room for `left` more macros on the stack.
unfoldable pub expand_range :
    ℕ → List Macro → List Macro → Option Token → List Token → Outcome Failure (List Token)
unfolding expand_tokens expand_macro stack_is_full
expand_range zero stack macros location tokens =
    expand_tokens stack_is_full macros location (reading true) tokens
expand_range (suc left) stack macros location tokens =
    expand_tokens
      (expand_macro
        (λ deeper invocation body. expand_range left deeper macros (some invocation) body) stack)
      macros location (reading true) tokens

abbrev max_expansions : ℕ
max_expansions = 64

unfoldable pub macros_expand : List Token → Option (Outcome Failure (List Token))
unfolding capture_macros expand_range
macros_expand tokens = elim (capture_macros (length tokens + 1) [] tokens) [
  | none ↦ none
  | some (refused f) ↦ some (refused f)
  | some (accepted macros) ↦ some (expand_range max_expansions [] macros none tokens)
]
