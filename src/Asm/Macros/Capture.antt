-- ===== src/Asm/Macros/Capture.antt =====
-- capture_macros (asm/src/Macros.c): the definitions of a program.
use zlvm.Prelude.{ℕ, zero, suc, not, List, [], ◌∷◌, ◌++◌, Option, none, some, if◌then◌else◌}
use zlvm.Outcome.{Outcome, refused, accepted, and_then}
use zlvm.Asm.{Token, Failure, asm_token_fail, macro_invalid_argument, macro_duplicate_definition}
use zlvm.Asm.Text.{codes}
use zlvm.Asm.Parser.{is_id, is_comma, is_comment}
use zlvm.Asm.Macros.{
  Macro, is_directive, find_macro, before_line_end, line_end, next_of, parameter_index,
}

unfoldable pub add_parameter : List Token → Token → Outcome Failure (List Token)
unfolding parameter_index
add_parameter parameters t =
    if not (is_id t.type)
    then asm_token_fail macro_invalid_argument t
    else elim (parameter_index parameters 0 t.value) [
      | some index ↦ asm_token_fail macro_invalid_argument t
      | none ↦ accepted (parameters ++ (t ∷ []))
    ]

-- The loop over the header up to a comment.
unfoldable pub read_parameters : List Token → List Token → Outcome Failure (List Token)
unfolding add_parameter
read_parameters parameters [] = accepted parameters
read_parameters parameters (t ∷ header) =
    if is_comment t.type
    then accepted parameters
    else if is_comma t.type
    then read_parameters parameters header
    else and_then (add_parameter parameters t) (λ more. read_parameters more header)

-- The loop over the body: its tokens, and what follows from .endmacro on.
unfoldable pub read_body : Token → List Token → Outcome Failure (List Token × List Token)
unfolding is_directive
read_body name [] = asm_token_fail macro_invalid_argument name
read_body name (t ∷ tokens) =
    if is_directive t (codes "endmacro")
    then accepted ([], t ∷ tokens)
    else if is_directive t (codes "macro")
    then asm_token_fail macro_invalid_argument t
    else and_then (read_body name tokens)
        (λ found. let (body, rest) = found in accepted (t ∷ body, rest))

-- Only comments may stand after .endmacro.
unfoldable pub check_endmacro : List Token → Outcome Failure (List Token)
check_endmacro [] = accepted []
check_endmacro (t ∷ tokens) =
    let rest = check_endmacro tokens in
    if not (is_comment t.type) then asm_token_fail macro_invalid_argument t else rest

-- The tokens after `definition`, which is a .macro: its macro, and what follows the definition.
unfoldable pub capture_macro :
    List Macro → Token → List Token → Outcome Failure (Macro × List Token)
unfolding before_line_end line_end find_macro read_parameters read_body check_endmacro
capture_macro macros definition tokens = elim (before_line_end tokens) [
  | [] ↦ asm_token_fail macro_invalid_argument definition
  | name ∷ header ↦
      if not (is_id name.type)
      then asm_token_fail macro_invalid_argument definition
      else elim (find_macro macros name.value) [
        | some macro ↦ asm_token_fail macro_duplicate_definition name
        | none ↦ and_then (read_parameters [] header) (λ parameters.
            and_then (read_body name (next_of (line_end tokens))) (λ found.
              let (body, ending) = found in
              and_then (check_endmacro (before_line_end (next_of ending))) (λ _. accepted (
                record { name = name; parameters = parameters; body = body },
                next_of (line_end ending),
              ))))
      ]
]

-- The loop, on fuel: the newest macro first; `none` where the fuel runs out.
unfoldable pub capture_macros : ℕ → List Macro → List Token → Option (Outcome Failure (List Macro))
unfolding capture_macro is_directive
capture_macros zero macros tokens = none
capture_macros (suc fuel) macros [] = some (accepted macros)
capture_macros (suc fuel) macros (t ∷ tokens) =
    if is_directive t (codes "macro")
    then elim (capture_macro macros t tokens) [
      | refused f ↦ some (refused f)
      | accepted (macro, after) ↦ capture_macros fuel (macro ∷ macros) after
    ]
    else if is_directive t (codes "endmacro")
    then some (asm_token_fail macro_invalid_argument t)
    else capture_macros fuel macros tokens
