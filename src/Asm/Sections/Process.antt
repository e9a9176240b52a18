-- ===== src/Asm/Sections/Process.antt =====
-- asm_processDirectives (asm/src/Assembler.c): every directive's effect, line by line.
use zlvm.Prelude.{
  ℕ, ◌+◌, ◌-◌, Bool, true, false, not, ◌||◌, List, [], ◌∷◌, Option, none, some, ltb, ◌==◌,
  if◌then◌else◌, word_max, size_t_max,
}
use zlvm.Outcome.{Outcome, accepted, and_then}
use zlvm.Prelude.{bit_and, bit_or}
use zlvm.Asm.{Token, Failure, asm_token_fail, invalid_directive, output_too_large, section_error}
use zlvm.Asm.Literals.{token_get_int_value}
use zlvm.Asm.Directive.{
  DirectiveType, Directive, dir_section, dir_global, dir_extern, dir_align, dir_entry, dir_locate,
  dir_macro, dir_endmacro, dir_proc, dir_endproc, is_data_directive, directive_get_raw_data,
}
use zlvm.Asm.Parser.{Line, Content, stmt, dir, raw}
use zlvm.Asm.Sections.{
  AsmSection, AssemblerContext, select_section, is_supported_section, validate_section_range,
  current, put_current, record_line, asm_add_global, asm_add_external, set_label_context,
}
use zlvm.Asm.Sections.Validate.{first_argument, validate_directive}

-- Whether .proc has replaced the next line's label by the empty one, and the procedure's name.
pub record Procedures : Type 0 where
  pub context : AssemblerContext
  pub procedure_context : Option (List ℕ)
  pub relabel : Bool

abbrev pub with_context : Procedures → AssemblerContext → Procedures
with_context p context = record {
  context = context;
  procedure_context = p.procedure_context;
  relabel = false;
}

-- `a + padding` where a section's size is no multiple of the alignment.
unfoldable pub align_section : AsmSection → ℕ → Token → Outcome Failure AsmSection
unfolding validate_section_range
align_section s alignment t =
    if alignment == 0 || ltb word_max alignment || not (bit_and alignment (alignment - 1) == 0)
    then asm_token_fail section_error t
    else let remainder = bit_and s.size (alignment - 1) in
      let padding = if remainder == 0 then 0 else alignment - remainder in
      if ltb (size_t_max - s.size) padding
      then asm_token_fail output_too_large t
      else validate_section_range
          (record s {
            size = s.size + padding;
            alignment = if ltb s.alignment alignment then alignment else s.alignment;
          })
          (some t)

unfoldable pub locate_section : AsmSection → ℕ → Token → Outcome Failure AsmSection
unfolding validate_section_range
locate_section s address t =
    if ltb word_max address || ltb address s.address
    then asm_token_fail section_error t
    else if s.size == 0
    then validate_section_range (record s { address = address; flags = bit_or s.flags 1 }) (some t)
    else if ltb (address - s.address) s.size
    then asm_token_fail section_error t
    else validate_section_range (record s { size = address - s.address }) (some t)

-- A new value of the current section from the directive's integer.
abbrev pub change_section :
    Procedures
    → Token
    → (AsmSection → ℕ → Token → Outcome Failure AsmSection)
    → Outcome Failure Procedures
change_section p t change = and_then (token_get_int_value t) (λ value.
    and_then (change (current p.context) value t)
      (λ s. accepted (with_context p (put_current p.context s))))

-- The switch on the type of a directive that emits no bytes. `last` says that no line follows.
unfoldable pub apply_type :
    DirectiveType → Procedures → Directive → Token → Bool → Outcome Failure Procedures
unfolding is_supported_section select_section asm_add_global asm_add_external align_section
    locate_section current put_current
apply_type dir_section p d t last =
    if not (is_supported_section t.value)
    then asm_token_fail section_error t
    else let (context, index) = select_section p.context t.value in
      accepted (with_context p (record context { current_section = index }))
apply_type dir_global p d t last = accepted (with_context p (asm_add_global p.context t.value))
apply_type dir_extern p d t last = accepted (with_context p (asm_add_external p.context t.value))
apply_type dir_align p d t last = change_section p t align_section
apply_type dir_entry p d t last =
    accepted (with_context p (record p.context { entry = some t.value }))
apply_type dir_locate p d t last = change_section p t locate_section
apply_type dir_proc p d t last =
    if last
    then asm_token_fail invalid_directive d.name
    else accepted (record { context = p.context; procedure_context = some t.value; relabel = true })
apply_type dir_endproc p d t last =
    accepted (record { context = p.context; procedure_context = none; relabel = false })
apply_type dir_macro p d t last = accepted (with_context p p.context)
apply_type dir_endmacro p d t last = accepted (with_context p p.context)
apply_type _ p d t last = asm_token_fail invalid_directive d.name

unfoldable pub apply_directive : Procedures → Directive → Bool → Outcome Failure Procedures
unfolding apply_type
apply_directive p d last = apply_type d.type p d (first_argument d) last

-- The label that a line has when its turn comes.
unfoldable pub line_label : Procedures → Option (List ℕ) → Option (List ℕ)
unfolding set_label_context
line_label p label = elim (if p.relabel then some [] else label) [
  | none ↦ none
  | some text ↦ elim p.procedure_context [
    | none ↦ some text
    | some context ↦ some (set_label_context context text)
  ]
]

abbrev pub record_content :
    Procedures → Line → Option (List ℕ) → Content → Outcome Failure Procedures
record_content p line label content =
    and_then (record_line p.context (record line { label = label; content = content }))
      (λ context. accepted (with_context p context))

-- The rest of a round, for a line whose label is set.
unfoldable pub process_content :
    Procedures → Line → Option (List ℕ) → Content → Bool → Outcome Failure Procedures
unfolding record_line validate_directive is_data_directive directive_get_raw_data apply_directive
process_content p line label (dir d) last = and_then (validate_directive d) (λ checked.
    if is_data_directive checked.type
    then and_then (directive_get_raw_data checked)
        (λ bytes. record_content p line label (raw bytes))
    else apply_directive p checked last)
process_content p line label (stmt s) last = record_content p line label (stmt s)
process_content p line label (raw bytes) last = record_content p line label (raw bytes)

-- One round of the loop.
unfoldable pub process_line : Procedures → Line → Bool → Outcome Failure Procedures
unfolding line_label process_content
process_line p line last = process_content p line (line_label p line.label) line.content last

abbrev pub is_empty {ℓ} : {A : Type ℓ} → List A → Bool
is_empty [] = true
is_empty (x ∷ xs) = false

unfoldable pub process_lines : Procedures → List Line → Outcome Failure Procedures
unfolding process_line
process_lines p [] = accepted p
process_lines p (line ∷ lines) =
    and_then (process_line p line (is_empty lines)) (λ q. process_lines q lines)

unfoldable pub asm_process_directives :
    AssemblerContext → List Line → Outcome Failure AssemblerContext
unfolding process_lines
asm_process_directives context lines =
    and_then
      (process_lines (record { context = context; procedure_context = none; relabel = false })
        lines)
      (λ p. accepted p.context)
