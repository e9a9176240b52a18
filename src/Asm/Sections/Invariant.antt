-- ===== src/Asm/Sections/Invariant.antt =====
-- asm_processDirectives of asm/src/Assembler.c: every section lies in the ROM, every recorded line
-- in its section, and no two lines overlap.
use zlvm.Prelude.{
  ℕ, ◌+◌, ◌-◌, ◌≤◌, ◌≡◌, Bool, false, not, ◌||◌, List, [], ◌∷◌, ◌++◌, Option, none, some, ltb, ◌==◌,
  if◌then◌else◌, arith, word_max, size_t_max,
}
use zlvm.Outcome.{Outcome, refused, accepted, and_then-accepted}
use zlvm.Prelude.{if_split, ltb→ge, bit_and, bit_or}
use zlvm.Asm.{Token, Failure, asm_token_fail, section_error, output_too_large, range_of}
use zlvm.Asm.Literals.{token_get_int_value}
use zlvm.Asm.Directive.{
  DirectiveType, Directive, dir_section, dir_global, dir_extern, dir_align, dir_entry, dir_locate,
  dir_ascii, dir_asciiz, dir_byte, dir_hword, dir_word, dir_dword, dir_space, dir_macro,
  dir_endmacro, dir_proc, dir_endproc, dir_total, is_data_directive, directive_get_raw_data,
}
use zlvm.Asm.Parser.{Line, Content, stmt, dir, raw}
use zlvm.Asm.Sections.{
  AsmSection, AssemblerContext, asm_init, is_supported_section, validate_section_range, current,
  put_current, asm_add_global, asm_add_external,
}
use zlvm.Asm.Sections.Validate.{first_argument, validate_directive}
use zlvm.Asm.Sections.Process.{
  Procedures, with_context, align_section, locate_section, change_section, apply_type,
  apply_directive, line_label, record_content, process_content, process_line, is_empty,
  process_lines, asm_process_directives,
}
use zlvm.Asm.Sections.Places.{
  Fits, IsPlaced, put_current-IsPlaced, record_line-IsPlaced, select_section-IsPlaced,
  asm_init-IsPlaced, validate_section_range-Fits,
}

-- A section that a directive accepts lies in the ROM, and has not shrunk.
abbrev Grows : AsmSection → Outcome Failure AsmSection → Type 0
Grows s r = (t : AsmSection) → r ≡ accepted t → Fits t × (s.size ≤ t.size)

refused-Grows : (s : AsmSection) (f : Failure) → Grows s (refused f)
refused-Grows s f t h = absurd cc

range-Grows :
    (s u : AsmSection) (token : Option Token)
    → s.size ≤ u.size
    → Grows s (validate_section_range u token)
range-Grows s u token grows t h =
    let (fit, same) = validate_section_range-Fits u t token h in rw same (fit, grows)

-- The same for a section with other numbers.
sized-Grows :
    (s : AsmSection) (flags address alignment size : ℕ) (t : Token)
    → s.size ≤ size
    → Grows s (
        validate_section_range
          (record s { flags = flags; address = address; alignment = alignment; size = size })
          (some t))
sized-Grows s flags address alignment size t grows =
    range-Grows s
      (record s { flags = flags; address = address; alignment = alignment; size = size }) (some t)
      grows

align_section-Grows :
    (s : AsmSection) (alignment : ℕ) (t : Token) → Grows s (align_section s alignment t)
unfolding align_section asm_token_fail
align_section-Grows s alignment t =
    let remainder = bit_and s.size (alignment - 1) in
    let padding = if remainder == 0 then 0 else alignment - remainder in
    if_split (Grows s)
      (alignment == 0 || ltb word_max alignment || not (bit_and alignment (alignment - 1) == 0))
      (λ e. refused-Grows s (record { code = section_error; range = some (range_of t) }))
      (λ e.
        if_split (Grows s) (ltb (size_t_max - s.size) padding)
          (λ f. refused-Grows s (record { code = output_too_large; range = some (range_of t) }))
          (λ f.
            sized-Grows s s.flags s.address
              (if ltb s.alignment alignment then alignment else s.alignment) (s.size + padding) t
              (omega arith)))

locate_section-Grows :
    (s : AsmSection) (address : ℕ) (t : Token) → Grows s (locate_section s address t)
unfolding locate_section asm_token_fail
locate_section-Grows s address t =
    let refusal = refused-Grows s (record { code = section_error; range = some (range_of t) }) in
    if_split (Grows s) (ltb word_max address || ltb address s.address) (λ e. refusal)
      (λ e.
        if_split (Grows s) (s.size == 0)
          (λ f. sized-Grows s (bit_or s.flags 1) address s.alignment s.size t (omega arith))
          (λ f.
            if_split (Grows s) (ltb (address - s.address) s.size) (λ g. refusal)
              (λ g.
                sized-Grows s s.flags s.address s.alignment (address - s.address) t
                  (ltb→ge (address - s.address) s.size g))))

-- What holds of the context of every accepted round.
abbrev Keeps : Outcome Failure Procedures → Type 0
Keeps r = (q : Procedures) → r ≡ accepted q → IsPlaced q.context

refused-Keeps : (f : Failure) → Keeps (refused f)
refused-Keeps f q h = absurd cc

accepted-Keeps : (p : Procedures) → IsPlaced p.context → Keeps (accepted p)
accepted-Keeps p w q h = let same : q ≡ p = cc in rw same w

change_section-Keeps :
    (p : Procedures) (t : Token) (change : AsmSection → ℕ → Token → Outcome Failure AsmSection)
    → IsPlaced p.context
    → ((s : AsmSection) (value : ℕ) → Grows s (change s value t))
    → Keeps (change_section p t change)
change_section-Keeps p t change w grows q h =
    let (value, e, h1) = and_then-accepted (token_get_int_value t) _ h in
    let (s, e1, h2) = and_then-accepted (change (current p.context) value t) _ h1 in
    let (fit, grown) = grows (current p.context) value s e1 in
    accepted-Keeps (with_context p (put_current p.context s))
      (put_current-IsPlaced p.context s w fit grown) q h2

-- The parts of a context that a name goes to have no part in the invariant.
renamed :
    (c : AssemblerContext) (entry : Option (List ℕ)) (globals externals : List (List ℕ))
    → IsPlaced c
    → IsPlaced (record c { entry = entry; globals = globals; externals = externals })
renamed c entry globals externals w = record {
  fits = w.fits;
  selected = w.selected;
  inside = w.inside;
  in_order = w.in_order;
  sized = w.sized;
}

apply_type-Keeps :
    (type : DirectiveType) (p : Procedures) (d : Directive) (t : Token) (last : Bool)
    → IsPlaced p.context
    → Keeps (apply_type type p d t last)
unfolding apply_type asm_token_fail asm_add_global asm_add_external
apply_type-Keeps dir_section p d t last w =
    if_split Keeps (not (is_supported_section t.value)) (λ e. refused-Keeps _)
      (λ e. accepted-Keeps _ (select_section-IsPlaced p.context t.value w))
apply_type-Keeps dir_global p d t last w =
    accepted-Keeps _ (
      renamed p.context p.context.entry (p.context.globals ++ (t.value ∷ [])) p.context.externals w)
apply_type-Keeps dir_extern p d t last w =
    accepted-Keeps _ (
      renamed p.context p.context.entry p.context.globals (p.context.externals ++ (t.value ∷ [])) w)
apply_type-Keeps dir_align p d t last w =
    change_section-Keeps p t align_section w (λ s value. align_section-Grows s value t)
apply_type-Keeps dir_entry p d t last w =
    accepted-Keeps _ (renamed p.context (some t.value) p.context.globals p.context.externals w)
apply_type-Keeps dir_locate p d t last w =
    change_section-Keeps p t locate_section w (λ s value. locate_section-Grows s value t)
apply_type-Keeps dir_proc p d t last w =
    if_split Keeps last (λ e. refused-Keeps _) (λ e. accepted-Keeps _ w)
apply_type-Keeps dir_endproc p d t last w = accepted-Keeps _ w
apply_type-Keeps dir_macro p d t last w = accepted-Keeps _ w
apply_type-Keeps dir_endmacro p d t last w = accepted-Keeps _ w
apply_type-Keeps dir_ascii p d t last w = refused-Keeps _
apply_type-Keeps dir_asciiz p d t last w = refused-Keeps _
apply_type-Keeps dir_byte p d t last w = refused-Keeps _
apply_type-Keeps dir_hword p d t last w = refused-Keeps _
apply_type-Keeps dir_word p d t last w = refused-Keeps _
apply_type-Keeps dir_dword p d t last w = refused-Keeps _
apply_type-Keeps dir_space p d t last w = refused-Keeps _
apply_type-Keeps dir_total p d t last w = refused-Keeps _

record_content-Keeps :
    (p : Procedures) (line : Line) (label : Option (List ℕ)) (content : Content)
    → IsPlaced p.context
    → Keeps (record_content p line label content)
record_content-Keeps p line label content w q h =
    let (c, e, h1) = and_then-accepted _ _ h in
    accepted-Keeps (with_context p c) (record_line-IsPlaced p.context c _ w e) q h1

process_content-Keeps :
    (p : Procedures) (line : Line) (label : Option (List ℕ)) (content : Content) (last : Bool)
    → IsPlaced p.context
    → Keeps (process_content p line label content last)
unfolding process_content apply_directive
process_content-Keeps p line label (stmt s) last w q h =
    record_content-Keeps p line label (stmt s) w q h
process_content-Keeps p line label (raw bytes) last w q h =
    record_content-Keeps p line label (raw bytes) w q h
process_content-Keeps p line label (dir d) last w q h =
    let (checked, e, h1) = and_then-accepted (validate_directive d) _ h in
    if_split Keeps (is_data_directive checked.type)
      (λ _ r g.
        let (bytes, _, g1) = and_then-accepted (directive_get_raw_data checked) _ g in
        record_content-Keeps p line label (raw bytes) w r g1)
      (λ _. apply_type-Keeps checked.type p checked (first_argument checked) last w) q h1

process_lines-Keeps :
    (p : Procedures) (lines : List Line) → IsPlaced p.context → Keeps (process_lines p lines)
unfolding process_lines process_line
process_lines-Keeps p [] w q h = accepted-Keeps p w q h
process_lines-Keeps p (line ∷ lines) w q h =
    let (r, e, h1) = and_then-accepted (process_line p line (is_empty lines)) _ h in
    process_lines-Keeps r lines
      (process_content-Keeps p line (line_label p line.label) line.content (is_empty lines) w r e) q
      h1

-- Whatever the lines, where asm_processDirectives accepts them, every section lies in the ROM, every
-- recorded line lies in its section, and the lines of a section follow one another without overlap.
pub asm_process_directives-IsPlaced :
    (lines : List Line) (context : AssemblerContext)
    → asm_process_directives asm_init lines ≡ accepted context
    → IsPlaced context
unfolding asm_process_directives
asm_process_directives-IsPlaced lines context h =
    let start : Procedures = record {
      context = asm_init;
      procedure_context = none;
      relabel = false;
    } in
    let (p, e, h1) = and_then-accepted (process_lines start lines) _ h in
    let same : context ≡ p.context = cc in
    rw same (process_lines-Keeps start lines asm_init-IsPlaced p e)
