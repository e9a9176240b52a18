-- ===== src/Asm/Sections.antt =====
-- Sections, labels and the lines that fill them: asm/src/Assembler.c up to asm_processLabels, with
-- include/asm/Assembler.h and asm/src/LabelTable.c.
pub mod Validate
pub mod Process
pub mod Labels
pub mod Places
pub mod Invariant
use zlvm.Prelude.{
  ℕ, ◌+◌, ◌-◌, Bool, ◌||◌, List, [], ◌∷◌, ◌++◌, Option, none, some, ltb, if◌then◌else◌, length,
  get_or, set, size_t_max,
}
use zlvm.Outcome.{Outcome, accepted, and_then}
use zlvm.Prelude.Names.{same_name}
use zlvm.Asm.{Token, Failure, asm_fail, asm_token_fail, output_too_large, section_error}
use zlvm.Asm.Text.{codes}
use zlvm.Asm.Parser.{Line, Content, stmt, dir, raw}
use zlvm.Vm.{rom_size}
use zlvm.Image.{section_text, section_data, section_bss}

pub record AsmSection : Type 0 where
  pub name : List ℕ
  pub type : ℕ
  pub flags : ℕ
  pub address : ℕ
  pub alignment : ℕ
  pub size : ℕ

-- The fields of AssemblerContext; a count is the length of its list, and `none` is NULL. The label
-- table is made by asm_processLabels.
pub record AssemblerContext : Type 0 where
  pub entry : Option (List ℕ)
  pub globals : List (List ℕ)
  pub externals : List (List ℕ)
  pub lines : List Line
  pub sections : List AsmSection
  pub current_section : ℕ

abbrev section_type : List ℕ → ℕ
section_type name =
    if same_name name (codes ".bss") || same_name name (codes "bss")
    then section_bss
    else if same_name name (codes ".data") || same_name name (codes "data")
    then section_data
    else section_text

abbrev pub new_section : List ℕ → AsmSection
new_section name = record {
  name = name;
  type = section_type name;
  flags = 0;
  address = 0;
  alignment = 1;
  size = 0;
}

-- The loop over the sections from `index` on; the new section is the last one.
unfoldable pub find_section_named : List AsmSection → ℕ → List ℕ → Option ℕ
find_section_named [] index name = none
find_section_named (s ∷ sections) index name =
    let rest = find_section_named sections (index + 1) name in
    if same_name s.name name then some index else rest

unfoldable pub select_section : AssemblerContext → List ℕ → AssemblerContext × ℕ
unfolding find_section_named
select_section context name = elim (find_section_named context.sections 0 name) [
  | some index ↦ (context, index)
  | none ↦ (
    record context { sections = context.sections ++ (new_section name ∷ []) },
    length context.sections,
  )
]

abbrev empty_context : AssemblerContext
empty_context = record {
  entry = none;
  globals = [];
  externals = [];
  lines = [];
  sections = [];
  current_section = 0;
}

unfoldable pub asm_init : AssemblerContext
unfolding select_section
asm_init = (select_section empty_context (codes "text")).0

unfoldable pub is_supported_section : List ℕ → Bool
is_supported_section name =
    same_name name (codes ".text")
    || same_name name (codes "text")
    || same_name name (codes ".data")
    || same_name name (codes "data")
    || same_name name (codes ".bss")
    || same_name name (codes "bss")

-- A NULL token gives a diagnostic with no range.
abbrev fail_at {ℓ} : {A : Type ℓ} → Option Token → Outcome Failure A
fail_at none = asm_fail section_error
fail_at (some t) = asm_token_fail section_error t

unfoldable pub validate_section_range : AsmSection → Option Token → Outcome Failure AsmSection
unfolding asm_fail asm_token_fail
validate_section_range s token =
    if ltb rom_size s.address || ltb (rom_size - s.address) s.size
    then fail_at token
    else accepted s

-- `context->sections[context->current_section]`, which asm_init and select_section keep in range.
unfoldable pub current : AssemblerContext → AsmSection
unfolding get_or
current context = get_or context.sections context.current_section (new_section [])

unfoldable pub put_current : AssemblerContext → AsmSection → AssemblerContext
unfolding set
put_current context s = record context { sections = set context.sections context.current_section s }

abbrev pub content_size : Content → ℕ
content_size (stmt s) = 8
content_size (dir d) = 0
content_size (raw bytes) = length bytes

unfoldable pub record_line : AssemblerContext → Line → Outcome Failure AssemblerContext
unfolding current put_current validate_section_range asm_fail
record_line context line =
    let s = current context in
    let placed : Line = record {
      label = line.label;
      content = line.content;
      size = content_size line.content;
      section_index = context.current_section;
      section_offset = s.size;
    } in
    if ltb (size_t_max - s.size) placed.size
    then asm_fail output_too_large
    else and_then (validate_section_range (record s { size = s.size + placed.size }) none) (λ grown.
      let filled = put_current context grown in
      accepted (record filled { lines = filled.lines ++ (placed ∷ []) }))

unfoldable pub asm_add_global : AssemblerContext → List ℕ → AssemblerContext
asm_add_global context symbol = record context { globals = context.globals ++ (symbol ∷ []) }

unfoldable pub asm_add_external : AssemblerContext → List ℕ → AssemblerContext
asm_add_external context symbol = record context { externals = context.externals ++ (symbol ∷ []) }

-- A label of a procedure is qualified by the procedure's name.
unfoldable pub set_label_context : List ℕ → List ℕ → List ℕ
set_label_context context [] = context
set_label_context context (c ∷ label) = context ++ (b'.' ∷ c ∷ label)
