-- ===== src/Asm/Object.antt =====
-- The object file: asm_translate_object of asm/src/Assembler.c, up to the image that it encodes.
pub mod Relocations
use zlvm.Prelude.{
  option_list, ℕ, zero, suc, ◌+◌, Bool, true, false, ◌&&◌, List, [], ◌∷◌, ◌++◌, map, Option, none,
  some, ltb, ◌==◌, if◌then◌else◌, to_word, length, get_or, set, replicate,
}
use zlvm.Outcome.{Outcome, accepted, and_then}
use zlvm.Prelude.Int.{pos}
use zlvm.Prelude.Names.{same_name}
use zlvm.Image.{
  Image, ImageSection, ImageSymbol, ImageRelocation, kind_object, section_text, section_bss,
  symbol_function, relocation_absolute32, undefined_section,
}
use zlvm.Asm.{
  TokenType, tok_label_use, Token, Failure, asm_fail, asm_token_fail, unknown_label, section_error,
}
use zlvm.Asm.Parser.{Line, Statement, Content, stmt, dir, raw}
use zlvm.Asm.Sections.{AsmSection, AssemblerContext, new_section}
use zlvm.Asm.Operands.{validate_operands, parse_condition, parse_register}
use zlvm.Asm.Translate.{statement_opcode, parse_optional, plain_immediate, encode}

-- The loop over the lines: the offset of a label in a section; `none` is -1.
unfoldable pub find_symbol_line : List Line → List ℕ → ℕ → Option ℕ
find_symbol_line [] name section_index = none
find_symbol_line (line ∷ lines) name section_index =
    let rest = find_symbol_line lines name section_index in
    elim line.label [
      | none ↦ rest
      | some label ↦
          if line.section_index == section_index && same_name label name
          then some line.section_offset
          else rest
    ]

-- The loop from `index` on; `none` is -1.
unfoldable pub find_image_symbol : List ImageSymbol → ℕ → List ℕ → Option ℕ
find_image_symbol [] index name = none
find_image_symbol (symbol ∷ symbols) index name =
    let rest = find_image_symbol symbols (index + 1) name in
    if same_name symbol.name name then some index else rest

-- A section of the image, all zero; BSS has no bytes of its own.
unfoldable pub image_section : AsmSection → ImageSection
image_section s = record {
  name = s.name;
  type = s.type;
  flags = s.flags;
  alignment = s.alignment;
  address = s.address;
  data_bytes = if s.type == section_bss then [] else replicate s.size 0;
  data_size = s.size;
}

abbrev symbol_object : ℕ
symbol_object = 1

abbrev label_symbol : List AsmSection → Line → List ℕ → ImageSymbol
label_symbol sections line label = record {
  name = label;
  section_index = to_word line.section_index;
  value = to_word line.section_offset;
  size = 0;
  binding = 0;
  type =
      if ltb line.section_index (length sections)
        && (get_or sections line.section_index (new_section [])).type == section_text
      then symbol_function
      else symbol_object;
}

-- The first definition of each label becomes a local symbol.
unfoldable pub label_symbols : List AsmSection → List ImageSymbol → List Line → List ImageSymbol
unfolding find_image_symbol get_or
label_symbols sections symbols [] = symbols
label_symbols sections symbols (line ∷ lines) = elim line.label [
  | none ↦ label_symbols sections symbols lines
  | some label ↦ elim (find_image_symbol symbols 0 label) [
    | some index ↦ label_symbols sections symbols lines
    | none ↦ label_symbols sections (symbols ++ (label_symbol sections line label ∷ [])) lines
  ]
]

-- `image.symbols[symbol].binding = ZL_IMAGE_SYMBOL_GLOBAL`
unfoldable pub make_global : List ImageSymbol → ℕ → List ImageSymbol
make_global [] index = []
make_global (symbol ∷ symbols) zero = record symbol { binding = 1 } ∷ symbols
make_global (symbol ∷ symbols) (suc index) = symbol ∷ make_global symbols index

unfoldable pub global_symbols :
    List ImageSymbol → List (List ℕ) → Outcome Failure (List ImageSymbol)
unfolding find_image_symbol make_global asm_fail
global_symbols symbols [] = accepted symbols
global_symbols symbols (name ∷ names) = elim (find_image_symbol symbols 0 name) [
  | none ↦ asm_fail section_error
  | some index ↦ global_symbols (make_global symbols index) names
]

abbrev external_symbol : List ℕ → ImageSymbol
external_symbol name = record {
  name = name;
  section_index = undefined_section;
  value = 0;
  size = 0;
  binding = 1;
  type = 0;
}

unfoldable pub external_symbols : List ImageSymbol → List (List ℕ) → List ImageSymbol
unfolding find_image_symbol
external_symbols symbols [] = symbols
external_symbols symbols (name ∷ names) = elim (find_image_symbol symbols 0 name) [
  | some index ↦ external_symbols symbols names
  | none ↦ external_symbols (symbols ++ (external_symbol name ∷ [])) names
]

-- A label of the line's own section gives its offset, and any other symbol a relocation.
unfoldable pub object_label :
    List Line → List ImageSymbol → Line → Token → Outcome Failure (ℕ × Option ImageRelocation)
unfolding find_symbol_line find_image_symbol asm_token_fail
object_label lines symbols line t = elim (find_symbol_line lines t.value line.section_index) [
  | some offset ↦ accepted (to_word offset, none)
  | none ↦ elim (find_image_symbol symbols 0 t.value) [
    | none ↦ asm_token_fail unknown_label t
    | some symbol ↦ accepted (
      0,
      some (record {
        section_index = to_word line.section_index;
        offset = to_word (line.section_offset + 4);
        type = relocation_absolute32;
        symbol_index = to_word symbol;
        addend = pos 0;
      }),
    )
  ]
]

abbrev pub is_label_use : TokenType → Bool
is_label_use tok_label_use = true
is_label_use _ = false

unfoldable pub object_immediate :
    List Line
    → List ImageSymbol
    → Line
    → Option Token
    → Outcome Failure (ℕ × Option ImageRelocation)
unfolding object_label plain_immediate
object_immediate lines symbols line none = accepted (0, none)
object_immediate lines symbols line (some t) =
    if is_label_use t.type
    then object_label lines symbols line t
    else and_then (plain_immediate t) (λ value. accepted (value, none))

-- The bytes of a statement, and its relocation.
unfoldable pub object_statement :
    List Line
    → List ImageSymbol
    → Line
    → Statement
    → Outcome Failure (List ℕ × Option ImageRelocation)
unfolding statement_opcode parse_optional object_immediate encode
object_statement lines symbols line s =
    and_then (parse_optional parse_condition s.cond) (λ condition.
      and_then (parse_optional parse_register s.reg1) (λ register1.
        and_then (parse_optional parse_register s.reg2) (λ register2.
          and_then (validate_operands (statement_opcode s) s) (λ _.
            and_then (object_immediate lines symbols line s.imm) (λ found.
              let (immediate, relocation) = found in
              and_then
                (encode (record {
                  opcode = statement_opcode s;
                  condition = condition;
                  register1 = register1;
                  register2 = register2;
                  immediate = immediate;
                }))
                (λ bytes. accepted (bytes, relocation)))))))

-- `memcpy(data + offset, bytes, size)`
unfoldable pub copy_bytes : List ℕ → ℕ → List ℕ → List ℕ
copy_bytes output offset [] = output
copy_bytes output offset (b ∷ bytes) = copy_bytes (set output offset b) (offset + 1) bytes

abbrev pub no_section : ImageSection
no_section = record {
  name = [];
  type = 0;
  flags = 0;
  alignment = 0;
  address = 0;
  data_bytes = [];
  data_size = 0;
}

unfoldable pub fill_section : List ImageSection → ℕ → ℕ → List ℕ → List ImageSection
unfolding copy_bytes get_or set
fill_section sections index offset bytes =
    let s = get_or sections index no_section in
    set sections index (record s { data_bytes = copy_bytes s.data_bytes offset bytes })

-- The bytes of a line, and its relocation; asm_processDirectives leaves no directive.
unfoldable pub object_content :
    List Line
    → List ImageSymbol
    → Line
    → Content
    → Outcome Failure (List ℕ × Option ImageRelocation)
unfolding object_statement
object_content lines symbols line (raw bytes) = accepted (bytes, none)
object_content lines symbols line (stmt s) = object_statement lines symbols line s
object_content lines symbols line (dir d) = asm_fail section_error

-- The loop over the lines that are left.
unfoldable pub object_lines :
    List Line
    → List ImageSymbol
    → List ImageSection
    → List ImageRelocation
    → List Line
    → Outcome Failure (List ImageSection × List ImageRelocation)
unfolding object_content fill_section asm_fail get_or
object_lines lines symbols sections relocations [] = accepted (sections, relocations)
object_lines lines symbols sections relocations (line ∷ left) =
    if (get_or sections line.section_index no_section).type == section_bss
    then asm_fail section_error
    else and_then (object_content lines symbols line line.content) (λ found.
      let (bytes, relocation) = found in
      object_lines lines symbols
        (fill_section sections line.section_index line.section_offset bytes)
        (relocations ++ option_list relocation) left)

-- The image that asm_translate_object encodes.
unfoldable pub object_image : AssemblerContext → Outcome Failure Image
unfolding image_section label_symbols global_symbols external_symbols object_lines
object_image c =
    and_then (global_symbols (label_symbols c.sections [] c.lines) c.globals) (λ defined.
      let symbols = external_symbols defined c.externals in
      and_then (object_lines c.lines symbols (map image_section c.sections) [] c.lines) (λ made.
        let (sections, relocations) = made in
        accepted (record {
          kind = kind_object;
          entry_point = 0;
          entry_symbol = c.entry;
          sections = sections;
          symbols = symbols;
          relocations = relocations;
        })))
