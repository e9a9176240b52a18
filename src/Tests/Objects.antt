-- ===== src/Tests/Objects.antt =====
-- The theorem on object files, at a jump to a symbol of another file.
use zlvm.Prelude.{
  ℕ, ◌≡◌, refl, List, [], ◌∷◌, none, some, arith, length, get_elem?, get_or, set, replicate, All,
}
use zlvm.Outcome.{accepted, and_then}
use zlvm.Prelude.Int.{pos}
use zlvm.Prelude.Names.{same_name}
use zlvm.Bytes.{put_bytes}
use zlvm.Opcode.{string_to_opcode, find_opcode, opcode_of}
use zlvm.Instruction.{instruction_encode}
use zlvm.Image.{Image, kind_object, relocation_absolute32}
use zlvm.Asm.{TokenType, tok_id, tok_label_use, Token}
use zlvm.Asm.Text.{codes, text_of, toupper}
use zlvm.Asm.Parser.{Line, Statement, stmt}
use zlvm.Asm.Sections.{AssemblerContext}
use zlvm.Asm.Sections.Places.{IsPlaced, size_at}
use zlvm.Asm.Operands.{validate_operands, expected_operands}
use zlvm.Asm.Translate.{statement_opcode, parse_optional, encode}
use zlvm.Asm.Object.{
  find_symbol_line, find_image_symbol, image_section, label_symbols, global_symbols,
  external_symbols, object_label, object_immediate, object_statement, object_content, object_lines,
  object_image, fill_section, copy_bytes, make_global,
}
use zlvm.Asm.Object.Relocations.{PointsInto, data_size_at, object_image-PointsInto}

abbrev token : TokenType → List ℕ → Token
token type value = record {
  type = type;
  size = length value;
  value = value;
  pos = 0;
  line = 1;
  col = 1;
  source_size = length value;
}

abbrev jump : Statement
jump = record {
  opcode = token tok_id (codes "JMP");
  cond = none;
  reg1 = none;
  reg2 = none;
  imm = some (token tok_label_use (codes "far"));
}

abbrev jump_line : Line
jump_line = record {
  label = some (codes "start");
  content = stmt jump;
  size = 8;
  section_index = 0;
  section_offset = 0;
}

abbrev context : AssemblerContext
context = record {
  entry = none;
  globals = codes "start" ∷ [];
  externals = codes "far" ∷ [];
  lines = jump_line ∷ [];
  sections =
      record { name = codes "text"; type = 1; flags = 0; address = 0; alignment = 1; size = 8 }
      ∷ [];
  current_section = 0;
}

abbrev object : Image
object = record {
  kind = kind_object;
  entry_point = 0;
  entry_symbol = none;
  sections =
      record {
        name = codes "text";
        type = 1;
        flags = 0;
        alignment = 1;
        address = 0;
        data_bytes = 20 ∷ 0 ∷ 0 ∷ 0 ∷ 0 ∷ 0 ∷ 0 ∷ 0 ∷ [];
        data_size = 8;
      }
      ∷ [];
  symbols =
      record { name = codes "start"; section_index = 0; value = 0; size = 0; binding = 1; type = 2 }
      ∷ record {
        name = codes "far";
        section_index = 0xffffffff;
        value = 0;
        size = 0;
        binding = 1;
        type = 0;
      }
      ∷ [];
  relocations =
      record {
        section_index = 0;
        offset = 4;
        type = relocation_absolute32;
        symbol_index = 1;
        addend = pos 0;
      }
      ∷ [];
}

context-IsPlaced : IsPlaced context
unfolding get_or
context-IsPlaced = record {
  fits = (omega arith, tt);
  selected = omega arith;
  inside = ((omega arith, omega arith), tt);
  in_order = (tt, tt);
  sized = (refl, tt);
}

translated : object_image context ≡ accepted object
unfolding object_image label_symbols global_symbols external_symbols find_symbol_line
    find_image_symbol make_global image_section object_lines object_content object_statement
    object_immediate object_label fill_section copy_bytes statement_opcode text_of toupper
    string_to_opcode find_opcode validate_operands expected_operands opcode_of get_elem?
    parse_optional encode instruction_encode put_bytes set get_or replicate same_name and_then
translated = refl

object_image-PointsInto_example :
    (1 ≡ length context.sections)
    × ((index : ℕ) → data_size_at object.sections index ≡ size_at context.sections index)
    × All (PointsInto object.sections object.symbols) object.relocations
object_image-PointsInto_example =
    object_image-PointsInto context object context-IsPlaced (omega arith) translated
