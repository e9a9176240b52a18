-- ===== src/Tests/Linking.antt =====
-- The theorem on linking, at one object whose text section holds the halting instruction under the
-- name "start".
use zlvm.Prelude.{
  ℕ, ◌≡◌, ◌≢◌, refl, arith, Bool, true, List, [], ◌∷◌, none, some, IsByte, All-get_or, get_or,
  get_elem?,
}
use zlvm.Prelude.Names.{same_name}
use zlvm.Outcome.{accepted, and_then, refuse_if}
use zlvm.Bytes.{get_bytes}
use zlvm.Image.{
  Image, get16, get32, get_string, scan_string, in_range, multiply_size, valid_alignment,
}
use zlvm.Image.Decode.{has_magic, misplaced, out_of_bounds, decode_header, decode_table, slice}
use zlvm.Image.Records.{
  decode_section, decode_symbol, decode_entry_symbol, check_entry, decode_body, zl_image_decode,
}
use zlvm.Vm.Image.{sections_fit}
use zlvm.Vm.Image.Place.{Disjoint}
use zlvm.Linker.{
  align_address, overlaps, find_from, find_section, number_sections, link_sections, section_address,
  lay_out,
}
use zlvm.Linker.Symbols.{
  resolve_symbol, is_duplicate, number_symbols, link_symbols, collect_symbols,
}
use zlvm.Linker.Relocate.{relocate_object, relocate}
use zlvm.Linker.Link.{
  LinkAllocation, Object, decode_objects, first_entry, selected_entry, entry_value, link_images,
  link_objects,
}
use zlvm.Linker.Loadable.{link_objects-IsLoadable}

abbrev object_bytes : List ℕ
object_bytes =
    90 ∷ 76 ∷ 73 ∷ 77 ∷ 1 ∷ 0 ∷ 1 ∷ 0 ∷ 52 ∷ 0 ∷ 0 ∷ 0 ∷ 1 ∷ 0 ∷ 0 ∷ 0 ∷ 1 ∷ 0 ∷ 0 ∷ 0 ∷ 0 ∷ 0 ∷ 0
    ∷ 0 ∷ 0 ∷ 0 ∷ 0 ∷ 0 ∷ 52 ∷ 0 ∷ 0 ∷ 0 ∷ 80 ∷ 0 ∷ 0 ∷ 0 ∷ 100 ∷ 0 ∷ 0 ∷ 0 ∷ 100 ∷ 0 ∷ 0 ∷ 0 ∷ 7
    ∷ 0 ∷ 0 ∷ 0 ∷ 107 ∷ 0 ∷ 0 ∷ 0 ∷ 0 ∷ 0 ∷ 0 ∷ 0 ∷ 1 ∷ 0 ∷ 0 ∷ 0 ∷ 0 ∷ 0 ∷ 0 ∷ 0 ∷ 4 ∷ 0 ∷ 0 ∷ 0
    ∷ 0 ∷ 0 ∷ 0 ∷ 0 ∷ 107 ∷ 0 ∷ 0 ∷ 0 ∷ 8 ∷ 0 ∷ 0 ∷ 0 ∷ 1 ∷ 0 ∷ 0 ∷ 0 ∷ 0 ∷ 0 ∷ 0 ∷ 0 ∷ 0 ∷ 0 ∷ 0
    ∷ 0 ∷ 0 ∷ 0 ∷ 0 ∷ 0 ∷ 1 ∷ 2 ∷ 0 ∷ 0 ∷ 0 ∷ 115 ∷ 116 ∷ 97 ∷ 114 ∷ 116 ∷ 0 ∷ 18 ∷ 0 ∷ 0 ∷ 0 ∷ 255
    ∷ 0 ∷ 0 ∷ 0 ∷ []

abbrev objects : List Object
objects = (some object_bytes, 115) ∷ []

abbrev linked : Image
linked = record {
  kind = 2;
  entry_point = 8;
  entry_symbol = none;
  sections =
      record {
        name = [];
        type = 1;
        flags = 0;
        alignment = 4;
        address = 8;
        data_bytes = 18 ∷ 0 ∷ 0 ∷ 0 ∷ 0xff ∷ 0 ∷ 0 ∷ 0 ∷ [];
        data_size = 8;
      }
      ∷ [];
  symbols = [];
  relocations = [];
}

abbrev always : LinkAllocation → Bool
always _ = true

object_bytes-IsByte : (j : ℕ) → IsByte (get_or object_bytes j 0)
object_bytes-IsByte j = All-get_or IsByte object_bytes j 0 (omega arith) (omega arith)

links : link_objects always objects none ≡ accepted linked
unfolding link_objects link_images zl_image_decode and_then refuse_if decode_header decode_body
    decode_table decode_section decode_symbol decode_entry_symbol check_entry out_of_bounds
    misplaced has_magic get16 get32 get_bytes get_or get_elem? get_string scan_string in_range
    multiply_size valid_alignment slice align_address overlaps find_from find_section
    number_sections link_sections section_address lay_out same_name resolve_symbol is_duplicate
    number_symbols link_symbols collect_symbols relocate_object relocate decode_objects first_entry
    selected_entry entry_value
links = refl

link_objects-IsLoadable_example :
    Disjoint linked.sections × (sections_fit linked.sections ≡ true) × (linked.entry_point ≢ 0)
link_objects-IsLoadable_example =
    link_objects-IsLoadable always objects none linked (object_bytes-IsByte, tt) links
