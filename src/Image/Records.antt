-- ===== src/Image/Records.antt =====
-- zl_image_decode of emulator/src/Image.c: the records, and the whole function.
use zlvm.Prelude.{
  ℕ, ◌+◌, ◌-◌, ◌*◌, Bool, false, ◌&&◌, ◌||◌, not, List, [], ◌∷◌, Option, none, some, ltb, leb, ◌==◌,
  if◌then◌else◌, get_or, get_elem?, replicate, word_max,
}
use zlvm.Prelude.Int.{signed}
use zlvm.Image.{
  Image, ImageSection, ImageSymbol, ImageRelocation, image_invalid_argument, image_out_of_memory,
  image_malformed, kind_object, kind_executable, section_text, section_bss, symbol_weak,
  symbol_function, relocation_absolute32, relocation_pc_relative32, undefined_section, get32,
  in_range, get_string, valid_alignment,
}
use zlvm.Outcome.{refused, accepted, and_then, refuse_if}
use zlvm.Image.Decode.{
  Decoded, Allocation, section_table, symbol_table, relocation_table, entry_name, section_name,
  section_content, symbol_name, section_record_size, symbol_record_size, relocation_record_size,
  Header, entry_of, decode_header, decode_table, slice,
}

abbrev pub section_refused : Header → ℕ → ImageSection → ℕ → Bool
section_refused h input_size s data_offset =
    not (valid_alignment s.alignment)
    || (ltb s.type section_text || ltb section_bss s.type)
    || (s.type == section_bss && ltb input_size data_offset)
    || (not (s.type == section_bss)
        && (ltb data_offset h.payload_offset || not (in_range data_offset s.data_size input_size)))
    || ltb (word_max - s.address) s.data_size

-- The record as it is read, with `data` as it is copied or cleared.
abbrev pub read_section : List ℕ → ℕ → List ℕ → ImageSection
read_section input at name =
    let type = get32 input (at + 4) in
    let data_size = get32 input (at + 24) in
    record {
      name = name;
      type = type;
      flags = get32 input (at + 8);
      alignment = get32 input (at + 12);
      address = get32 input (at + 16);
      data_bytes =
          if type == section_bss
          then replicate data_size 0
          else slice data_size input (get32 input (at + 20));
      data_size = data_size;
    }

unfoldable pub decode_section : (Allocation → Bool) → List ℕ → ℕ → Header → ℕ → Decoded ImageSection
decode_section allocates input input_size h index =
    let at = h.section_offset + index * section_record_size in
    elim (get_string input h.string_offset h.string_size (get32 input at)) [
      | none ↦ refused image_malformed
      | some name ↦
          let s = read_section input at name in
          refuse_if (section_refused h input_size s (get32 input (at + 20))) image_malformed (
            refuse_if
              (not (allocates (section_name index))
                || (not (s.data_size == 0) && not (allocates (section_content index))))
              image_out_of_memory (accepted s))
    ]

abbrev pub read_symbol : List ℕ → ℕ → List ℕ → ImageSymbol
read_symbol input at name = record {
  name = name;
  section_index = get32 input (at + 4);
  value = get32 input (at + 8);
  size = get32 input (at + 12);
  binding = get_or input (at + 16) 0;
  type = get_or input (at + 17) 0;
}

unfoldable pub decode_symbol : (Allocation → Bool) → List ℕ → Header → ℕ → Decoded ImageSymbol
decode_symbol allocates input h index =
    let at = h.symbol_offset + index * symbol_record_size in
    elim (get_string input h.string_offset h.string_size (get32 input at)) [
      | none ↦ refused image_malformed
      | some name ↦
          let s = read_symbol input at name in
          refuse_if
            (not (s.section_index == undefined_section) && leb h.section_count s.section_index)
            image_malformed
            (refuse_if (not (allocates (symbol_name index))) image_out_of_memory (
              refuse_if (ltb symbol_weak s.binding || ltb symbol_function s.type) image_malformed (
                refuse_if
                  (not (get_or input (at + 18) 0 == 0) || not (get_or input (at + 19) 0 == 0))
                  image_malformed (accepted s))))
    ]

abbrev pub read_relocation : List ℕ → ℕ → ImageRelocation
read_relocation input at = record {
  section_index = get32 input at;
  offset = get32 input (at + 4);
  type = get32 input (at + 8);
  symbol_index = get32 input (at + 12);
  addend = signed (get32 input (at + 16));
}

abbrev pub relocation_refused : Header → ImageRelocation → ImageSection → Bool
relocation_refused h r s =
    leb h.symbol_count r.symbol_index
    || (not (r.type == relocation_absolute32) && not (r.type == relocation_pc_relative32))
    || s.type == section_bss
    || ltb s.data_size r.offset
    || ltb (s.data_size - r.offset) 4

-- `section_index >= section_count` is a look-up in the decoded sections that finds nothing.
unfoldable pub decode_relocation : List ℕ → Header → List ImageSection → ℕ → Decoded ImageRelocation
decode_relocation input h sections index =
    let r = read_relocation input (h.relocation_offset + index * relocation_record_size) in
    elim (get_elem? sections r.section_index) [
      | none ↦ refused image_malformed
      | some s ↦ refuse_if (relocation_refused h r s) image_malformed (accepted r)
    ]

-- The name of an object's entry, when its field is not 0.
unfoldable pub decode_entry_symbol :
    (Allocation → Bool) → List ℕ → Header → Decoded (Option (List ℕ))
decode_entry_symbol allocates input h =
    if h.kind == kind_object && not (h.entry_field == 0)
    then elim (get_string input h.string_offset h.string_size h.entry_field) [
      | none ↦ refused image_malformed
      | some name ↦
          refuse_if (not (allocates entry_name)) image_out_of_memory (accepted (some name))
    ]
    else accepted none

-- The entry point lies in a text section.
unfoldable pub entry_found : ℕ → List ImageSection → Bool
entry_found entry [] = false
entry_found entry (s ∷ sections) =
    let rest = entry_found entry sections in
    (s.type == section_text && leb s.address entry && ltb (entry - s.address) s.data_size) || rest

abbrev pub tables_refused : (Allocation → Bool) → Header → Bool
tables_refused allocates h =
    (not (h.section_count == 0) && not (allocates section_table))
    || (not (h.symbol_count == 0) && not (allocates symbol_table))
    || (not (h.relocation_count == 0) && not (allocates relocation_table))

unfoldable pub check_entry : Image → Decoded Image
check_entry image =
    refuse_if
      (image.kind == kind_executable
        && (image.entry_point == 0 || not (entry_found image.entry_point image.sections)))
      image_malformed (accepted image)

-- What follows the header.
unfoldable pub decode_body : (Allocation → Bool) → List ℕ → ℕ → Header → Decoded Image
decode_body allocates input input_size h =
    refuse_if (tables_refused allocates h) image_out_of_memory (
      and_then (decode_entry_symbol allocates input h) (λ entry_symbol.
        and_then (decode_table (decode_section allocates input input_size h) h.section_count 0)
          (λ sections.
            and_then (decode_table (decode_symbol allocates input h) h.symbol_count 0) (λ symbols.
              and_then (decode_table (decode_relocation input h sections) h.relocation_count 0)
                (λ relocations. check_entry (record {
                  kind = h.kind;
                  entry_point = entry_of h;
                  entry_symbol = entry_symbol;
                  sections = sections;
                  symbols = symbols;
                  relocations = relocations;
                }))))))

-- `none` is a NULL input. The image that the caller passes is not NULL.
unfoldable pub zl_image_decode : (Allocation → Bool) → Option (List ℕ) → ℕ → Decoded Image
zl_image_decode allocates none input_size = refused image_invalid_argument
zl_image_decode allocates (some input) input_size =
    and_then (decode_header input input_size) (decode_body allocates input input_size)
