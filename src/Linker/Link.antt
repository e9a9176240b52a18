-- ===== src/Linker/Link.antt =====
-- zl_link_objects of emulator/src/Linker.c, up to the executable image that it encodes.
use zlvm.Prelude.{
  ℕ, ◌+◌, Bool, ◌&&◌, not, List, [], ◌∷◌, Option, none, some, ◌==◌, if◌then◌else◌, map,
}
use zlvm.Prelude.Names.{same_name}
use zlvm.Outcome.{Outcome, refused, accepted, and_then, refuse_if}
use zlvm.Image.{Image, ImageSymbol, kind_object, kind_executable}
use zlvm.Image.Decode.{Allocation}
use zlvm.Image.Records.{zl_image_decode}
use zlvm.Linker.{
  LinkError, link_invalid_argument, link_out_of_memory, link_incompatible_object, link_no_entry,
  LinkSection, link_sections, lay_out,
}
use zlvm.Linker.Symbols.{is_defined, link_symbols, collect_symbols}
use zlvm.Linker.Relocate.{relocate}

-- The allocations: those of the linker, and those of decoding each object.
pub data LinkAllocation : Type 0 where
  images_table sections_table symbols_table output_table : LinkAllocation
  decoding : ℕ → Allocation → LinkAllocation

-- An encoded object: its bytes and their number. `none` is NULL.
abbrev pub Object : Type 0
Object = Option (List ℕ) × ℕ

unfoldable pub decode_objects :
    (LinkAllocation → Bool) → ℕ → List Object → Outcome LinkError (List Image)
decode_objects allocates index [] = accepted []
decode_objects allocates index ((bytes, size) ∷ objects) =
    elim (zl_image_decode (λ a. allocates (decoding index a)) bytes size) [
      | refused e ↦ refused link_incompatible_object
      | accepted image ↦ refuse_if (not (image.kind == kind_object)) link_incompatible_object (
          and_then (decode_objects allocates (index + 1) objects)
            (λ images. accepted (image ∷ images)))
    ]

-- The caller's entry symbol, or that of the first object that has one, or "start".
unfoldable pub first_entry : List Image → List ℕ
first_entry [] = 0x73 ∷ 0x74 ∷ 0x61 ∷ 0x72 ∷ 0x74 ∷ []
first_entry (image ∷ images) =
    let rest = first_entry images in elim image.entry_symbol [ none ↦ rest | some name ↦ name ]

unfoldable pub selected_entry : Option (List ℕ) → List Image → List ℕ
selected_entry none images = first_entry images
selected_entry (some name) images = name

-- The value of the first definition of the name, or 0.
unfoldable pub entry_value : List ImageSymbol → List ℕ → ℕ
entry_value [] name = 0
entry_value (s ∷ symbols) name =
    let rest = entry_value symbols name in
    if is_defined s && same_name s.name name then s.value else rest

abbrev pub executable : ℕ → List LinkSection → Image
executable entry sections = record {
  kind = kind_executable;
  entry_point = entry;
  entry_symbol = none;
  sections = map (λ (s : LinkSection). s.image) sections;
  symbols = [];
  relocations = [];
}

-- What follows the decoding of the objects.
unfoldable pub link_images :
    (LinkAllocation → Bool) → Option (List ℕ) → List Image → Outcome LinkError Image
link_images allocates entry_symbol images =
    refuse_if (not (allocates sections_table)) link_out_of_memory (
      and_then (lay_out [] 8 (link_sections 0 images)) (λ sections.
        refuse_if (not (allocates symbols_table)) link_out_of_memory (
          and_then (collect_symbols sections [] (link_symbols 0 images)) (λ symbols.
            and_then (relocate symbols 0 images sections) (λ patched.
              let entry = entry_value symbols (selected_entry entry_symbol images) in
              refuse_if (entry == 0) link_no_entry (
                refuse_if (not (allocates output_table)) link_out_of_memory
                  (accepted (executable entry patched))))))))

-- The pointers `objects`, `object_sizes`, `output` and `output_size` are not NULL.
unfoldable pub link_objects :
    (LinkAllocation → Bool) → List Object → Option (List ℕ) → Outcome LinkError Image
link_objects allocates [] entry_symbol = refused link_invalid_argument
link_objects allocates (object ∷ objects) entry_symbol =
    refuse_if (not (allocates images_table)) link_out_of_memory (
      and_then (decode_objects allocates 0 (object ∷ objects)) (link_images allocates entry_symbol))
