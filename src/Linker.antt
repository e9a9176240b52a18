-- ===== src/Linker.antt =====
-- The linker's data and the placement of sections: include/Linker.h and emulator/src/Linker.c.
pub mod Symbols
pub mod Relocate
pub mod Link
pub mod Layout
pub mod Frames
pub mod Loadable
use zlvm.Prelude.{
  ℕ, ◌+◌, ◌-◌, ◌^◌, bit_and, Bool, false, ◌&&◌, ◌||◌, List, [], ◌∷◌, ◌++◌, Option, none, some, ltb,
  ◌==◌, if◌then◌else◌, to_word, to_dword, word_max,
}
use zlvm.Outcome.{Outcome, refused, accepted, refuse_if}
use zlvm.Image.{Image, ImageSection}
use zlvm.Vm.{rom_size}

pub data LinkError : Type 0 where
  link_none link_invalid_argument link_out_of_memory link_incompatible_object : LinkError
  link_duplicate_symbol link_unresolved_symbol link_overlap link_overflow link_no_entry : LinkError

pub record LinkSection : Type 0 where
  pub image : ImageSection
  pub object_index : ℕ
  pub source_index : ℕ

-- `alignment - 1` and `~` of type `uint64_t`.
unfoldable pub align_address : ℕ → ℕ → Option ℕ
align_address value alignment =
    if ltb (to_dword (2 ^ 64 - 1 - alignment + 1)) value
    then none
    else let below = to_dword (alignment + (2 ^ 64 - 1)) in
      let aligned = bit_and (to_dword (value + alignment + (2 ^ 64 - 1))) (2 ^ 64 - 1 - below) in
      if ltb word_max aligned then none else some (to_word aligned)

-- `(uint64_t)address + size`
abbrev pub end_of : ℕ → ℕ → ℕ
end_of address size = to_dword (address + size)

unfoldable pub overlaps : List LinkSection → ℕ → ℕ → Bool
overlaps [] address size = false
overlaps (s ∷ sections) address size =
    let rest = overlaps sections address size in
    (ltb address (end_of s.image.address s.image.data_size)
      && ltb s.image.address (end_of address size))
    || rest

-- The index, and the section there; `none` is -1.
unfoldable pub find_from : ℕ → List LinkSection → ℕ → ℕ → Option (ℕ × LinkSection)
find_from index [] object source = none
find_from index (s ∷ sections) object source =
    let rest = find_from (index + 1) sections object source in
    if s.object_index == object && s.source_index == source then some (index, s) else rest

unfoldable pub find_section : List LinkSection → ℕ → ℕ → Option (ℕ × LinkSection)
find_section sections object source = find_from 0 sections object source

-- The sections of all objects, in the order of the two loops.
unfoldable pub number_sections : ℕ → ℕ → List ImageSection → List LinkSection
number_sections object source [] = []
number_sections object source (s ∷ sections) =
    record { image = s; object_index = object; source_index = source }
    ∷ number_sections object (source + 1) sections

unfoldable pub link_sections : ℕ → List Image → List LinkSection
link_sections object [] = []
link_sections object (image ∷ images) =
    number_sections object 0 image.sections ++ link_sections (object + 1) images

-- A section that gives no address, and whose flags do not fix it, is placed at the cursor.
unfoldable pub section_address : ImageSection → ℕ → Option ℕ
section_address s cursor =
    if s.address == 0 && bit_and s.flags 1 == 0
    then align_address cursor s.alignment
    else some s.address

abbrev pub moved : LinkSection → ℕ → LinkSection
moved s address = record s { image = record (s.image) { address = address } }

-- The loop over the sections, behind those that are placed already.
unfoldable pub lay_out :
    List LinkSection → ℕ → List LinkSection → Outcome LinkError (List LinkSection)
lay_out placed cursor [] = accepted placed
lay_out placed cursor (s ∷ sections) = elim (section_address s.image cursor) [
  | none ↦ refused link_overflow
  | some address ↦
      let size = s.image.data_size in
      let collides = overlaps placed address size in
      refuse_if (ltb rom_size (end_of address size) || collides)
        (if collides then link_overlap else link_overflow)
        (lay_out (placed ++ (moved s address ∷ [])) (to_word (end_of address size)) sections)
]
