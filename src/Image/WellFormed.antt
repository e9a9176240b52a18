-- ===== src/Image/WellFormed.antt =====
-- What a decoded image promises to its users, vm_loadImage and zl_link_objects
-- (emulator/src/Image.c, include/Image.h).
use zlvm.Prelude.{
  ℕ, ◌+◌, ◌≤◌, ◌<◌, ◌≡◌, ◌≢◌, ◌⊎◌, true, List, [], some, IsByte, IsWord, All, length, get_elem?,
  word_max,
}
use zlvm.Image.{
  Image, ImageSection, ImageSymbol, ImageRelocation, kind_object, kind_executable, section_text,
  section_bss, symbol_weak, symbol_function, relocation_absolute32, relocation_pc_relative32,
  undefined_section, valid_alignment,
}

-- A section of a known type lies in the 32-bit address space, and holds its bytes.
pub record IsSection (s : ImageSection) : Type 0 where
  pub alignment : valid_alignment s.alignment ≡ true
  pub type_low : section_text ≤ s.type
  pub type_high : s.type ≤ section_bss
  pub extent : s.address + s.data_size ≤ word_max
  pub size : length s.data_bytes ≡ s.data_size
  pub bytes : All IsByte s.data_bytes

-- A symbol is undefined or belongs to one of `count` sections.
pub record IsSymbol (count : ℕ) (s : ImageSymbol) : Type 0 where
  pub section : (s.section_index ≡ undefined_section) ⊎ (s.section_index < count)
  pub binding : s.binding ≤ symbol_weak
  pub type : s.type ≤ symbol_function

-- The four bytes that a relocation patches lie in a section with content.
pub record IsRelocation (sections : List ImageSection) (symbol_count : ℕ) (r : ImageRelocation)
    : Type 0 where
  pub target : ImageSection
  pub found : get_elem? sections r.section_index ≡ some target
  pub content : target.type ≢ section_bss
  pub inside : r.offset + 4 ≤ target.data_size
  pub symbol : r.symbol_index < symbol_count
  pub type : (r.type ≡ relocation_absolute32) ⊎ (r.type ≡ relocation_pc_relative32)

-- The address lies in a text section.
pub record IsEntry (entry : ℕ) (sections : List ImageSection) : Type 0 where
  pub index : ℕ
  pub section : ImageSection
  pub found : get_elem? sections index ≡ some section
  pub text : section.type ≡ section_text
  pub low : section.address ≤ entry
  pub high : entry < section.address + section.data_size

pub record IsWellFormed (image : Image) : Type 0 where
  pub kind : (image.kind ≡ kind_object) ⊎ (image.kind ≡ kind_executable)
  pub sections : All IsSection image.sections
  pub symbols : All (IsSymbol (length image.sections)) image.symbols
  pub relocations : All (IsRelocation image.sections (length image.symbols)) image.relocations
  pub entry_word : IsWord image.entry_point
  pub object : image.kind ≡ kind_object → image.entry_point ≡ 0
  pub linked : image.kind ≡ kind_executable → image.relocations ≡ []
  pub entry : image.kind ≡ kind_executable → IsEntry image.entry_point image.sections
