-- ===== src/Image.antt =====
-- The image format's data and its readers: include/Image.h and emulator/src/Image.c.
pub mod Decode
pub mod Records
pub mod WellFormed
pub mod Steps
pub mod Accept
use zlvm.Prelude.{
  ℕ, zero, suc, ◌+◌, ◌-◌, ◌*◌, ◌/◌, bit_and, bit_or, Bool, ◌&&◌, not, List, [], ◌∷◌, Option, none,
  some, ltb, leb, ◌==◌, if◌then◌else◌, ◌<<<◌, to_hword, size_t_max, get_or,
}
use zlvm.Prelude.Int.{ℤ}
use zlvm.Bytes.{get_bytes}

-- The named values of the enumerations.
abbrev pub kind_object : ℕ
kind_object = 1

abbrev pub kind_executable : ℕ
kind_executable = 2

abbrev pub section_text : ℕ
section_text = 1

abbrev pub section_data : ℕ
section_data = 2

abbrev pub section_bss : ℕ
section_bss = 3

abbrev pub symbol_weak : ℕ
symbol_weak = 2

abbrev pub symbol_function : ℕ
symbol_function = 2

abbrev pub relocation_absolute32 : ℕ
relocation_absolute32 = 1

abbrev pub relocation_pc_relative32 : ℕ
relocation_pc_relative32 = 2

abbrev pub undefined_section : ℕ
undefined_section = 0xffffffff

pub data ImageError : Type 0 where
  image_none image_invalid_argument image_out_of_memory image_bad_magic : ImageError
  image_unsupported_version image_invalid_kind image_malformed : ImageError
  image_overflow image_bounds : ImageError

-- A name is the bytes before its NUL. `data` holds `data_size` bytes.
pub record ImageSection : Type 0 where
  pub name : List ℕ
  pub type : ℕ
  pub flags : ℕ
  pub alignment : ℕ
  pub address : ℕ
  pub data_bytes : List ℕ
  pub data_size : ℕ

pub record ImageSymbol : Type 0 where
  pub name : List ℕ
  pub section_index : ℕ
  pub value : ℕ
  pub size : ℕ
  pub binding : ℕ
  pub type : ℕ

pub record ImageRelocation : Type 0 where
  pub section_index : ℕ
  pub offset : ℕ
  pub type : ℕ
  pub symbol_index : ℕ
  pub addend : ℤ

-- The counts of the three tables are the lengths of the lists. `none` is NULL.
pub record Image : Type 0 where
  pub kind : ℕ
  pub entry_point : ℕ
  pub entry_symbol : Option (List ℕ)
  pub sections : List ImageSection
  pub symbols : List ImageSymbol
  pub relocations : List ImageRelocation

unfoldable pub multiply_size : ℕ → ℕ → Option ℕ
multiply_size left right =
    if not (left == 0) && ltb (size_t_max / left) right then none else some (left * right)

unfoldable pub get16 : List ℕ → ℕ → ℕ
get16 input offset = to_hword (bit_or (get_or input offset 0) (get_or input (offset + 1) 0 <<< 8))

unfoldable pub get32 : List ℕ → ℕ → ℕ
get32 input offset = get_bytes 4 0 input offset 0

unfoldable pub in_range : ℕ → ℕ → ℕ → Bool
in_range offset size input_size = leb offset input_size && leb size (input_size - offset)

-- The bytes before the first NUL among the `left` bytes from a position on, if there is one.
unfoldable pub scan_string : ℕ → List ℕ → ℕ → Option (List ℕ)
scan_string zero input position = none
scan_string (suc left) input position =
    let rest = scan_string left input (position + 1) in
    let b = get_or input position 0 in
    if b == 0 then some [] else elim rest [ none ↦ none | some bytes ↦ some (b ∷ bytes) ]

-- `strings` is `input + start`.
unfoldable pub get_string : List ℕ → ℕ → ℕ → ℕ → Option (List ℕ)
get_string input start string_size offset =
    if leb string_size offset
    then none
    else scan_string (string_size - offset) input (start + offset)

unfoldable pub valid_alignment : ℕ → Bool
valid_alignment alignment = not (alignment == 0) && bit_and alignment (alignment - 1) == 0
