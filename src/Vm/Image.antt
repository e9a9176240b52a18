-- ===== src/Vm/Image.antt =====
-- vm_loadImage of emulator/src/VirtualMachineInternal.c.
pub mod Place
pub mod Load
use zlvm.Prelude.{
  ℕ, ◌-◌, Bool, true, false, ◌||◌, not, List, [], ◌∷◌, Option, none, some, ltb, ◌==◌, if◌then◌else◌,
  replicate,
}
use zlvm.Image.{
  Image, ImageSection, ImageError, image_none, image_invalid_argument, image_invalid_kind,
  image_bounds, kind_executable, section_text, section_data, section_bss,
}
use zlvm.Outcome.{refused, accepted}
use zlvm.Image.Decode.{Allocation}
use zlvm.Image.Records.{zl_image_decode}
use zlvm.Vm.{VirtualMachine, rom_size}
use zlvm.Vm.Run.{copy_dump}

abbrev pub is_loaded : ImageSection → Bool
is_loaded s = s.type == section_text || s.type == section_data || s.type == section_bss

-- The first loop: `false` where a section does not fit the ROM.
unfoldable pub sections_fit : List ImageSection → Bool
sections_fit [] = true
sections_fit (s ∷ sections) =
    let rest = sections_fit sections in
    if not (is_loaded s)
    then rest
    else if ltb rom_size s.address || ltb (rom_size - s.address) s.data_size
    then false
    else rest

-- One round of the second loop: `memset`, or `memcpy` of the bytes that the section holds.
unfoldable pub place_section : List ℕ → ImageSection → List ℕ
place_section rom s =
    if s.type == section_bss
    then copy_dump rom s.address (replicate s.data_size 0)
    else if s.type == section_text || s.type == section_data
    then if not (s.data_size == 0) then copy_dump rom s.address s.data_bytes else rom
    else rom

unfoldable pub place_sections : List ℕ → List ImageSection → List ℕ
place_sections rom [] = rom
place_sections rom (s ∷ sections) = place_sections (place_section rom s) sections

-- What follows a successful decoding: the result, `*error`, and the machine.
unfoldable pub load_decoded : VirtualMachine → Image → Bool × ImageError × VirtualMachine
load_decoded vm image =
    if not (image.kind == kind_executable)
    then (false, image_invalid_kind, vm)
    else if not (sections_fit image.sections)
    then (false, image_bounds, vm)
    else (
      true,
      image_none,
      record vm { rom = place_sections vm.rom image.sections; entry_point = image.entry_point },
    )

-- `none` is a NULL image; `vm` and `error` are not NULL.
unfoldable pub vm_load_image :
    (Allocation → Bool) → VirtualMachine → Option (List ℕ) → ℕ → Bool × ImageError × VirtualMachine
vm_load_image allocates vm none image_size = (false, image_invalid_argument, vm)
vm_load_image allocates vm (some image) image_size =
    elim (zl_image_decode allocates (some image) image_size) [
      | refused e ↦ (false, e, vm)
      | accepted decoded ↦ load_decoded vm decoded
    ]
