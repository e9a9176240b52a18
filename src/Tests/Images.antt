-- ===== src/Tests/Images.antt =====
-- The theorems on images, at an executable with one text section that holds the halting
-- instruction.
use zlvm.Prelude.{
  ℕ, ◌≡◌, refl, arith, Bool, true, false, List, [], ◌∷◌, none, some, IsByte, All-get_or, get_or,
  get_elem?,
}
use zlvm.Bytes.{get_bytes}
use zlvm.Image.{
  Image, ImageSection, image_none, get16, get32, get_string, scan_string, in_range, multiply_size,
  valid_alignment,
}
use zlvm.Outcome.{accepted, and_then, refuse_if}
use zlvm.Image.Decode.{
  Allocation, has_magic, misplaced, out_of_bounds, decode_header, decode_table, slice,
}
use zlvm.Image.Records.{
  decode_section, decode_entry_symbol, entry_found, check_entry, decode_body, zl_image_decode,
}
use zlvm.Image.WellFormed.{IsWellFormed}
use zlvm.Image.Accept.{zl_image_decode-IsWellFormed}
use zlvm.Vm.Valid.{IsValid}
use zlvm.Vm.Image.{vm_load_image}
use zlvm.Vm.Image.Load.{IsLoaded, vm_load_image-IsLoaded}
use zlvm.Tests.Data.{machine, machine-IsValid}

abbrev executable_bytes : List ℕ
executable_bytes =
    90 ∷ 76 ∷ 73 ∷ 77 ∷ 1 ∷ 0 ∷ 2 ∷ 0 ∷ 52 ∷ 0 ∷ 0 ∷ 0 ∷ 1 ∷ 0 ∷ 0 ∷ 0 ∷ 0 ∷ 0 ∷ 0 ∷ 0 ∷ 0 ∷ 0 ∷ 0
    ∷ 0 ∷ 8 ∷ 0 ∷ 0 ∷ 0 ∷ 52 ∷ 0 ∷ 0 ∷ 0 ∷ 80 ∷ 0 ∷ 0 ∷ 0 ∷ 80 ∷ 0 ∷ 0 ∷ 0 ∷ 80 ∷ 0 ∷ 0 ∷ 0 ∷ 1 ∷ 0
    ∷ 0 ∷ 0 ∷ 81 ∷ 0 ∷ 0 ∷ 0 ∷ 0 ∷ 0 ∷ 0 ∷ 0 ∷ 1 ∷ 0 ∷ 0 ∷ 0 ∷ 0 ∷ 0 ∷ 0 ∷ 0 ∷ 4 ∷ 0 ∷ 0 ∷ 0 ∷ 8 ∷ 0
    ∷ 0 ∷ 0 ∷ 81 ∷ 0 ∷ 0 ∷ 0 ∷ 8 ∷ 0 ∷ 0 ∷ 0 ∷ 0 ∷ 18 ∷ 0 ∷ 0 ∷ 0 ∷ 255 ∷ 0 ∷ 0 ∷ 0 ∷ []

abbrev text_section : ImageSection
text_section = record {
  name = [];
  type = 1;
  flags = 0;
  alignment = 4;
  address = 8;
  data_bytes = 18 ∷ 0 ∷ 0 ∷ 0 ∷ 0xff ∷ 0 ∷ 0 ∷ 0 ∷ [];
  data_size = 8;
}

abbrev executable : Image
executable = record {
  kind = 2;
  entry_point = 8;
  entry_symbol = none;
  sections = text_section ∷ [];
  symbols = [];
  relocations = [];
}

abbrev always : Allocation → Bool
always _ = true

executable_bytes-IsByte : (j : ℕ) → IsByte (get_or executable_bytes j 0)
executable_bytes-IsByte j = All-get_or IsByte executable_bytes j 0 (omega arith) (omega arith)

decodes : zl_image_decode always (some executable_bytes) 89 ≡ accepted executable
unfolding zl_image_decode and_then refuse_if decode_header decode_body decode_table decode_section
    decode_entry_symbol check_entry entry_found out_of_bounds misplaced has_magic get16 get32
    get_bytes get_or get_elem? get_string scan_string in_range multiply_size valid_alignment slice
decodes = refl

zl_image_decode-IsWellFormed_example : IsWellFormed executable
zl_image_decode-IsWellFormed_example =
    zl_image_decode-IsWellFormed always executable_bytes 89 executable executable_bytes-IsByte
      decodes

vm_load_image-IsLoaded_example :
    let (done, error, vm') = vm_load_image always machine (some executable_bytes) 89 in
    IsValid vm'
    × (done ≡ true
        → (image : Image) × (zl_image_decode always (some executable_bytes) 89 ≡ accepted image)
          × IsLoaded machine vm' image
          × (error ≡ image_none))
    × (done ≡ false → vm' ≡ machine)
vm_load_image-IsLoaded_example =
    vm_load_image-IsLoaded always machine executable_bytes 89 machine-IsValid
      executable_bytes-IsByte
