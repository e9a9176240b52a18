-- ===== src/Vm/Image/Load.antt =====
-- vm_loadImage of emulator/src/VirtualMachineInternal.c: what a machine holds after it.
use zlvm.Prelude.{
  ℕ, ◌-◌, ◌<◌, ◌≡◌, ◌∙◌, refl, arith, Bool, true, false, List, [], ◌∷◌, zero, suc, inl, inr, some,
  ◌==◌, IsByte, get_or, get_elem?, All, Bool-cases,
}
use zlvm.Image.{Image, ImageSection, ImageError, image_none, kind_executable}
use zlvm.Outcome.{accepted, Outcome-cases}
use zlvm.Image.Decode.{Allocation}
use zlvm.Image.Records.{zl_image_decode}
use zlvm.Image.WellFormed.{IsEntry, IsWellFormed}
use zlvm.Image.Accept.{zl_image_decode-IsWellFormed}
use zlvm.Vm.{VirtualMachine, rom_size}
use zlvm.Vm.Valid.{IsValid, byte_at}
use zlvm.Vm.Image.{sections_fit, place_sections, load_decoded, vm_load_image}
use zlvm.Vm.Image.Place.{
  place_sections-All, length-place_sections, content_at, covers, Inside, sections_fit-Inside,
  Disjoint, get_or-place_sections, place_sections_outside,
}

-- A machine that holds an executable image: only the ROM and the entry point have changed, the
-- entry point is in the ROM, a section that no other overlaps is found at its address, and what
-- lies outside the sections is as it was.
pub record IsLoaded (vm vm' : VirtualMachine) (image : Image) : Type 0 where
  pub kind : image.kind ≡ kind_executable
  pub frame : vm' ≡ record vm { rom = vm'.rom; entry_point = image.entry_point }
  pub entry : IsEntry image.entry_point image.sections
  pub entry_inside : image.entry_point < rom_size
  pub placed :
      (index : ℕ) (s : ImageSection) (a : ℕ)
      → Disjoint image.sections
      → get_elem? image.sections index ≡ some s
      → covers s a ≡ true
      → byte_at vm' a ≡ content_at s (a - s.address)
  pub outside :
      (a : ℕ)
      → All (λ (s : ImageSection). covers s a ≡ false) image.sections
      → byte_at vm' a ≡ byte_at vm a

All-get_elem? :
    (P : ImageSection → Type 0) (xs : List ImageSection) (i : ℕ) (x : ImageSection)
    → All P xs
    → get_elem? xs i ≡ some x
    → P x
unfolding get_elem?
All-get_elem? P [] i x all e = absurd cc
All-get_elem? P (y ∷ ys) zero x (p, ps) e = let same : x ≡ y = cc in rw same p
All-get_elem? P (y ∷ ys) (suc i) x (p, ps) e = All-get_elem? P ys i x ps e

module _ (vm : VirtualMachine) (image : Image) (v : IsValid vm) (ok : IsWellFormed image) where
  abbrev loaded : VirtualMachine
  loaded = record vm { rom = place_sections vm.rom image.sections; entry_point = image.entry_point }

  loaded-IsValid : IsValid loaded
  loaded-IsValid = record {
    rom_length = length-place_sections vm.rom image.sections ∙ v.rom_length;
    memory_length = v.memory_length;
    fits = v.fits;
    register_length = v.register_length;
    rom_bytes = place_sections-All vm.rom image.sections ok.sections v.rom_bytes;
    memory_bytes = v.memory_bytes;
    register_words = v.register_words;
    entry_word = ok.entry_word;
  }

  loaded-IsLoaded :
      image.kind ≡ kind_executable → sections_fit image.sections ≡ true → IsLoaded vm loaded image
  unfolding byte_at
  loaded-IsLoaded kind fit =
      let inside = sections_fit-Inside image.sections ok.sections fit in
      let entry = ok.entry kind in
      let within =
        All-get_elem? Inside image.sections entry.index entry.section inside entry.found in
      record {
        kind = kind;
        frame = refl;
        entry = entry;
        entry_inside = omega (arith, within, entry.high);
        placed = λ index s a apart e h. ground (
          arith,
          All-get_elem? Inside image.sections index s inside e,
          get_or-place_sections vm.rom image.sections index s a v.rom_length ok.sections inside
              apart e h,
        );
        outside = λ a out. ground (
          arith,
          place_sections_outside vm.rom image.sections a v.rom_length ok.sections inside out,
        );
      }

  abbrev Outcome : Bool × ImageError × VirtualMachine → Type 0
  Outcome r =
      IsValid r.2
      × (r.0 ≡ true → IsLoaded vm r.2 image × (r.1 ≡ image_none))
      × (r.0 ≡ false → r.2 ≡ vm)

  load_decoded-Outcome : Outcome (load_decoded vm image)
  unfolding load_decoded
  load_decoded-Outcome = elim (Bool-cases (image.kind == kind_executable)) [
    | inr other ↦ rw (other, load_decoded) (v, λ e. absurd cc, λ e. refl)
    | inl kind ↦ elim (Bool-cases (sections_fit image.sections)) [
      | inr large ↦ rw (kind, large, load_decoded) (v, λ e. absurd cc, λ e. refl)
      | inl fit ↦
          rw (kind, fit, load_decoded)
            (loaded-IsValid, λ e. (loaded-IsLoaded (ground arith) fit, refl), λ e. absurd cc)
    ]
  ]

-- Loading an image from any bytes keeps the machine valid. Where it fails, the machine has not
-- changed. Where it succeeds, the bytes decode to an executable image and the machine holds it: only
-- the ROM and the entry point have changed, the entry point is an address of the ROM in a text
-- section, if the sections are disjoint each of them stands at its address, and outside them the
-- memory is as it was.
pub vm_load_image-IsLoaded :
    (allocates : Allocation → Bool) (vm : VirtualMachine) (input : List ℕ) (size : ℕ)
    → IsValid vm
    → ((j : ℕ) → IsByte (get_or input j 0))
    → let (done, error, vm') = vm_load_image allocates vm (some input) size in
      IsValid vm'
      × (done ≡ true
          → (image : Image) × (zl_image_decode allocates (some input) size ≡ accepted image)
            × IsLoaded vm vm' image
            × (error ≡ image_none))
      × (done ≡ false → vm' ≡ vm)
unfolding vm_load_image
vm_load_image-IsLoaded allocates vm input size v bytes =
    elim (Outcome-cases (zl_image_decode allocates (some input) size)) [
      | inl (e, refusal) ↦ rw (refusal, vm_load_image) (v, λ e. absurd cc, λ e. refl)
      | inr (image, decoded) ↦
          let ok = zl_image_decode-IsWellFormed allocates input size image bytes decoded in
          let (valid, success, failure) = load_decoded-Outcome vm image v ok in
          rw (decoded, vm_load_image)
            (valid, λ e. (image, refl, (success e).0, (success e).1), failure)
    ]
