-- ===== src/Linker/Relocate.antt =====
-- The relocations of zl_link_objects (emulator/src/Linker.c).
use zlvm.Prelude.{
  ℕ, ◌+◌, ◌-◌, Bool, ◌&&◌, ◌||◌, List, [], ◌∷◌, Option, none, some, ltb, ◌==◌, if◌then◌else◌,
  to_dword, get_elem?, set, word_max,
}
use zlvm.Prelude.Int.{ℤ, pos, ◌+ℤ◌, ◌-ℤ◌, ltb_ℤ, wrap, sword_min, sword_max}
use zlvm.Prelude.Names.{same_name}
use zlvm.Outcome.{Outcome, refused, accepted, and_then, refuse_if}
use zlvm.Bytes.{put_bytes}
use zlvm.Image.{Image, ImageSymbol, ImageRelocation, relocation_pc_relative32}
use zlvm.Linker.{
  LinkError, link_incompatible_object, link_unresolved_symbol, link_overflow, LinkSection,
  find_section,
}
use zlvm.Linker.Symbols.{symbol_global, is_defined}

-- The first global definition of a name.
unfoldable pub find_global : List ImageSymbol → List ℕ → Option ImageSymbol
find_global [] name = none
find_global (s ∷ symbols) name =
    let rest = find_global symbols name in
    if same_name s.name name && s.binding == symbol_global && is_defined s then some s else rest

-- The address that a reference stands for.
unfoldable pub reference_value :
    List LinkSection → List ImageSymbol → ℕ → ImageSymbol → Outcome LinkError ℤ
reference_value sections symbols object reference =
    if is_defined reference
    then elim (find_section sections object reference.section_index) [
      | none ↦ refused link_incompatible_object
      | some (index, target) ↦ accepted (pos (target.image.address + reference.value))
    ]
    else elim (find_global symbols reference.name) [
      | none ↦ refused link_unresolved_symbol
      | some s ↦ accepted (pos s.value)
    ]

-- The value that is stored, with its addend, and whether it does not fit 32 bits.
unfoldable pub relocated : ImageRelocation → ℕ → ℤ → ℤ
relocated r place value =
    let sum = value +ℤ r.addend in
    if r.type == relocation_pc_relative32 then sum -ℤ pos place else sum

unfoldable pub relocation_overflows : ImageRelocation → ℤ → Bool
relocation_overflows r value =
    if r.type == relocation_pc_relative32
    then ltb_ℤ value sword_min || ltb_ℤ sword_max value
    else ltb_ℤ value (pos 0) || ltb_ℤ (pos word_max) value

-- `write32` into the section's data.
abbrev pub patched : LinkSection → ℕ → ℤ → LinkSection
patched s offset value = record s {
  image = record (s.image) { data_bytes = put_bytes 4 0 s.image.data_bytes offset (wrap value) };
}

-- A decoded object has a symbol at every index that a relocation names.
unfoldable pub apply_relocation :
    List ImageSymbol
    → List ImageSymbol
    → ℕ
    → ImageRelocation
    → List LinkSection
    → Outcome LinkError (List LinkSection)
apply_relocation symbols own object r sections =
    elim (find_section sections object r.section_index) [
      | none ↦ refused link_incompatible_object
      | some (index, target) ↦ elim (get_elem? own r.symbol_index) [
        | none ↦ refused link_incompatible_object
        | some reference ↦ and_then (reference_value sections symbols object reference) (λ value.
            let place = to_dword (target.image.address + r.offset) in
            let result = relocated r place value in
            refuse_if (relocation_overflows r result) link_overflow (
              refuse_if
                (ltb target.image.data_size r.offset || ltb (target.image.data_size - r.offset) 4)
                link_overflow (accepted (set sections index (patched target r.offset result)))))
      ]
    ]

-- The loop over one object's relocations, and the loop over the objects.
unfoldable pub relocate_object :
    List ImageSymbol
    → List ImageSymbol
    → ℕ
    → List ImageRelocation
    → List LinkSection
    → Outcome LinkError (List LinkSection)
relocate_object symbols own object [] sections = accepted sections
relocate_object symbols own object (r ∷ relocations) sections =
    and_then (apply_relocation symbols own object r sections)
      (relocate_object symbols own object relocations)

unfoldable pub relocate :
    List ImageSymbol → ℕ → List Image → List LinkSection → Outcome LinkError (List LinkSection)
relocate symbols object [] sections = accepted sections
relocate symbols object (image ∷ images) sections =
    and_then (relocate_object symbols image.symbols object image.relocations sections)
      (relocate symbols (object + 1) images)
