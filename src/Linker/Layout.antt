-- ===== src/Linker/Layout.antt =====
-- Where zl_link_objects (emulator/src/Linker.c) places the sections.
use zlvm.Prelude.{
  ℕ, ◌+◌, ◌-◌, ◌≤◌, ◌≡◌, arith, inl, inr, Bool, true, false, ◌&&◌, List, [], ◌∷◌, ◌++◌, some, ltb,
  leb, word_max, map, All, Option-cases,
}
use zlvm.Outcome.{accepted, refuse_if-accepted}
use zlvm.Image.{ImageSection}
use zlvm.Vm.{rom_size}
use zlvm.Linker.{LinkSection, align_address, overlaps, section_address, moved, lay_out}

-- The address and the size of a section.
abbrev pub Frame : Type 0
Frame = ℕ × ℕ

abbrev pub frame : LinkSection → Frame
frame s = (s.image.address, s.image.data_size)

abbrev pub in_frame : Frame → ℕ → Bool
in_frame f a = leb f.0 a && ltb (a - f.0) f.1

abbrev pub Apart : Frame → Frame → Type 0
Apart f g = (a : ℕ) → in_frame f a ≡ true → in_frame g a ≡ false

abbrev pub AllApart : List Frame → Type 0
AllApart [] = Unit
AllApart (f ∷ frames) = All (Apart f) frames × AllApart frames

abbrev pub InRom : Frame → Type 0
InRom f = f.0 + f.1 ≤ rom_size

-- Sections that are placed: in the ROM, and no two of them share an address.
abbrev pub Placed : List LinkSection → Type 0
Placed sections = AllApart (map frame sections) × All InRom (map frame sections)

-- A section that is still to be placed ends within 32 bits.
abbrev pub Bounded : LinkSection → Type 0
Bounded s = s.image.address + s.image.data_size ≤ word_max

All-map_snoc :
    (P : Frame → Type 0) (placed : List LinkSection) (s : LinkSection)
    → All P (map frame placed)
    → P (frame s)
    → All P (map frame (placed ++ (s ∷ [])))
All-map_snoc P [] s all p = (p, tt)
All-map_snoc P (t ∷ placed) s (q, all) p = (q, All-map_snoc P placed s all p)

AllApart-snoc :
    (placed : List LinkSection) (s : LinkSection)
    → Placed placed
    → InRom (frame s)
    → overlaps placed s.image.address s.image.data_size ≡ false
    → AllApart (map frame (placed ++ (s ∷ [])))
unfolding overlaps
AllApart-snoc [] s p fits free = (tt, tt)
AllApart-snoc (t ∷ placed) s ((apart, aparts), (inside, insides)) fits free = (
  All-map_snoc (Apart (frame t)) placed s apart (λ a here. ground arith),
  AllApart-snoc placed s (aparts, insides) fits (ground arith),
)

section_address-le :
    (s : ImageSection) (cursor : ℕ) {address : ℕ}
    → s.address ≤ word_max
    → section_address s cursor ≡ some address
    → address ≤ word_max
unfolding section_address align_address
section_address-le s cursor p e = ground arith

-- Behind sections that are placed, the loop places the others.
pub lay_out-Placed :
    (sections placed : List LinkSection) (cursor : ℕ) (result : List LinkSection)
    → All Bounded sections
    → Placed placed
    → lay_out placed cursor sections ≡ accepted result
    → Placed result
unfolding lay_out
lay_out-Placed [] placed cursor result bounded p e = let same : result ≡ placed = cc in rw same p
lay_out-Placed (s ∷ sections) placed cursor result (bound, bounded) p e =
    elim (Option-cases (section_address s.image cursor)) [
      | inl f ↦ absurd (ground arith)
      | inr (address, f) ↦
          let low = section_address-le s.image cursor (omega arith) f in
          let (fine, e') = refuse_if-accepted _ _ _ (rw (f, lay_out) at e) in
          let fits : InRom (frame (moved s address)) = ground arith in
          lay_out-Placed sections (placed ++ (moved s address ∷ [])) _ result bounded
            (
              AllApart-snoc placed (moved s address) p fits (ground arith),
              All-map_snoc InRom placed (moved s address) p.1 fits,
            )
            e'
    ]
