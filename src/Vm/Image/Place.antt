-- ===== src/Vm/Image/Place.antt =====
-- Placing sections in the ROM: the loops of vm_loadImage
-- (emulator/src/VirtualMachineInternal.c).
use zlvm.Prelude.{
  ℕ, zero, suc, ◌+◌, ◌-◌, ◌≤◌, ◌≡◌, ◌∙◌, refl, arith, Bool, true, false, ◌&&◌, ◌||◌, not, List, [],
  ◌∷◌, ltb, leb, ◌==◌, if◌then◌else◌, if_either, IsByte, length, get_or, get_elem?, some, set,
  replicate, get_or-replicate, length-replicate, All, All-set, All-replicate,
}
use zlvm.Image.{ImageSection, section_bss, section_text, section_data}
use zlvm.Image.WellFormed.{IsSection}
use zlvm.Vm.{rom_size}
use zlvm.Vm.Run.{copy_dump}
use zlvm.Vm.Run.Load.{get_or-copy_dump, length-copy_dump}
use zlvm.Vm.Image.{sections_fit, place_section, place_sections}

copy_dump-All :
    (program rom : List ℕ) (index : ℕ)
    → All IsByte program
    → All IsByte rom
    → All IsByte (copy_dump rom index program)
unfolding copy_dump
copy_dump-All [] rom index p q = q
copy_dump-All (b ∷ program) rom index p q =
    copy_dump-All program (set rom index b) (index + 1) p.1 (All-set IsByte rom index b q p.0)

place_section-All :
    (rom : List ℕ) (s : ImageSection)
    → IsSection s
    → All IsByte rom
    → All IsByte (place_section rom s)
unfolding place_section
place_section-All rom s ok q =
    if_either (All IsByte) (s.type == section_bss)
      (copy_dump-All _ rom s.address (All-replicate IsByte s.data_size 0 (omega arith)) q)
      (if_either (All IsByte) (s.type == section_text || s.type == section_data)
        (if_either (All IsByte) (not (s.data_size == 0))
          (copy_dump-All s.data_bytes rom s.address ok.bytes q) q)
        q)

pub place_sections-All :
    (rom : List ℕ) (sections : List ImageSection)
    → All IsSection sections
    → All IsByte rom
    → All IsByte (place_sections rom sections)
unfolding place_sections
place_sections-All rom [] ok q = q
place_sections-All rom (s ∷ sections) ok q =
    place_sections-All (place_section rom s) sections ok.1 (place_section-All rom s ok.0 q)

length-place_section : (rom : List ℕ) (s : ImageSection) → length (place_section rom s) ≡ length rom
unfolding place_section
length-place_section rom s = ground (
  arith,
  length-copy_dump (replicate s.data_size 0) rom s.address,
  length-copy_dump s.data_bytes rom s.address,
)

pub length-place_sections :
    (rom : List ℕ) (sections : List ImageSection)
    → length (place_sections rom sections) ≡ length rom
unfolding place_sections
length-place_sections rom [] = refl
length-place_sections rom (s ∷ sections) =
    length-place_sections (place_section rom s) sections ∙ length-place_section rom s

-- What a section leaves at the `j`-th of its bytes.
abbrev pub content_at : ImageSection → ℕ → ℕ
content_at s j = if s.type == section_bss then 0 else get_or s.data_bytes j 0

abbrev pub covers : ImageSection → ℕ → Bool
covers s a = leb s.address a && ltb (a - s.address) s.data_size

get_or-place_section :
    (rom : List ℕ) (s : ImageSection) (a : ℕ)
    → IsSection s
    → s.address + s.data_size ≤ length rom
    → get_or (place_section rom s) a 0
      ≡ (if covers s a then content_at s (a - s.address) else get_or rom a 0)
unfolding place_section
get_or-place_section rom s a ok room = ground (
  arith,
  ok.type_low,
  ok.type_high,
  ok.size,
  length-replicate {A = ℕ} s.data_size 0,
  get_or-replicate {A = ℕ} s.data_size (a - s.address) 0 0,
  get_or-copy_dump (replicate s.data_size 0) rom s.address a,
  get_or-copy_dump s.data_bytes rom s.address a,
)

abbrev pub Inside : ImageSection → Type 0
Inside s = s.address + s.data_size ≤ rom_size

pub sections_fit-Inside :
    (sections : List ImageSection)
    → All IsSection sections
    → sections_fit sections ≡ true
    → All Inside sections
unfolding sections_fit
sections_fit-Inside [] ok e = tt
sections_fit-Inside (s ∷ sections) (ok, rest) e = (
  ground (arith, ok.type_low, ok.type_high),
  sections_fit-Inside sections rest (ground (arith, ok.type_low, ok.type_high)),
)

-- No address is in both sections.
abbrev pub Beside : ImageSection → ImageSection → Type 0
Beside s t = (a : ℕ) → covers s a ≡ true → covers t a ≡ false

abbrev pub Disjoint : List ImageSection → Type 0
Disjoint [] = Unit
Disjoint (s ∷ sections) = All (Beside s) sections × Disjoint sections

-- An address that no section covers keeps its byte.
pub place_sections_outside :
    (rom : List ℕ) (sections : List ImageSection) (a : ℕ)
    → length rom ≡ rom_size
    → All IsSection sections
    → All Inside sections
    → All (λ s. covers s a ≡ false) sections
    → get_or (place_sections rom sections) a 0 ≡ get_or rom a 0
unfolding place_sections
place_sections_outside rom [] a len ok fits out = refl
place_sections_outside rom (s ∷ sections) a len (ok, oks) (fit, fits) (out, outs) =
    place_sections_outside (place_section rom s) sections a (length-place_section rom s ∙ len) oks
      fits outs
    ∙ ground (arith, get_or-place_section rom s a ok (omega arith))

All-Beside :
    (s : ImageSection) (sections : List ImageSection) (a : ℕ)
    → covers s a ≡ true
    → All (Beside s) sections
    → All (λ t. covers t a ≡ false) sections
All-Beside s [] a h p = tt
All-Beside s (t ∷ sections) a h (p, ps) = (p a h, All-Beside s sections a h ps)

-- Of disjoint sections in the ROM, each is found where it was placed.
pub get_or-place_sections :
    (rom : List ℕ) (sections : List ImageSection) (index : ℕ) (s : ImageSection) (a : ℕ)
    → length rom ≡ rom_size
    → All IsSection sections
    → All Inside sections
    → Disjoint sections
    → get_elem? sections index ≡ some s
    → covers s a ≡ true
    → get_or (place_sections rom sections) a 0 ≡ content_at s (a - s.address)
unfolding place_sections get_elem?
get_or-place_sections rom [] index s a len ok fits apart e h = absurd cc
get_or-place_sections rom (t ∷ sections) zero s a len (ok, oks) (fit, fits) (beside, apart) e h =
    let same : s ≡ t = cc in
    rw same (
      place_sections_outside (place_section rom t) sections a (length-place_section rom t ∙ len) oks
        fits (All-Beside t sections a (rw same at h) beside)
      ∙ ground (arith, get_or-place_section rom t a ok (omega arith)))
get_or-place_sections rom (t ∷ sections) (suc index) s a len (ok, oks) (fit, fits) (beside, apart) e
      h =
    get_or-place_sections (place_section rom t) sections index s a
      (length-place_section rom t ∙ len) oks fits apart e h
