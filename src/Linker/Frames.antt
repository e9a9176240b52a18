-- ===== src/Linker/Frames.antt =====
-- The relocations of zl_link_objects (emulator/src/Linker.c) move no section.
use zlvm.Prelude.{
  ℕ, zero, suc, ◌+◌, ◌-◌, ◌≤◌, ◌≡◌, ◌∙◌, refl, ap, arith, inl, inr, ◌&&◌, List, [], ◌∷◌, some, ◌==◌,
  to_dword, get_elem?, set, map, Option-cases, Bool-cases,
}
use zlvm.Outcome.{accepted, refuse_if-accepted, and_then-accepted}
use zlvm.Image.{Image, ImageSymbol, ImageRelocation}
use zlvm.Linker.{LinkSection, find_from, find_section}
use zlvm.Linker.Relocate.{patched, relocated, apply_relocation, relocate_object, relocate}
use zlvm.Linker.Layout.{Frame, frame}

find_from_lem :
    (sections : List LinkSection) (start object source index : ℕ) (s : LinkSection)
    → find_from start sections object source ≡ some (index, s)
    → (start ≤ index) × (get_elem? sections (index - start) ≡ some s)
unfolding find_from get_elem?
find_from_lem [] start object source index s e = absurd cc
find_from_lem (t ∷ sections) start object source index s e =
    elim (Bool-cases (t.object_index == object && t.source_index == source)) [
      | inl here ↦
          let same : some (start, t) ≡ some (index, s) = rw here at e in
          let at_start : index ≡ start = cc in
          let found : s ≡ t = cc in
          let none_before : index - start ≡ 0 = omega arith in
          rw (none_before, found) (omega arith, refl)
      | inr later ↦
          let (low, found) =
            find_from_lem sections (start + 1) object source index s (rw later at e) in
          let next : index - start ≡ suc (index - (start + 1)) = omega arith in
          rw next (omega arith, found)
    ]

-- Patching the bytes of a section moves nothing.
map-set :
    (sections : List LinkSection) (i : ℕ) (s t : LinkSection)
    → get_elem? sections i ≡ some s
    → frame t ≡ frame s
    → map frame (set sections i t) ≡ map frame sections
unfolding get_elem? set
map-set [] i s t e same = refl
map-set (r ∷ sections) zero s t e same =
    let found : s ≡ r = cc in ap (λ (f : Frame). f ∷ map frame sections) (rw found at same)
map-set (r ∷ sections) (suc i) s t e same =
    ap (λ (fs : List Frame). frame r ∷ fs) (map-set sections i s t e same)

apply_relocation_frame :
    (symbols own : List ImageSymbol) (object : ℕ) (r : ImageRelocation)
    (sections result : List LinkSection)
    → apply_relocation symbols own object r sections ≡ accepted result
    → map frame result ≡ map frame sections
unfolding apply_relocation find_section
apply_relocation_frame symbols own object r sections result e =
    elim (Option-cases (find_section sections object r.section_index)) [
      | inl f ↦ absurd (ground arith)
      | inr ((index, target), f) ↦
          let e1 = rw (f, apply_relocation) at e in
          elim (Option-cases (get_elem? own r.symbol_index)) [
            | inl g ↦ absurd (ground arith)
            | inr (reference, g) ↦
                let (value, known, e2) = and_then-accepted _ _ (rw g at e1) in
                let (fits, e3) = refuse_if-accepted _ _ _ e2 in
                let (inside, e4) = refuse_if-accepted _ _ _ e3 in
                let (low, found) = find_from_lem sections 0 object r.section_index index target f in
                let start : index - 0 ≡ index = omega arith in
                let place = to_dword (target.image.address + r.offset) in
                let written = patched target r.offset (relocated r place value) in
                let moved = map-set sections index target written (rw start at found) refl in
                let same : set sections index written ≡ result = cc in rw same at moved
          ]
    ]

relocate_object_frame :
    (symbols own : List ImageSymbol) (object : ℕ) (relocations : List ImageRelocation)
    (sections result : List LinkSection)
    → relocate_object symbols own object relocations sections ≡ accepted result
    → map frame result ≡ map frame sections
unfolding relocate_object
relocate_object_frame symbols own object [] sections result e =
    let same : result ≡ sections = cc in rw same refl
relocate_object_frame symbols own object (r ∷ relocations) sections result e =
    let (next, first, e1) = and_then-accepted _ _ e in
    relocate_object_frame symbols own object relocations next result e1
    ∙ apply_relocation_frame symbols own object r sections next first

pub relocate_frame :
    (symbols : List ImageSymbol) (object : ℕ) (images : List Image)
    (sections result : List LinkSection)
    → relocate symbols object images sections ≡ accepted result
    → map frame result ≡ map frame sections
unfolding relocate
relocate_frame symbols object [] sections result e =
    let same : result ≡ sections = cc in rw same refl
relocate_frame symbols object (image ∷ images) sections result e =
    let (next, first, e1) = and_then-accepted _ _ e in
    relocate_frame symbols (object + 1) images next result e1
    ∙ relocate_object_frame symbols image.symbols object image.relocations sections next first
