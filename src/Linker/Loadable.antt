-- ===== src/Linker/Loadable.antt =====
-- What zl_link_objects (emulator/src/Linker.c) links, vm_loadImage can load.
use zlvm.Prelude.{
  All-append, ℕ, ◌+◌, ◌≡◌, ◌≢◌, refl, arith, inl, inr, Bool, true, List, [], ◌∷◌, Option, none,
  some, IsByte, get_or, map, All,
}
use zlvm.Outcome.{accepted, refuse_if-accepted, and_then-accepted, Outcome-cases}
use zlvm.Image.{Image, ImageSection}
use zlvm.Image.Decode.{Allocation}
use zlvm.Image.Records.{zl_image_decode}
use zlvm.Image.WellFormed.{IsSection, IsWellFormed}
use zlvm.Image.Accept.{zl_image_decode-IsWellFormed}
use zlvm.Vm.Image.{sections_fit}
use zlvm.Vm.Image.Place.{Beside, Disjoint}
use zlvm.Linker.{LinkSection, number_sections, link_sections}
use zlvm.Linker.Link.{
  LinkAllocation, decoding, Object, decode_objects, selected_entry, entry_value, executable,
  link_images, link_objects,
}
use zlvm.Linker.Layout.{frame, Apart, Placed, Bounded, lay_out-Placed}
use zlvm.Linker.Frames.{relocate_frame}

-- The same, of the sections of the linked image.
All-Beside_image :
    (s : LinkSection) (sections : List LinkSection)
    → All (Apart (frame s)) (map frame sections)
    → All (Beside s.image) (map (λ (t : LinkSection). t.image) sections)
All-Beside_image s [] p = tt
All-Beside_image s (t ∷ sections) (p, ps) = (p, All-Beside_image s sections ps)

Placed-Disjoint :
    (sections : List LinkSection)
    → Placed sections
    → Disjoint (map (λ (s : LinkSection). s.image) sections)
Placed-Disjoint [] p = tt
Placed-Disjoint (s ∷ sections) ((apart, aparts), (inside, insides)) =
    (All-Beside_image s sections apart, Placed-Disjoint sections (aparts, insides))

Placed-fit :
    (sections : List LinkSection)
    → Placed sections
    → sections_fit (map (λ (s : LinkSection). s.image) sections) ≡ true
unfolding sections_fit
Placed-fit [] p = refl
Placed-fit (s ∷ sections) ((apart, aparts), (inside, insides)) =
    ground (arith, Placed-fit sections (aparts, insides))

number_sections-Bounded :
    (object source : ℕ) (sections : List ImageSection)
    → All IsSection sections
    → All Bounded (number_sections object source sections)
unfolding number_sections
number_sections-Bounded object source [] ok = tt
number_sections-Bounded object source (s ∷ sections) (ok, oks) =
    (ok.extent, number_sections-Bounded object (source + 1) sections oks)

link_sections-Bounded :
    (object : ℕ) (images : List Image)
    → All IsWellFormed images
    → All Bounded (link_sections object images)
unfolding link_sections
link_sections-Bounded object [] ok = tt
link_sections-Bounded object (image ∷ images) (ok, oks) =
    All-append Bounded _ _ (number_sections-Bounded object 0 image.sections ok.sections)
      (link_sections-Bounded (object + 1) images oks)

-- The bytes of an object are bytes.
abbrev pub IsObject : Object → Type 0
IsObject (none, size) = Unit
IsObject (some bytes, size) = (j : ℕ) → IsByte (get_or bytes j 0)

decode_objects-IsWellFormed :
    (allocates : LinkAllocation → Bool) (index : ℕ) (objects : List Object) (images : List Image)
    → All IsObject objects
    → decode_objects allocates index objects ≡ accepted images
    → All IsWellFormed images
unfolding decode_objects zl_image_decode
decode_objects-IsWellFormed allocates index [] images ok e =
    let same : images ≡ [] = cc in rw same tt
decode_objects-IsWellFormed allocates index ((none, size) ∷ objects) images ok e = absurd cc
decode_objects-IsWellFormed allocates index ((some bytes, size) ∷ objects) images (ok, oks) e =
    let alloc : Allocation → Bool = λ a. allocates (decoding index a) in
    elim (Outcome-cases (zl_image_decode alloc (some bytes) size)) [
      | inl (error, f) ↦ absurd (ground arith)
      | inr (image, f) ↦
          let (kind, e1) = refuse_if-accepted _ _ _ (rw (f, decode_objects) at e) in
          let (rest, others, e2) = and_then-accepted _ _ e1 in
          let same : images ≡ image ∷ rest = cc in
          let formed : All IsWellFormed (image ∷ rest) = (
            zl_image_decode-IsWellFormed alloc bytes size image ok f,
            decode_objects-IsWellFormed allocates (index + 1) objects rest oks others,
          ) in
          rw same formed
    ]

abbrev pub IsLoadable : Image → Type 0
IsLoadable image =
    Disjoint image.sections × (sections_fit image.sections ≡ true) × (image.entry_point ≢ 0)

link_images-IsLoadable :
    (allocates : LinkAllocation → Bool) (entry_symbol : Option (List ℕ)) (images : List Image)
    (image : Image)
    → All IsWellFormed images
    → link_images allocates entry_symbol images ≡ accepted image
    → IsLoadable image
unfolding link_images
link_images-IsLoadable allocates entry_symbol images image ok e =
    let (a, e1) = refuse_if-accepted _ _ _ e in
    let (sections, laid_out, e2) = and_then-accepted _ _ e1 in
    let (b, e3) = refuse_if-accepted _ _ _ e2 in
    let (symbols, collected, e4) = and_then-accepted _ _ e3 in
    let (patched, relocations, e5) = and_then-accepted _ _ e4 in
    let (entry, e6) = refuse_if-accepted _ _ _ e5 in
    let (c, e7) = refuse_if-accepted _ _ _ e6 in
    let placed =
      lay_out-Placed (link_sections 0 images) [] 8 sections (link_sections-Bounded 0 images ok)
        (tt, tt) laid_out in
    let moved = relocate_frame symbols 0 images sections patched relocations in
    let here : Placed patched = rw moved placed in
    let point = entry_value symbols (selected_entry entry_symbol images) in
    let same : image ≡ executable point patched = cc in
    let loadable : IsLoadable (executable point patched) =
      (Placed-Disjoint patched here, Placed-fit patched here, λ z. ground arith) in
    rw same loadable

-- Whatever objects of bytes are linked and whichever allocations succeed, an image that the linker produces
-- can be loaded: no two of its sections share an address, each of them lies in the ROM, so that the
-- loader's check passes, and its entry point is not 0.
pub link_objects-IsLoadable :
    (allocates : LinkAllocation → Bool) (objects : List Object) (entry_symbol : Option (List ℕ))
    (image : Image)
    → All IsObject objects
    → link_objects allocates objects entry_symbol ≡ accepted image
    → Disjoint image.sections × (sections_fit image.sections ≡ true) × (image.entry_point ≢ 0)
unfolding link_objects
link_objects-IsLoadable allocates [] entry_symbol image ok e = absurd cc
link_objects-IsLoadable allocates (object ∷ objects) entry_symbol image ok e =
    let (a, e1) = refuse_if-accepted _ _ _ e in
    let (images, decoded, e2) = and_then-accepted _ _ e1 in
    link_images-IsLoadable allocates entry_symbol images image
      (decode_objects-IsWellFormed allocates 0 (object ∷ objects) images ok decoded) e2
