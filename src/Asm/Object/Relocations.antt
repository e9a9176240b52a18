-- ===== src/Asm/Object/Relocations.antt =====
-- asm_translate_object (asm/src/Assembler.c): where its relocations point.
use zlvm.Prelude.{
  All-map, All-append, option_list, ℕ, zero, suc, ◌+◌, ◌^◌, ◌≤◌, ◌<◌, ◌≡◌, refl, ap, ◌∙◌, inl, inr,
  List, [], ◌∷◌, ◌++◌, map, Option, none, some, ◌==◌, to_word, arith, length, get_or, All, IsWord,
  Bool-cases, Option-cases,
}
use zlvm.Outcome.{Outcome, accepted, and_then, and_then-accepted}
use zlvm.Asm.Translate.{plain_immediate}
use zlvm.Prelude.{length-set, get_or-set, if_split}
use native.Mathlib.Nat.{mod-eq_of_lt, mod-le}
use zlvm.Image.{Image, ImageSection, ImageSymbol, ImageRelocation}
use zlvm.Asm.{Token, Failure, asm_fail, asm_token_fail}
use zlvm.Asm.Parser.{Line, Statement, Content, stmt, dir, raw}
use zlvm.Asm.Sections.{AsmSection, AssemblerContext, content_size}
use zlvm.Asm.Sections.Places.{Inside, IsPlaced, size_at}
use zlvm.Asm.Object.{
  find_symbol_line, find_image_symbol, image_section, label_symbols, global_symbols,
  external_symbols, is_label_use, object_label, object_immediate, object_statement, object_content,
  object_lines, object_image, fill_section, copy_bytes, no_section,
}
use zlvm.Image.{relocation_absolute32, section_bss, kind_object}
use zlvm.Prelude.Int.{pos}

abbrev pub data_size_at : List ImageSection → ℕ → ℕ
data_size_at sections index = (get_or sections index no_section).data_size

-- A relocation whose four bytes lie in a section, for a symbol of the image.
abbrev pub PointsInto : List ImageSection → List ImageSymbol → ImageRelocation → Type 0
PointsInto sections symbols r =
    (r.section_index < length sections)
    × (r.offset + 4 ≤ data_size_at sections r.section_index)
    × (r.symbol_index < length symbols)

-- The sections of the image have the sizes that the assembler counted.
record SameSizes (made : List ImageSection) (counted : List AsmSection) : Type 0 where
  same_number : length made ≡ length counted
  same_size : (index : ℕ) → data_size_at made index ≡ size_at counted index

image_section-SameSizes :
    (counted : List AsmSection) → SameSizes (map image_section counted) counted
unfolding get_or image_section
image_section-SameSizes counted = record {
  same_number = numbers counted;
  same_size = sizes counted;
}
  where
    numbers : (xs : List AsmSection) → length (map image_section xs) ≡ length xs
    numbers [] = refl
    numbers (x ∷ xs) = ap suc (numbers xs)

    sizes :
        (xs : List AsmSection) (index : ℕ)
        → data_size_at (map image_section xs) index ≡ size_at xs index
    sizes [] index = refl
    sizes (x ∷ xs) zero = refl
    sizes (x ∷ xs) (suc index) = sizes xs index

fill_section-SameSizes :
    (made : List ImageSection) (counted : List AsmSection) (index offset : ℕ) (bytes : List ℕ)
    → SameSizes made counted
    → SameSizes (fill_section made index offset bytes) counted
unfolding fill_section
fill_section-SameSizes made counted index offset bytes w = record {
  same_number = length-set made index _ ∙ w.same_number;
  same_size = λ j.
      let s = get_or made index no_section in
      let read =
        get_or-set made index j (record s { data_bytes = copy_bytes s.data_bytes offset bytes })
          no_section in
      ground (arith, ap (λ (t : ImageSection). t.data_size) read, w.same_size j);
}

find_image_symbol-lt :
    (symbols : List ImageSymbol) (start : ℕ) (name : List ℕ) (index : ℕ)
    → find_image_symbol symbols start name ≡ some index
    → index < start + length symbols
unfolding find_image_symbol
find_image_symbol-lt [] start name index h = absurd cc
find_image_symbol-lt (s ∷ symbols) start name index h =
    ground (arith, find_image_symbol-lt symbols (start + 1) name index)

-- What holds of the relocation that an accepted step gives.
abbrev Points :
    List ImageSection
    → List ImageSymbol
    → {A : Type 0} → Outcome Failure (A × Option ImageRelocation)
    → Type 0
Points made symbols r =
    (a : _) (o : Option ImageRelocation)
    → r ≡ accepted (a, o)
    → All (PointsInto made symbols) (option_list o)

object_label-Points :
    (lines : List Line) (made : List ImageSection) (symbols : List ImageSymbol)
    (counted : List AsmSection) (line : Line) (t : Token)
    → SameSizes made counted
    → Inside counted line
    → line.size ≡ 8
    → IsWord (length counted)
    → Points made symbols (object_label lines symbols line t)
unfolding object_label asm_token_fail
object_label-Points lines made symbols counted line t same inside size few a o h =
    elim (Option-cases (find_symbol_line lines t.value line.section_index)) [
      | inr (offset, e) ↦
          let found = rw (e, object_label) at h in let none_made : o ≡ none = cc in rw none_made tt
      | inl e ↦ elim (Option-cases (find_image_symbol symbols 0 t.value)) [
        | inl f ↦ let bad = rw (e, object_label, f) at h in absurd cc
        | inr (symbol, f) ↦
            let r : ImageRelocation = record {
              section_index = to_word line.section_index;
              offset = to_word (line.section_offset + 4);
              type = relocation_absolute32;
              symbol_index = to_word symbol;
              addend = pos 0;
            } in
            let found = rw (e, object_label, f) at h in
            let one : o ≡ some r = cc in
            let index : to_word line.section_index ≡ line.section_index =
              mod-eq_of_lt (omega (arith, inside.0)) in
            let place = mod-le (line.section_offset + 4) (2 ^ 32) in
            let low = mod-le symbol (2 ^ 32) in
            let known = find_image_symbol-lt symbols 0 t.value symbol f in
            let here : PointsInto made symbols r = (
              omega (arith, index, inside.0, same.same_number),
              rw index (omega (arith, place, inside.1, size, same.same_size line.section_index)),
              omega (arith, low, known),
            ) in
            rw one (here, tt)
      ]
    ]

nothing_Points :
    {A : Type 0} (made : List ImageSection) (symbols : List ImageSymbol) (r : Outcome Failure A)
    → Points made symbols (and_then r (λ a. accepted (a, none)))
nothing_Points made symbols r a o h =
    let (b, e, last) = and_then-accepted r _ h in let none_made : o ≡ none = cc in rw none_made tt

-- What is shared by the statements about one line.
module _ (lines : List Line) (made : List ImageSection) (symbols : List ImageSymbol)
    (counted : List AsmSection) (same : SameSizes made counted)
    (few : IsWord (length counted)) where
  object_immediate-Points :
      (line : Line) (imm : Option Token)
      → Inside counted line
      → line.size ≡ 8
      → Points made symbols (object_immediate lines symbols line imm)
  unfolding object_immediate
  object_immediate-Points line none inside size a o h =
      let none_made : o ≡ none = cc in rw none_made tt
  object_immediate-Points line (some t) inside size a o h =
      if_split (Points made symbols) (is_label_use t.type)
        (λ e. object_label-Points lines made symbols counted line t same inside size few)
        (λ e. nothing_Points made symbols (plain_immediate t)) a o h

  object_statement-Points :
      (line : Line) (s : Statement)
      → Inside counted line
      → line.size ≡ 8
      → Points made symbols (object_statement lines symbols line s)
  unfolding object_statement
  object_statement-Points line s inside size a o h =
      let (_, _, h1) = and_then-accepted _ _ h in
      let (_, _, h2) = and_then-accepted _ _ h1 in
      let (_, _, h3) = and_then-accepted _ _ h2 in
      let (_, _, h4) = and_then-accepted _ _ h3 in
      let ((v, r), e, h5) = and_then-accepted _ _ h4 in
      let (_, _, last) = and_then-accepted _ _ h5 in
      let one : o ≡ r = cc in rw one (object_immediate-Points line s.imm inside size v r e)

  object_content-Points :
      (line : Line) (content : Content)
      → Inside counted line
      → line.size ≡ content_size content
      → Points made symbols (object_content lines symbols line content)
  unfolding object_content asm_fail
  object_content-Points line (raw bytes) inside size a o h =
      let none_made : o ≡ none = cc in rw none_made tt
  object_content-Points line (stmt s) inside size a o h =
      object_statement-Points line s inside size a o h
  object_content-Points line (dir d) inside size a o h = absurd cc

  -- The loop keeps the sizes, and every relocation that it adds points into a section.
  object_lines-Points :
      (sections : List ImageSection) (relocations : List ImageRelocation) (left : List Line)
      (out : List ImageSection) (added : List ImageRelocation)
      → object_lines lines symbols sections relocations left ≡ accepted (out, added)
      → SameSizes sections counted
      → All (PointsInto made symbols) relocations
      → All (Inside counted) left
      → All (λ (line : Line). line.size ≡ content_size line.content) left
      → SameSizes out counted × All (PointsInto made symbols) added
  unfolding object_lines asm_fail
  object_lines-Points sections relocations [] out added h sizes points inside sized =
      let one : out ≡ sections = cc in
      let two : added ≡ relocations = cc in rw (one, two) (sizes, points)
  object_lines-Points sections relocations (line ∷ left) out added h sizes points inside sized =
      elim (Bool-cases ((get_or sections line.section_index no_section).type == section_bss)) [
        | inl e ↦ let bad = rw (e, object_lines) at h in absurd cc
        | inr e ↦
            let found = rw (e, object_lines) at h in
            let ((bytes, r), made_line, rest) = and_then-accepted _ _ found in
            object_lines-Points (fill_section sections line.section_index line.section_offset bytes)
              (relocations ++ option_list r) left out added rest
              (fill_section-SameSizes sections counted line.section_index line.section_offset bytes
                sizes)
              (All-append (PointsInto made symbols) relocations (option_list r) points
                (object_content-Points line line.content inside.0 sized.0 bytes r made_line))
              inside.1 sized.1
      ]

-- A relocation points into sections of the same sizes.
moved_points :
    (made out : List ImageSection) (symbols : List ImageSymbol) (counted : List AsmSection)
    → SameSizes made counted
    → SameSizes out counted
    → (r : ImageRelocation) → PointsInto made symbols r
    → PointsInto out symbols r
moved_points made out symbols counted same other r p = (
  omega (arith, p.0, same.same_number, other.same_number),
  omega (arith, p.1, same.same_size r.section_index, other.same_size r.section_index),
  p.2,
)

-- In the image of an object, made of lines that asm_processDirectives has placed in fewer than
-- 2 ^ 32 sections, the sections have the sizes that were counted, and the four bytes of every
-- relocation lie in one of them, for a symbol of the image.
pub object_image-PointsInto :
    (c : AssemblerContext) (image : Image)
    → IsPlaced c
    → IsWord (length c.sections)
    → object_image c ≡ accepted image
    → (length image.sections ≡ length c.sections)
      × ((index : ℕ) → data_size_at image.sections index ≡ size_at c.sections index)
      × All (PointsInto image.sections image.symbols) image.relocations
unfolding object_image
object_image-PointsInto c image w few h =
    let (defined, _, h1) =
      and_then-accepted (global_symbols (label_symbols c.sections [] c.lines) c.globals) _ h in
    let symbols = external_symbols defined c.externals in
    let start = map image_section c.sections in
    let ((sections, relocations), e, last) =
      and_then-accepted (object_lines c.lines symbols start [] c.lines) _ h1 in
    let same = image_section-SameSizes c.sections in
    let (sizes, points) =
      object_lines-Points c.lines start symbols c.sections same few start [] c.lines sections
        relocations e same tt w.inside w.sized in
    let whole : image ≡ record {
      kind = kind_object;
      entry_point = 0;
      entry_symbol = c.entry;
      sections = sections;
      symbols = symbols;
      relocations = relocations;
    } =
      cc in
    rw whole (
      sizes.same_number,
      sizes.same_size,
      All-map (PointsInto start symbols) (PointsInto sections symbols) relocations
          (moved_points start sections symbols c.sections same sizes) points,
    )
