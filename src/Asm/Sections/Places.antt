-- ===== src/Asm/Sections/Places.antt =====
-- record_line and select_section of asm/src/Assembler.c: where the recorded lines stand.
use zlvm.Prelude.{
  length-append, get_or-append, All-snoc, All-map, ℕ, ◌+◌, ◌-◌, ◌≤◌, ◌<◌, ◌≡◌, refl, sym, ap, ◌∙◌,
  inl, inr, List, [], ◌∷◌, ◌++◌, Option, none, some, ltb, arith, length, get_or, set, All,
  Bool-cases, Option-cases, size_t_max,
}
use zlvm.Outcome.{accepted, and_then-accepted}
use zlvm.Prelude.{length-set, get_or-set, All-set}
use zlvm.Asm.{Token, asm_fail, asm_token_fail}
use zlvm.Asm.Parser.{Line}
use zlvm.Asm.Sections.{
  AsmSection, AssemblerContext, new_section, find_section_named, select_section, asm_init,
  validate_section_range, current, put_current, content_size, record_line,
}
use zlvm.Vm.{rom_size}

-- A section that lies in the ROM.
abbrev pub Fits : AsmSection → Type 0
Fits s = s.address + s.size ≤ rom_size

-- The number of bytes of a section; 0 where there is none.
abbrev pub size_at : List AsmSection → ℕ → ℕ
size_at sections index = (get_or sections index (new_section [])).size

-- A line within its section.
abbrev pub Inside : List AsmSection → Line → Type 0
Inside sections line =
    (line.section_index < length sections)
    × (line.section_offset + line.size ≤ size_at sections line.section_index)

-- Two lines of one section, the first before the second.
abbrev pub Before : Line → Line → Type 0
Before line other =
    line.section_index ≡ other.section_index
    → line.section_offset + line.size ≤ other.section_offset

abbrev pub InOrder : List Line → Type 0
InOrder [] = Unit {0}
InOrder (line ∷ lines) = All (Before line) lines × InOrder lines

-- Every section lies in the ROM, every recorded line in its section with its bytes' number as its
-- size, and no two lines overlap.
pub record IsPlaced (c : AssemblerContext) : Type 0 where
  pub fits : All Fits c.sections
  pub selected : c.current_section < length c.sections
  pub inside : All (Inside c.sections) c.lines
  pub in_order : InOrder c.lines
  pub sized : All (λ (line : Line). line.size ≡ content_size line.content) c.lines

InOrder-snoc :
    (lines : List Line) (line : Line)
    → InOrder lines
    → All (λ l. Before l line) lines
    → InOrder (lines ++ (line ∷ []))
InOrder-snoc [] line o b = (tt, tt)
InOrder-snoc (l ∷ lines) line o b =
    (All-snoc (Before l) lines line o.0 b.0, InOrder-snoc lines line o.1 b.1)

-- A section that grows keeps its lines.
set-Inside :
    (sections : List AsmSection) (index : ℕ) (s : AsmSection) (line : Line)
    → size_at sections index ≤ s.size
    → Inside sections line
    → Inside (set sections index s) line
set-Inside sections index s line grows h =
    let read = get_or-set sections index line.section_index s (new_section []) in
    let size = length-set sections index s in
    (omega (arith, size), ground (arith, read, ap (λ (t : AsmSection). t.size) read))

pub put_current-IsPlaced :
    (c : AssemblerContext) (s : AsmSection)
    → IsPlaced c
    → Fits s
    → (current c).size ≤ s.size
    → IsPlaced (put_current c s)
unfolding put_current current
put_current-IsPlaced c s w fit grows = record {
  fits = All-set Fits c.sections c.current_section s w.fits fit;
  selected = omega (arith, length-set c.sections c.current_section s);
  inside =
      All-map (Inside c.sections) (Inside (set c.sections c.current_section s)) c.lines
        (λ line h. set-Inside c.sections c.current_section s line grows h) w.inside;
  in_order = w.in_order;
  sized = w.sized;
}

pub validate_section_range-Fits :
    (s t : AsmSection) (token : Option Token)
    → validate_section_range s token ≡ accepted t
    → Fits s × (t ≡ s)
unfolding validate_section_range asm_fail asm_token_fail
validate_section_range-Fits s t none h = (ground arith, ground arith)
validate_section_range-Fits s t (some token) h = (ground arith, ground arith)

-- The new line stands after the lines that its section has.
All-Before :
    (c : AssemblerContext) (line : Line)
    → All (Inside c.sections) c.lines
    → line.section_index ≡ c.current_section
    → line.section_offset ≡ (current c).size
    → All (λ l. Before l line) c.lines
unfolding current
All-Before c line inside index offset =
    All-map (Inside c.sections) (λ l. Before l line) c.lines
      (λ l h same.
        let there : l.section_index ≡ c.current_section = same ∙ index in
        let bound : l.section_offset + l.size ≤ size_at c.sections c.current_section =
          rw (sym there) h.1 in
        omega (arith, bound, offset))
      inside

abbrev placed_line : AssemblerContext → Line → Line
placed_line c line = record {
  label = line.label;
  content = line.content;
  size = content_size line.content;
  section_index = c.current_section;
  section_offset = (current c).size;
}

-- What an accepted line leaves.
record_line_result :
    (c d : AssemblerContext) (line : Line)
    → record_line c line ≡ accepted d
    → let grown : AsmSection = record (current c) {
      size = (current c).size + content_size line.content;
    } in
      Fits grown
      × (d ≡ record (put_current c grown) { lines = c.lines ++ (placed_line c line ∷ []) })
unfolding record_line asm_fail put_current
record_line_result c d line h =
    let grown : AsmSection = record (current c) {
      size = (current c).size + content_size line.content;
    } in
    elim (Bool-cases (ltb (size_t_max - (current c).size) (content_size line.content))) [
      | inl e ↦ let bad = rw (e, record_line) at h in absurd cc
      | inr e ↦
          let found = rw (e, record_line) at h in
          let (t, valid, last) = and_then-accepted _ _ found in
          let (fit, same) = validate_section_range-Fits grown t none valid in
          let whole : d
              ≡ record (put_current c t) { lines = c.lines ++ (placed_line c line ∷ []) } =
            cc in
          (
            fit,
            whole
                ∙ ap
                    (λ (x : AsmSection). record (put_current c x) {
                      lines = c.lines ++ (placed_line c line ∷ []);
                    })
                    same,
          )
    ]

pub record_line-IsPlaced :
    (c d : AssemblerContext) (line : Line)
    → IsPlaced c
    → record_line c line ≡ accepted d
    → IsPlaced d
unfolding put_current current
record_line-IsPlaced c d line w h =
    let grown : AsmSection = record (current c) {
      size = (current c).size + content_size line.content;
    } in
    let new = placed_line c line in
    let (fit, whole) = record_line_result c d line h in
    let put = put_current-IsPlaced c grown w fit (omega arith) in
    let read = get_or-set c.sections c.current_section c.current_section grown (new_section []) in
    let room : size_at (set c.sections c.current_section grown) c.current_section ≡ grown.size =
      ground (arith, ap (λ (t : AsmSection). t.size) read, w.selected) in
    let result : IsPlaced (record (put_current c grown) { lines = c.lines ++ (new ∷ []) }) =
      record {
        fits = put.fits;
        selected = put.selected;
        inside =
            All-snoc (Inside (set c.sections c.current_section grown)) c.lines new put.inside
              (put.selected, omega (arith, room));
        in_order = InOrder-snoc c.lines new w.in_order (All-Before c new w.inside refl refl);
        sized = All-snoc (λ (l : Line). l.size ≡ content_size l.content) c.lines new w.sized refl;
      } in
    rw whole result

-- A new section is empty and at address 0, and leaves the others where they are.
find_section_named-lt :
    (sections : List AsmSection) (start : ℕ) (name : List ℕ) (index : ℕ)
    → find_section_named sections start name ≡ some index
    → index < start + length sections
unfolding find_section_named
find_section_named-lt [] start name index h = absurd cc
find_section_named-lt (s ∷ sections) start name index h =
    ground (arith, find_section_named-lt sections (start + 1) name index)

append-Inside :
    (sections : List AsmSection) (s : AsmSection) (line : Line)
    → Inside sections line
    → Inside (sections ++ (s ∷ [])) line
append-Inside sections s line h =
    let size = length-append sections (s ∷ []) in
    let read = get_or-append sections (s ∷ []) line.section_index (new_section []) in
    (omega (arith, size), ground (arith, ap (λ (t : AsmSection). t.size) read))

pub select_section-IsPlaced :
    (c : AssemblerContext) (name : List ℕ)
    → IsPlaced c
    → let (d, index) = select_section c name in IsPlaced (record d { current_section = index })
unfolding select_section
select_section-IsPlaced c name w = elim (Option-cases (find_section_named c.sections 0 name)) [
  | inr (index, e) ↦
      rw (e, select_section)
        (record {
          fits = w.fits;
          selected = omega (arith, find_section_named-lt c.sections 0 name index e);
          inside = w.inside;
          in_order = w.in_order;
          sized = w.sized;
        })
  | inl e ↦
      rw (e, select_section)
        (record {
          fits = All-snoc Fits c.sections (new_section name) w.fits (omega arith);
          selected = omega (arith, length-append c.sections (new_section name ∷ []));
          inside =
              All-map (Inside c.sections) (Inside (c.sections ++ (new_section name ∷ []))) c.lines
                (append-Inside c.sections (new_section name)) w.inside;
          in_order = w.in_order;
          sized = w.sized;
        })
]

pub asm_init-IsPlaced : IsPlaced asm_init
unfolding asm_init
asm_init-IsPlaced = record {
  fits = (omega arith, tt);
  selected = omega arith;
  inside = tt;
  in_order = tt;
  sized = tt;
}
