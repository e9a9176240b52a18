-- ===== src/Image/Accept.antt =====
-- zl_image_decode of emulator/src/Image.c accepts well-formed images only.
use zlvm.Prelude.{
  ℕ, suc, ◌+◌, ◌-◌, ◌*◌, ◌≡◌, ◌∙◌, refl, sym, arith, ◌⊎◌, inl, inr, Bool, true, false, ◌&&◌, List,
  [], ◌∷◌, some, ltb, leb, ◌==◌, get_or, get_elem?, length, length-replicate, All, All-replicate,
  IsByte, IsWord, Bool-cases, Option-cases, if_either,
}
use zlvm.Image.{
  Image, ImageSection, ImageSymbol, ImageRelocation, kind_object, kind_executable, section_text,
  get32, get_string,
}
use zlvm.Outcome.{accepted, and_then-accepted, refuse_if-accepted}
use zlvm.Image.Decode.{
  Allocation, Header, entry_of, read_header, decode_header, section_record_size, symbol_record_size,
  relocation_record_size,
}
use zlvm.Image.Records.{
  decode_section, decode_symbol, decode_relocation, entry_found, check_entry, decode_body,
  zl_image_decode, read_section, section_refused, read_symbol, read_relocation,
}
use zlvm.Image.Steps.{decode_table-All, get32-IsWord, slice-All}
use zlvm.Image.WellFormed.{IsSection, IsSymbol, IsRelocation, IsEntry, IsWellFormed}

-- What the header's checks leave.
record IsHeader (h : Header) : Type 0 where
  kind : (h.kind ≡ kind_object) ⊎ (h.kind ≡ kind_executable)
  entry_word : IsWord h.entry_field
  linked : h.kind ≡ kind_executable → h.relocation_count ≡ 0

module _ (input : List ℕ) (bytes : (j : ℕ) → IsByte (get_or input j 0)) where
  decode_header-IsHeader :
      (input_size : ℕ) (h : Header) → decode_header input input_size ≡ accepted h → IsHeader h
  unfolding decode_header
  decode_header-IsHeader input_size h e =
      let (magic, e1) = refuse_if-accepted _ _ _ e in
      let (version, e2) = refuse_if-accepted _ _ _ e1 in
      let (kinds, e3) = refuse_if-accepted _ _ _ e2 in
      let (bounds, e4) = refuse_if-accepted _ _ _ e3 in
      let (strings, e5) = refuse_if-accepted _ _ _ e4 in
      let (linked, e6) = refuse_if-accepted _ _ _ e5 in
      let same : h ≡ read_header input = cc in
      rw same (record {
        kind = ground arith;
        entry_word = get32-IsWord input 24 bytes;
        linked = λ k. ground arith;
      })

  read_section-IsSection :
      (input_size : ℕ) (h : Header) (at : ℕ) (name : List ℕ)
      → section_refused h input_size (read_section input at name) (get32 input (at + 20)) ≡ false
      → IsSection (read_section input at name)
  read_section-IsSection input_size h at name fine =
      let data_size = get32 input (at + 24) in
      let copied = slice-All data_size input (get32 input (at + 20)) bytes in
      record {
        alignment = ground arith;
        type_low = ground arith;
        type_high = ground arith;
        extent = ground (arith, get32-IsWord input (at + 16) bytes);
        size = ground (arith, copied, length-replicate {A = ℕ} data_size 0);
        bytes = if_either (All IsByte) _ (All-replicate IsByte data_size 0 (omega arith)) copied.0;
      }

  decode_section-IsSection :
      (allocates : Allocation → Bool) (input_size : ℕ) (h : Header) (index : ℕ) (s : ImageSection)
      → decode_section allocates input input_size h index ≡ accepted s
      → IsSection s
  unfolding decode_section
  decode_section-IsSection allocates input_size h index s e =
      let at = h.section_offset + index * section_record_size in
      elim (Option-cases (get_string input h.string_offset h.string_size (get32 input at))) [
        | inl f ↦ absurd (ground arith)
        | inr (name, f) ↦
            let e' = rw (f, decode_section) at e in
            let (fine, e1) = refuse_if-accepted _ _ _ e' in
            let (allocated, e2) = refuse_if-accepted _ _ _ e1 in
            let same : s ≡ read_section input at name = cc in
            rw same (read_section-IsSection input_size h at name fine)
      ]

decode_symbol-IsSymbol :
    (allocates : Allocation → Bool) (input : List ℕ) (h : Header) (index : ℕ) (s : ImageSymbol)
    → decode_symbol allocates input h index ≡ accepted s
    → IsSymbol h.section_count s
unfolding decode_symbol
decode_symbol-IsSymbol allocates input h index s e =
    let at = h.symbol_offset + index * symbol_record_size in
    elim (Option-cases (get_string input h.string_offset h.string_size (get32 input at))) [
      | inl f ↦ absurd (ground arith)
      | inr (name, f) ↦
          let e' = rw (f, decode_symbol) at e in
          let (fine, e1) = refuse_if-accepted _ _ _ e' in
          let (allocated, e2) = refuse_if-accepted _ _ _ e1 in
          let (known, e3) = refuse_if-accepted _ _ _ e2 in
          let (padded, e4) = refuse_if-accepted _ _ _ e3 in
          let same : s ≡ read_symbol input at name = cc in
          rw same (record { section = ground arith; binding = ground arith; type = ground arith })
    ]

decode_relocation-IsRelocation :
    (input : List ℕ) (h : Header) (sections : List ImageSection) (index : ℕ) (r : ImageRelocation)
    → decode_relocation input h sections index ≡ accepted r
    → IsRelocation sections h.symbol_count r
unfolding decode_relocation
decode_relocation-IsRelocation input h sections index r e =
    let read = read_relocation input (h.relocation_offset + index * relocation_record_size) in
    elim (Option-cases (get_elem? sections read.section_index)) [
      | inl f ↦ absurd (ground arith)
      | inr (s, f) ↦
          let e' = rw (f, decode_relocation) at e in
          let (fine, e1) = refuse_if-accepted _ _ _ e' in
          let same : r ≡ read = cc in
          rw same (record {
            target = s;
            found = f;
            content = λ bss. ground arith;
            inside = ground arith;
            symbol = ground arith;
            type = ground arith;
          })
    ]

entry_found-IsEntry :
    (entry : ℕ) (sections : List ImageSection)
    → entry_found entry sections ≡ true
    → IsEntry entry sections
unfolding entry_found get_elem?
entry_found-IsEntry entry [] e = absurd cc
entry_found-IsEntry entry (s ∷ sections) e =
    elim (Bool-cases
      (s.type == section_text && leb s.address entry && ltb (entry - s.address) s.data_size)) [
        | inl here ↦ record {
          index = 0;
          section = s;
          found = refl;
          text = ground arith;
          low = ground arith;
          high = ground arith;
        }
        | inr elsewhere ↦
            let later = entry_found-IsEntry entry sections (ground arith) in
            record {
              index = suc later.index;
              section = later.section;
              found = later.found;
              text = later.text;
              low = later.low;
              high = later.high;
            }
      ]

empty_table : {A : Type 0} → (xs : List A) → length xs ≡ 0 → xs ≡ []
empty_table [] e = refl
empty_table (x ∷ xs) e = absurd (omega arith)

-- The last check, on an image whose tables are known.
check_entry-IsWellFormed :
    (image result : Image) (h : Header)
    → IsHeader h
    → image.kind ≡ h.kind
    → image.entry_point ≡ entry_of h
    → length image.relocations ≡ h.relocation_count
    → All IsSection image.sections
    → All (IsSymbol (length image.sections)) image.symbols
    → All (IsRelocation image.sections (length image.symbols)) image.relocations
    → check_entry image ≡ accepted result
    → IsWellFormed result
unfolding check_entry
check_entry-IsWellFormed image result h ok kind point count sections symbols relocations e =
    let (fine, e1) = refuse_if-accepted _ _ _ e in
    let same : result ≡ image = cc in
    rw same (record {
      kind = rw kind ok.kind;
      sections = sections;
      symbols = symbols;
      relocations = relocations;
      entry_word = ground (arith, ok.entry_word);
      object = λ k. ground arith;
      linked = λ k. empty_table image.relocations (count ∙ ok.linked (sym kind ∙ k));
      entry = λ k. entry_found-IsEntry image.entry_point image.sections (ground arith);
    })

-- Whatever bytes the input holds and whichever allocations succeed, an image that is accepted is
-- well formed: its sections have known types, an alignment that passes the check, an extent within
-- 32 bits and as many bytes as they say; its symbols and relocations refer to what exists; the four
-- bytes of a relocation lie in a section with content; an executable has no relocations, and its
-- entry point lies in a text section.
pub zl_image_decode-IsWellFormed :
    (allocates : Allocation → Bool) (input : List ℕ) (input_size : ℕ) (image : Image)
    → ((j : ℕ) → IsByte (get_or input j 0))
    → zl_image_decode allocates (some input) input_size ≡ accepted image
    → IsWellFormed image
unfolding zl_image_decode decode_body
zl_image_decode-IsWellFormed allocates input input_size image bytes e =
    let (h, header, e1) = and_then-accepted _ _ e in
    let (allocated, e2) = refuse_if-accepted _ _ _ e1 in
    let (entry, named, e3) = and_then-accepted _ _ e2 in
    let (sections, sections_read, e4) = and_then-accepted _ _ e3 in
    let (symbols, symbols_read, e5) = and_then-accepted _ _ e4 in
    let (relocations, relocations_read, e6) = and_then-accepted _ _ e5 in
    let (all, count) =
      decode_table-All IsSection _ (decode_section-IsSection input bytes allocates input_size h) _ _
        _ sections_read in
    let (all', count') =
      decode_table-All (IsSymbol h.section_count) _ (decode_symbol-IsSymbol allocates input h) _ _ _
        symbols_read in
    let (all'', count'') =
      decode_table-All (IsRelocation sections h.symbol_count) _
        (decode_relocation-IsRelocation input h sections) _ _ _ relocations_read in
    check_entry-IsWellFormed _ image h (decode_header-IsHeader input bytes input_size h header) refl
      refl count'' all (rw count all') (rw count' all'') e6
