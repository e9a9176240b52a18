-- ===== src/Image/Decode.antt =====
-- zl_image_decode of emulator/src/Image.c, step by step.
use zlvm.Prelude.{
  ℕ, zero, suc, ◌+◌, ◌-◌, Bool, true, ◌&&◌, ◌||◌, not, List, [], ◌∷◌, none, some, ltb, ◌==◌,
  if◌then◌else◌, get_or,
}
use zlvm.Outcome.{Outcome, accepted, and_then, refuse_if}
use zlvm.Image.{
  ImageError, image_bad_magic, image_unsupported_version, image_malformed, image_bounds,
  kind_object, kind_executable, multiply_size, get16, get32, in_range,
}

-- After a failure the caller's image has no tables, names or data.
abbrev pub Decoded {ℓ} : Type ℓ → Type ℓ
Decoded A = Outcome ImageError A

-- The calls of `calloc` and `malloc`, each made at most once; `allocates` says which succeed.
pub data Allocation : Type 0 where
  section_table symbol_table relocation_table entry_name : Allocation
  section_name section_content symbol_name : ℕ → Allocation

-- IMAGE_VERSION and the sizes of the header and the records.
abbrev pub image_version : ℕ
image_version = 1

abbrev pub header_size : ℕ
header_size = 52

abbrev pub section_record_size : ℕ
section_record_size = 28

abbrev pub symbol_record_size : ℕ
symbol_record_size = 20

abbrev pub relocation_record_size : ℕ
relocation_record_size = 20

-- The local variables that are read from the header.
pub record Header : Type 0 where
  pub kind : ℕ
  pub section_count : ℕ
  pub symbol_count : ℕ
  pub relocation_count : ℕ
  pub entry_field : ℕ
  pub section_offset : ℕ
  pub symbol_offset : ℕ
  pub relocation_offset : ℕ
  pub string_offset : ℕ
  pub string_size : ℕ
  pub payload_offset : ℕ

abbrev pub read_header : List ℕ → Header
read_header input = record {
  kind = get_or input 6 0;
  section_count = get32 input 12;
  symbol_count = get32 input 16;
  relocation_count = get32 input 20;
  entry_field = get32 input 24;
  section_offset = get32 input 28;
  symbol_offset = get32 input 32;
  relocation_offset = get32 input 36;
  string_offset = get32 input 40;
  string_size = get32 input 44;
  payload_offset = get32 input 48;
}

-- `memcmp` with the four bytes of "ZLIM".
unfoldable pub has_magic : List ℕ → Bool
has_magic input =
    get_or input 0 0 == 0x5a
    && get_or input 1 0 == 0x4c
    && get_or input 2 0 == 0x49
    && get_or input 3 0 == 0x4d

-- The tables lie in the input, in the order of the header. All numbers are below 2 ^ 37, so no sum
-- wraps.
unfoldable pub misplaced : Header → ℕ → ℕ → ℕ → ℕ → Bool
misplaced h section_bytes symbol_bytes relocation_bytes input_size =
    not (in_range h.section_offset section_bytes input_size)
    || not (in_range h.symbol_offset symbol_bytes input_size)
    || not (in_range h.relocation_offset relocation_bytes input_size)
    || not (in_range h.string_offset h.string_size input_size)
    || ltb input_size h.payload_offset
    || ltb h.section_offset header_size
    || ltb h.symbol_offset (h.section_offset + section_bytes)
    || ltb h.relocation_offset (h.symbol_offset + symbol_bytes)
    || ltb h.string_offset (h.relocation_offset + relocation_bytes)
    || ltb h.payload_offset h.string_offset
    || ltb (h.payload_offset - h.string_offset) h.string_size

unfoldable pub out_of_bounds : Header → ℕ → Bool
out_of_bounds h input_size = elim (multiply_size h.section_count section_record_size) [
  | none ↦ true
  | some section_bytes ↦ elim (multiply_size h.symbol_count symbol_record_size) [
    | none ↦ true
    | some symbol_bytes ↦ elim (multiply_size h.relocation_count relocation_record_size) [
      | none ↦ true
      | some relocation_bytes ↦ misplaced h section_bytes symbol_bytes relocation_bytes input_size
    ]
  ]
]

abbrev pub entry_of : Header → ℕ
entry_of h = if h.kind == kind_executable then h.entry_field else 0

unfoldable pub decode_header : List ℕ → ℕ → Decoded Header
decode_header input input_size =
    let h = read_header input in
    refuse_if (ltb input_size header_size || not (has_magic input)) image_bad_magic (
      refuse_if (not (get16 input 4 == image_version)) image_unsupported_version (
        refuse_if
          ((not (h.kind == kind_object) && not (h.kind == kind_executable))
            || not (get_or input 7 0 == 0)
            || not (get32 input 8 == header_size))
          image_malformed
          (refuse_if (out_of_bounds h input_size) image_bounds (
            refuse_if (h.string_size == 0 || not (get_or input h.string_offset 0 == 0))
              image_malformed
              (refuse_if
                (h.kind == kind_executable && (entry_of h == 0 || not (h.relocation_count == 0)))
                image_malformed (accepted h))))))

-- The loops over the three tables, from `index` on.
unfoldable pub decode_table {ℓ} : {A : Type ℓ} → (ℕ → Decoded A) → ℕ → ℕ → Decoded (List A)
decode_table f zero index = accepted []
decode_table f (suc left) index =
    and_then (f index) (λ x. and_then (decode_table f left (index + 1)) (λ xs. accepted (x ∷ xs)))

-- What `memcpy` copies.
unfoldable pub slice : ℕ → List ℕ → ℕ → List ℕ
slice zero input offset = []
slice (suc left) input offset = get_or input offset 0 ∷ slice left input (offset + 1)
