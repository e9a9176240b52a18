-- ===== src/Instruction/RoundTrip.antt =====
-- emulator/src/Instruction.c: encoding and decoding undo one another.
use zlvm.Prelude.{
  ℕ, ◌+◌, ◌*◌, ◌≤◌, ◌<◌, ◌-◌, ◌>>>◌, ◌≡◌, ◌∙◌, arith, ◌&&◌, List, some, ltb, leb, ◌==◌,
  if◌then◌else◌, to_byte, IsByte, IsWord, length, get_or, set, get_or-set, length-set,
}
use zlvm.Opcode.{opcode_total}
use zlvm.Condition.{condition_total}
use zlvm.Bytes.{put_bytes, get_bytes, le_value}
use zlvm.Bytes.Laws.{get_bytes-le_value, le_value_digits, get_or-put_bytes, length-put_bytes}
use zlvm.Instruction.{Instruction, instruction_size, instruction_encode, instruction_decode}

-- The fields that the encoder accepts.
pub record IsEncodable (i : Instruction) : Type 0 where
  pub opcode : i.opcode < opcode_total
  pub condition : i.condition < condition_total
  pub register1 : IsByte i.register1
  pub register2 : IsByte i.register2
  pub immediate : IsWord i.immediate

abbrev header : List ℕ → Instruction → List ℕ
header out i =
    set (set (set (set out 0 (to_byte i.opcode)) 1 (to_byte i.condition)) 2 i.register1) 3
      i.register2

abbrev written : List ℕ → Instruction → List ℕ
written out i = put_bytes 4 0 (header out i) 4 i.immediate

length-header : (out : List ℕ) (i : Instruction) → length (header out i) ≡ length out
length-header out i = simp length-set

-- What a byte of the written buffer holds.
module _ (out : List ℕ) (i : Instruction) (room : instruction_size ≤ length out) where
  header_at :
      (j : ℕ)
      → get_or (header out i) j 0 ≡ (
          if j == 0
          then to_byte i.opcode
          else if j == 1
          then to_byte i.condition
          else if j == 2
          then i.register1
          else if j == 3
          then i.register2
          else get_or out j 0)
  header_at j =
      let a = set out 0 (to_byte i.opcode) in
      let b = set a 1 (to_byte i.condition) in
      let c = set b 2 i.register1 in
      ground (
        arith,
        get_or-set c 3 j i.register2 0,
        get_or-set b 2 j i.register1 0,
        get_or-set a 1 j (to_byte i.condition) 0,
        get_or-set out 0 j (to_byte i.opcode) 0,
        length-set b 2 i.register1,
        length-set a 1 (to_byte i.condition),
        length-set out 0 (to_byte i.opcode),
      )

  written_at :
      (j : ℕ)
      → get_or (written out i) j 0 ≡ (
          if leb 4 j && ltb j 8
          then to_byte (i.immediate >>> ((j - 4) * 8))
          else get_or (header out i) j 0)
  written_at j =
      get_or-put_bytes 4 0 (header out i) 4 i.immediate j (rw length-header (omega arith))

  immediate_value :
      IsWord i.immediate → le_value 4 (λ j. get_or (written out i) j 0) 4 ≡ i.immediate
  immediate_value h =
      le_value_digits 4 (λ j. get_or (written out i) j 0) 4 i.immediate
        (λ j p. ground (arith, written_at (4 + j)))
      ∙ omega arith

  written-IsByte :
      ((j : ℕ) → IsByte (get_or out j 0))
      → IsByte i.register1
      → IsByte i.register2
      → (j : ℕ) → IsByte (get_or (written out i) j 0)
  written-IsByte bytes p q j = ground (arith, written_at j, header_at j, bytes j)

-- An instruction whose fields fit is encoded into any buffer of bytes with room for it, decoding
-- gives it back, and the encoder changes no byte behind the first eight.
pub instruction_decode-encode :
    (out : List ℕ) (size : ℕ) (i : Instruction)
    → IsEncodable i
    → instruction_size ≤ size
    → size ≤ length out
    → ((j : ℕ) → IsByte (get_or out j 0))
    → (bytes : List ℕ) × (instruction_encode (some out) size (some i) ≡ some bytes)
      × (instruction_decode (some bytes) size ≡ some i)
      × (length bytes ≡ length out)
      × ((j : ℕ) → 8 ≤ j → get_or bytes j 0 ≡ get_or out j 0)
unfolding instruction_encode instruction_decode
instruction_decode-encode out size i ok p room bytes = (
  written out i,
  ground arith,
  decoded,
  length-put_bytes 4 0 (header out i) 4 i.immediate ∙ length-header out i,
  λ j h. ground (arith, written_at out i enough j, header_at out i enough j),
)
  where
    enough : instruction_size ≤ length out
    enough = omega arith

    read_back : get_bytes 4 0 (written out i) 4 0 ≡ i.immediate
    read_back =
        get_bytes-le_value 4 0 (written out i) 4 0
          (written-IsByte out i enough bytes ok.register1 ok.register2) (omega arith)
        ∙ omega (arith, immediate_value out i enough ok.immediate)

    decoded : instruction_decode (some (written out i)) size ≡ some i
    decoded = ground (
      arith,
      read_back,
      written_at out i enough 0,
      written_at out i enough 1,
      written_at out i enough 2,
      written_at out i enough 3,
      header_at out i enough 0,
      header_at out i enough 1,
      header_at out i enough 2,
      header_at out i enough 3,
    )
