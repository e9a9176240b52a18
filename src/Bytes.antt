-- ===== src/Bytes.antt =====
-- Little-endian numbers in a run of bytes. The loops here are those of instruction_encode and
-- instruction_decode (emulator/src/Instruction.c), of put32 and get32 (emulator/src/Image.c) and
-- of write32 (emulator/src/Linker.c).
pub mod Laws
use zlvm.Prelude.{ℕ, zero, suc, ◌+◌, ◌*◌, ◌^◌, bit_or, List, to_byte, ◌<<<◌, ◌>>>◌, get_or, set}

-- `for (; left > 0; left--, index++) output[offset + index] = (byte)(value >> (index * 8))`
unfoldable pub put_bytes : ℕ → ℕ → List ℕ → ℕ → ℕ → List ℕ
put_bytes zero index output offset value = output
put_bytes (suc left) index output offset value =
    put_bytes left (index + 1) (set output (offset + index) (to_byte (value >>> (index * 8))))
      offset value

-- `for (; left > 0; left--, index++) value |= input[offset + index] << (index * 8)`
unfoldable pub get_bytes : ℕ → ℕ → List ℕ → ℕ → ℕ → ℕ
get_bytes zero index input offset value = value
get_bytes (suc left) index input offset value =
    get_bytes left (index + 1) input offset
      (bit_or value (get_or input (offset + index) 0 <<< (index * 8)))

-- The number that `count` bytes stand for, the first byte lowest.
unfoldable pub le_value : ℕ → (ℕ → ℕ) → ℕ → ℕ
le_value zero read offset = 0
le_value (suc count) read offset = read offset + 2 ^ 8 * le_value count read (offset + 1)
