-- ===== src/Instruction.antt =====
-- The instruction and its encoding: include/Instruction.h and emulator/src/Instruction.c.
-- Any byte may stand in an enumeration's field, so the two fields hold values and not names.
pub mod RoundTrip
use zlvm.Prelude.{ℕ, ◌||◌, List, Option, none, some, ltb, leb, if◌then◌else◌, to_byte, get_or, set}
use zlvm.Opcode.{opcode_total}
use zlvm.Condition.{condition_total}
use zlvm.Bytes.{put_bytes, get_bytes}

pub record Instruction : Type 0 where
  pub opcode : ℕ
  pub condition : ℕ
  pub register1 : ℕ
  pub register2 : ℕ
  pub immediate : ℕ

-- ZLVM_INSTRUCTION_SIZE
abbrev pub instruction_size : ℕ
instruction_size = 8

-- `none` for a pointer is NULL, and for the result is `false`, which leaves the output alone.
unfoldable pub instruction_encode : Option (List ℕ) → ℕ → Option Instruction → Option (List ℕ)
instruction_encode none size instruction = none
instruction_encode (some output) size none = none
instruction_encode (some output) size (some i) =
    if ltb size instruction_size || leb opcode_total i.opcode || leb condition_total i.condition
    then none
    else some (
        put_bytes 4 0
          (set (set (set (set output 0 (to_byte i.opcode)) 1 (to_byte i.condition)) 2 i.register1) 3
            i.register2)
          4 i.immediate)

unfoldable pub instruction_decode : Option (List ℕ) → ℕ → Option Instruction
instruction_decode none size = none
instruction_decode (some input) size =
    if ltb size instruction_size
    then none
    else some (record {
      opcode = get_or input 0 0;
      condition = get_or input 1 0;
      register1 = get_or input 2 0;
      register2 = get_or input 3 0;
      immediate = get_bytes 4 0 input 4 0;
    })
