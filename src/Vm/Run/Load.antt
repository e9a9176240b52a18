-- ===== src/Vm/Run/Load.antt =====
-- emulator/src/VirtualMachineInternal.c: a loaded program is what the machine fetches.
use zlvm.Prelude.{
  ℕ, zero, suc, ◌+◌, ◌-◌, ◌≤◌, ◌<◌, ◌≡◌, ◌∙◌, refl, ap, arith, some, List, [], ◌∷◌, ltb, leb, ◌&&◌,
  ◌==◌, if◌then◌else◌, IsByte, IsWord, length, get_or, set, get_or-set, length-set,
}
use zlvm.Bytes.{get_bytes}
use zlvm.Instruction.{Instruction, instruction_size, instruction_decode, instruction_encode}
use zlvm.Instruction.RoundTrip.{IsEncodable, instruction_decode-encode}
use zlvm.Vm.{VirtualMachine, rom_size, r_pc, register, set_register}
use zlvm.Vm.Valid.{IsValid, memory_end, byte_at}
use zlvm.Vm.Run.{vm_fetch_instruction, copy_dump, vm_load_dump}
use zlvm.Vm.Run.Fetch.{bytes_at, vm_fetch_instruction_ok}

get_or_cons :
    (b : ℕ) (bs : List ℕ) (j : ℕ)
    → get_or (b ∷ bs) j 0 ≡ (if j == 0 then b else get_or bs (j - 1) 0)
unfolding get_or
get_or_cons b bs zero = refl
get_or_cons b bs (suc j) = ground arith

pub length-copy_dump :
    (program rom : List ℕ) (index : ℕ) → length (copy_dump rom index program) ≡ length rom
unfolding copy_dump
length-copy_dump [] rom index = refl
length-copy_dump (b ∷ program) rom index =
    length-copy_dump program (set rom index b) (index + 1) ∙ length-set rom index b

pub get_or-copy_dump :
    (program rom : List ℕ) (index j : ℕ)
    → index + length program ≤ length rom
    → get_or (copy_dump rom index program) j 0 ≡ (
        if leb index j && ltb j (index + length program)
        then get_or program (j - index) 0
        else get_or rom j 0)
unfolding copy_dump
get_or-copy_dump [] rom index j room = ground arith
get_or-copy_dump (b ∷ program) rom index j room = ground (
  arith,
  get_or-copy_dump program (set rom index b) (index + 1) j,
  get_or-set rom index j b 0,
  length-set rom index b,
  get_or_cons b program (j - index),
)

-- In a valid machine, a program of at most ZLVM_ROM_SIZE bytes is found in memory from address 0 on,
-- the rest of the memory stays, and the machine starts at 0.
pub vm_load_dump_lem :
    (vm : VirtualMachine) (program : List ℕ)
    → IsValid vm
    → length program ≤ rom_size
    → ((vm_load_dump vm program).entry_point ≡ 0)
      × ((a : ℕ)
          → byte_at (vm_load_dump vm program) a
            ≡ (if ltb a (length program) then get_or program a 0 else byte_at vm a))
unfolding vm_load_dump byte_at
vm_load_dump_lem vm program v h =
    (ground arith, λ a. ground (arith, get_or-copy_dump program vm.rom 0 a, v.rom_length))

-- Decoding looks at eight bytes only.
decode_ext :
    (a b : List ℕ) (size : ℕ)
    → instruction_size ≤ size
    → ((j : ℕ) → j < 8 → get_or a j 0 ≡ get_or b j 0)
    → instruction_decode (some a) instruction_size ≡ instruction_decode (some b) size
unfolding instruction_decode get_bytes
decode_ext a b size p h = ground (
  arith,
  h 0 (omega arith),
  h 1 (omega arith),
  h 2 (omega arith),
  h 3 (omega arith),
  h 4 (omega arith),
  h 5 (omega arith),
  h 6 (omega arith),
  h 7 (omega arith),
)

get_or-bytes_at :
    (vm : VirtualMachine) (n a j : ℕ) → j < n → get_or (bytes_at vm n a) j 0 ≡ byte_at vm (a + j)
unfolding get_or
get_or-bytes_at vm zero a j h = absurd (omega arith)
get_or-bytes_at vm (suc n) a zero h = ap (byte_at vm) (omega arith)
get_or-bytes_at vm (suc n) a (suc j) h =
    get_or-bytes_at vm n (a + 1) j (omega arith) ∙ ap (byte_at vm) (omega arith)

-- Where memory holds at the program counter the eight bytes that the encoder writes for an
-- instruction, a fetch gives this instruction and moves the counter behind it.
pub vm_fetch_instruction-encode :
    (vm : VirtualMachine) (pc : ℕ) (i : Instruction) (out bytes : List ℕ) (size : ℕ)
    → IsValid vm
    → register vm r_pc ≡ pc
    → pc + instruction_size ≤ memory_end vm
    → IsWord (pc + instruction_size)
    → IsEncodable i
    → instruction_size ≤ size
    → size ≤ length out
    → ((j : ℕ) → IsByte (get_or out j 0))
    → instruction_encode (some out) size (some i) ≡ some bytes
    → ((j : ℕ) → j < instruction_size → byte_at vm (pc + j) ≡ get_or bytes j 0)
    → vm_fetch_instruction vm ≡ (i, set_register vm r_pc (pc + instruction_size))
vm_fetch_instruction-encode vm pc i out bytes size v e room w ok p q b encoded held =
    let (bytes', encoded', decoded, _, _) = instruction_decode-encode out size i ok p q b in
    let (i', here, fetched) = vm_fetch_instruction_ok vm pc v e room w in
    let same =
      decode_ext (bytes_at vm 8 pc) bytes size p (λ j h. get_or-bytes_at vm 8 pc j h ∙ held j h) in
    ground (arith, fetched, here, same, decoded, encoded, encoded')
