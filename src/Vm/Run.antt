-- ===== src/Vm/Run.antt =====
-- Fetching, the main loop and the loading of a raw ROM: emulator/src/VirtualMachineInternal.c.
pub mod Fetch
pub mod Load
pub mod Outcome
use zlvm.Prelude.{
  ℕ, zero, suc, ◌+◌, Bool, true, false, ◌&&◌, not, List, [], ◌∷◌, Option, none, some, ltb,
  if◌then◌else◌, to_word, length, set,
}
use zlvm.Instruction.{Instruction, instruction_size, instruction_decode}
use zlvm.Vm.{
  VirtualMachine, State, halted, err_out_of_memory, err_invalid_opcode, r_pc, r_bp, r_sp, rom_size,
  register, set_register, vm_set_state, vm_get_state, vm_has_no_error, vm_has_state,
}
use zlvm.Vm.Memory.{vm_validate_range, vm_read_byte}
use zlvm.Vm.Execute.{vm_run_instruction}

-- `vm->_registers[R_PC].word_++` comes before the read.
unfoldable pub vm_fetch_byte : VirtualMachine → ℕ × VirtualMachine
vm_fetch_byte vm =
    let pc = register vm r_pc in vm_read_byte (set_register vm r_pc (to_word (pc + 1))) pc

-- The bytes that the loop stores from `index` on.
unfoldable pub fetch_bytes : ℕ → VirtualMachine → List ℕ × VirtualMachine
fetch_bytes zero vm = ([], vm)
fetch_bytes (suc left) vm =
    let (b, vm') = vm_fetch_byte vm in let (bytes, vm'') = fetch_bytes left vm' in (b ∷ bytes, vm'')

-- `(Instruction){0}`
abbrev pub zero_instruction : Instruction
zero_instruction = record { opcode = 0; condition = 0; register1 = 0; register2 = 0; immediate = 0 }

unfoldable pub vm_fetch_instruction : VirtualMachine → Instruction × VirtualMachine
vm_fetch_instruction vm =
    let (valid, vm') = vm_validate_range vm (register vm r_pc) instruction_size in
    if not valid
    then (zero_instruction, vm')
    else let (bytes, vm'') = fetch_bytes instruction_size vm' in
      elim (instruction_decode (some bytes) instruction_size) [
        | none ↦ (zero_instruction, vm_set_state vm'' err_invalid_opcode)
        | some i ↦ (i, vm'')
      ]

-- One round of the main loop.
unfoldable pub cycle : VirtualMachine → VirtualMachine
cycle vm =
    let (i, vm') = vm_fetch_instruction vm in
    if vm_has_no_error vm' then vm_run_instruction vm' i else vm'

-- The loop's test.
unfoldable pub is_running : VirtualMachine → Bool
is_running vm = vm_has_no_error vm && not (vm_has_state vm halted)

-- A program may run for ever, so the loop takes fuel: `none` means that it is still running.
unfoldable pub run_loop : ℕ → VirtualMachine → Option VirtualMachine
run_loop zero vm = if is_running vm then none else some vm
run_loop (suc fuel) vm = elim (is_running vm) [ true ↦ run_loop fuel (cycle vm) | false ↦ some vm ]

-- The registers that `vm_run` sets before the loop.
unfoldable pub start : VirtualMachine → VirtualMachine
start vm =
    let vm' = set_register (set_register vm r_pc vm.entry_point) r_bp rom_size in
    set_register vm' r_sp (register vm' r_bp)

unfoldable pub vm_run : ℕ → VirtualMachine → Option (State × VirtualMachine)
vm_run fuel vm = elim (run_loop fuel (start vm)) [
  | none ↦ none
  | some vm' ↦ some (vm_get_state vm', vm')
]

-- The copying loop of `vm_loadDump`, with the bytes that are left from `index` on.
unfoldable pub copy_dump : List ℕ → ℕ → List ℕ → List ℕ
copy_dump rom index [] = rom
copy_dump rom index (b ∷ program) = copy_dump (set rom index b) (index + 1) program

-- `program` holds the `size` bytes that the caller passes.
unfoldable pub vm_load_dump : VirtualMachine → List ℕ → VirtualMachine
vm_load_dump vm program =
    if ltb rom_size (length program)
    then vm_set_state vm err_out_of_memory
    else record vm { rom = copy_dump vm.rom 0 program; entry_point = 0 }
