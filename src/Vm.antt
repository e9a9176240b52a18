-- ===== src/Vm.antt =====
-- The machine's state: include/VirtualMachine.h, State.h, CPSR.h, Registers.h, and the state
-- functions of emulator/src/VirtualMachineInternal.c.
pub mod Valid
pub mod Memory
pub mod Stack
pub mod Condition
pub mod Switch
pub mod Execute
pub mod Run
pub mod Image
use zlvm.Prelude.{
  ℕ, Bool, false, ◌&&◌, not, List, [], leb, ◌==◌, if◌then◌else◌, get_or, set, replicate,
}
use zlvm.Alu.{Alu, alu_reset}

pub data State : Type 0 where
  halted normal err_begin err_out_of_memory err_stack_overflow err_stack_underflow : State
  err_division_by_zero err_invalid_condition err_invalid_opcode err_end state_total : State

unfoldable pub state_code : State → ℕ
state_code halted = 0
state_code normal = 1
state_code err_begin = 2
state_code err_out_of_memory = 3
state_code err_stack_overflow = 4
state_code err_stack_underflow = 5
state_code err_division_by_zero = 6
state_code err_invalid_condition = 7
state_code err_invalid_opcode = 8
state_code err_end = 9
state_code state_total = 10

unfoldable pub is_error : State → Bool
unfolding state_code
is_error s = leb (state_code err_begin) (state_code s) && leb (state_code s) (state_code err_end)

-- The bit fields of the union; nothing reads it through `value_` but the reset to 0.
pub record Cpsr : Type 0 where
  pub n : Bool
  pub z : Bool
  pub c : Bool
  pub v : Bool
  pub s : Bool
  pub st : State

-- `_memory` holds `_memorySize` bytes. `input` is what `fgetc(stdin)` has still to read and
-- `output` what `fputc` has written to stdout, the last byte first.
pub record VirtualMachine : Type 0 where
  pub cpsr : Cpsr
  pub alu : Alu
  pub registers : List ℕ
  pub rom : List ℕ
  pub memory : List ℕ
  pub memory_size : ℕ
  pub entry_point : ℕ
  pub input : List ℕ
  pub output : List ℕ

-- The enumerators of include/Registers.h that the machine names.
abbrev pub r_zero : ℕ
r_zero = 0

abbrev pub r_v0 : ℕ
r_v0 = 2

abbrev pub r_a0 : ℕ
r_a0 = 6

abbrev pub r_sc : ℕ
r_sc = 27

abbrev pub r_lp : ℕ
r_lp = 28

abbrev pub r_sp : ℕ
r_sp = 29

abbrev pub r_bp : ℕ
r_bp = 30

abbrev pub r_pc : ℕ
r_pc = 31

-- ZLVM_REGISTER_COUNT, ZLVM_ROM_SIZE, ZLVM_STACK_SIZE, ZLVM_WORD_SIZE
abbrev pub register_count : ℕ
register_count = 32

abbrev pub rom_size : ℕ
rom_size = 4096

abbrev pub stack_size : ℕ
stack_size = 256

abbrev pub word_size : ℕ
word_size = 4

-- `vm->_registers[r].word_`, read and written.
unfoldable pub register : VirtualMachine → ℕ → ℕ
register vm r = get_or vm.registers r 0

unfoldable pub set_register : VirtualMachine → ℕ → ℕ → VirtualMachine
set_register vm r value = record vm { registers = set vm.registers r value }

unfoldable pub vm_has_no_error : VirtualMachine → Bool
vm_has_no_error vm = not (is_error vm.cpsr.st)

unfoldable pub vm_has_state : VirtualMachine → State → Bool
unfolding state_code
vm_has_state vm state = state_code vm.cpsr.st == state_code state

unfoldable pub vm_set_state : VirtualMachine → State → VirtualMachine
unfolding vm_has_no_error
vm_set_state vm state =
    if vm_has_no_error vm then record vm { cpsr = record (vm.cpsr) { st = state } } else vm

unfoldable pub vm_get_state : VirtualMachine → State
vm_get_state vm = vm.cpsr.st

-- `vm_calloc` returns zeroed memory or ends the process. The console is the process's.
unfoldable pub vm_initialize : ℕ → List ℕ → VirtualMachine → VirtualMachine
vm_initialize ram_size stdin vm =
    vm_set_state
      (record {
        cpsr = record { n = false; z = false; c = false; v = false; s = false; st = halted };
        alu = alu_reset vm.alu;
        registers = replicate register_count 0;
        rom = replicate rom_size 0;
        memory = replicate ram_size 0;
        memory_size = ram_size;
        entry_point = 0;
        input = stdin;
        output = [];
      })
      normal

-- The pointer is NULL afterwards: no bytes are left behind it.
unfoldable pub vm_destroy : VirtualMachine → VirtualMachine
vm_destroy vm = record vm { memory = []; memory_size = 0 }
