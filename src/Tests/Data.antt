-- ===== src/Tests/Data.antt =====
-- Test data: instructions, a program of two of them, and a machine with 64 bytes of RAM whose ROM
-- starts with the interrupt that halts.
use zlvm.Prelude.{
  ℕ, ◌≡◌, refl, arith, true, false, get_elem?, List, [], ◌∷◌, IsByte, replicate, length-replicate,
  All-replicate, get_or,
}
use zlvm.Alu.{Alu, op_noop, no_flags}
use zlvm.Instruction.{Instruction}
use zlvm.Vm.{
  VirtualMachine, Cpsr, normal, register, r_sp, r_bp, vm_has_no_error, is_error, state_code,
}
use zlvm.Vm.Stack.Laws.{IsStack}
use zlvm.Vm.Valid.{IsValid}

abbrev pub add_five : Instruction
add_five = record { opcode = 13; condition = 0; register1 = 10; register2 = 0; immediate = 5 }

abbrev pub divide_by_zero : Instruction
divide_by_zero = record { opcode = 16; condition = 0; register1 = 10; register2 = 0; immediate = 0 }

abbrev pub halt : Instruction
halt = record { opcode = 18; condition = 0; register1 = 0; register2 = 0; immediate = 0xff }

abbrev pub program : List ℕ
program = 13 ∷ 0 ∷ 10 ∷ 0 ∷ 5 ∷ 0 ∷ 0 ∷ 0 ∷ 18 ∷ 0 ∷ 0 ∷ 0 ∷ 0xff ∷ 0 ∷ 0 ∷ 0 ∷ []

abbrev pub halting_rom : List ℕ
halting_rom = 18 ∷ 0 ∷ 0 ∷ 0 ∷ 0xff ∷ 0 ∷ 0 ∷ 0 ∷ replicate 4088 0

abbrev pub cleared_alu : Alu
cleared_alu = record { left = 0; right = 0; result = 0; op = op_noop; flags = no_flags }

abbrev pub running : Cpsr
running = record { n = false; z = false; c = false; v = false; s = false; st = normal }

-- t0 is 7, and the stack is empty.
abbrev pub registers_at : ℕ → List ℕ
registers_at pc =
    0 ∷ 0 ∷ 0 ∷ 0 ∷ 0 ∷ 0 ∷ 0 ∷ 0 ∷ 0 ∷ 0 ∷ 7 ∷ 0 ∷ 0 ∷ 0 ∷ 0 ∷ 0 ∷ 0 ∷ 0 ∷ 0 ∷ 0 ∷ 0 ∷ 0 ∷ 0 ∷ 0
    ∷ 0 ∷ 0 ∷ 0 ∷ 0 ∷ 0 ∷ 4096 ∷ 4096 ∷ pc ∷ []

abbrev pub machine : VirtualMachine
machine = record {
  cpsr = running;
  alu = cleared_alu;
  registers = registers_at 0;
  rom = halting_rom;
  memory = replicate 64 0;
  memory_size = 64;
  entry_point = 0;
  input = [];
  output = [];
}

pub machine-IsValid : IsValid machine
machine-IsValid = record {
  rom_length = omega (arith, length-replicate {A = ℕ} 4088 0);
  memory_length = length-replicate {A = ℕ} 64 0;
  fits = omega arith;
  register_length = refl;
  rom_bytes = (
    omega arith,
    (
      omega arith,
      (
        omega arith,
        (
          omega arith,
          (
            omega arith,
            (omega arith, (omega arith, (omega arith, All-replicate IsByte 4088 0 (omega arith)))),
          ),
        ),
      ),
    ),
  );
  memory_bytes = All-replicate IsByte 64 0 (omega arith);
  register_words = omega arith;
  entry_word = omega arith;
}

pub machine_sp : register machine r_sp ≡ 4096
unfolding register get_or get_elem?
machine_sp = refl

pub machine_bp : register machine r_bp ≡ 4096
unfolding register get_or get_elem?
machine_bp = refl

pub machine-IsStack : IsStack machine
machine-IsStack = record {
  ordered = omega (arith, machine_sp, machine_bp);
  depth = omega (arith, machine_sp, machine_bp);
  aligned = omega (arith, machine_sp, machine_bp);
  inside = omega (arith, machine_sp);
}

pub machine_without_error : vm_has_no_error machine ≡ true
unfolding vm_has_no_error is_error state_code
machine_without_error = refl
