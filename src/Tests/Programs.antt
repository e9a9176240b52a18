-- ===== src/Tests/Programs.antt =====
-- The theorems on instructions and runs, at a concrete machine and its programs.
use zlvm.Prelude.{
  ℕ, ◌+◌, ◌<◌, ◌≡◌, ◌⊎◌, refl, arith, true, false, ◌&&◌, some, List, [], ◌∷◌, if◌then◌else◌, ltb,
  ◌==◌, to_word, length, get_or, get_elem?, replicate, set, get_or-replicate, length-replicate,
  zero, suc,
}
use zlvm.Alu.{op_add, op_div, alu_compute, is_division, operation_code}
use zlvm.Bytes.{put_bytes, get_bytes}
use zlvm.Opcode.{addi, divi, opcode_of}
use zlvm.Instruction.{instruction_encode, instruction_decode}
use zlvm.Condition.{condition_of}
use zlvm.Vm.{
  VirtualMachine, halted, err_division_by_zero, register, set_register, r_zero, r_pc,
  register_count, is_error, state_code, vm_set_state, vm_has_no_error, vm_has_state, vm_get_state,
}
use zlvm.Vm.Valid.{IsValid, byte_at}
use zlvm.Vm.Condition.{vm_check_condition, test_condition}
use zlvm.Vm.Switch.{by_immediate, operand, arithmetic, transfer, execute, vm_interrupt}
use zlvm.Vm.Execute.{dispatch, write_back, finish, vm_run_instruction}
use zlvm.Vm.Execute.Valid.{vm_run_instruction-IsValid}
use zlvm.Vm.Execute.Frame.{released, stopped}
use zlvm.Vm.Execute.Arithmetic.{arithmetic_instruction, division_by_zero}
use zlvm.Vm.Memory.{vm_validate_range, vm_read_byte}
use zlvm.Vm.Run.{
  fetch_bytes, vm_fetch_byte, cycle, start, is_running, vm_fetch_instruction, vm_load_dump, vm_run,
}
use zlvm.Vm.Run.Load.{vm_load_dump_lem, vm_fetch_instruction-encode}
use zlvm.Vm.Run.Outcome.{run_loop_step, run_loop_stopped, vm_run_outcome}
use zlvm.Tests.Data.{
  machine, machine-IsValid, machine_without_error, program, add_five, divide_by_zero, halt,
}

vm_run_instruction-IsValid_example :
    IsValid (vm_run_instruction machine add_five)
    × (register (vm_run_instruction machine add_five) r_zero ≡ 0)
vm_run_instruction-IsValid_example =
    vm_run_instruction-IsValid machine add_five machine-IsValid (omega arith)

pub passes_zero :
    vm_check_condition (set_register machine r_zero 0) 0 ≡ (true, set_register machine r_zero 0)
unfolding vm_check_condition condition_of test_condition
passes_zero = refl

named_addi : opcode_of 13 ≡ some addi
unfolding opcode_of get_elem?
named_addi = refl

named_divi : opcode_of 16 ≡ some divi
unfolding opcode_of get_elem?
named_divi = refl

abbrev cleared : VirtualMachine
cleared = set_register machine r_zero 0

arithmetic_instruction_example :
    let computed = alu_compute (record (machine.alu) {
      left = register cleared 10;
      right = operand by_immediate add_five cleared;
      op = op_add;
    }) in
    let vm' = vm_run_instruction machine add_five in
    (vm' ≡ record machine {
      cpsr = record (machine.cpsr) {
        n = computed.flags.n;
        z = computed.flags.z;
        v = computed.flags.v;
        c = computed.flags.c;
        s = computed.flags.s;
      };
      registers = vm'.registers;
      alu = released computed;
    })
    × (length vm'.registers ≡ register_count)
    × ((s : ℕ)
        → s < register_count
        → register vm' s ≡ (
            if s == r_zero
            then 0
            else if true && s == 10
            then to_word computed.result
            else register machine s))
unfolding arithmetic is_division
arithmetic_instruction_example =
    arithmetic_instruction machine add_five addi op_add by_immediate true machine-IsValid
      machine_without_error passes_zero named_addi (omega arith) (omega arith) refl refl

division_by_zero_example :
    let vm' = vm_run_instruction machine divide_by_zero in
    (vm' ≡ record (stopped machine err_division_by_zero) { alu = released machine.alu })
    × ((s : ℕ)
        → s < register_count
        → register vm' s ≡ (if s == r_zero then 0 else register machine s))
unfolding arithmetic operand is_division operation_code
division_by_zero_example =
    division_by_zero machine divide_by_zero divi op_div by_immediate true machine-IsValid
      machine_without_error passes_zero named_divi (omega arith) (omega arith) refl refl

vm_load_dump_lem_example :
    ((vm_load_dump machine program).entry_point ≡ 0)
    × ((a : ℕ)
        → byte_at (vm_load_dump machine program) a
          ≡ (if ltb a (length program) then get_or program a 0 else byte_at machine a))
vm_load_dump_lem_example = vm_load_dump_lem machine program machine-IsValid (omega arith)

abbrev encoded_halt : List ℕ
encoded_halt = 18 ∷ 0 ∷ 0 ∷ 0 ∷ 0xff ∷ 0 ∷ 0 ∷ 0 ∷ []

machine_pc : register machine r_pc ≡ 0
unfolding register get_or get_elem?
machine_pc = refl

encodes_halt : instruction_encode (some (replicate {A = ℕ} 8 0)) 8 (some halt) ≡ some encoded_halt
unfolding instruction_encode put_bytes set replicate
encodes_halt = refl

holds_halt : (j : ℕ) → j < 8 → byte_at machine (0 + j) ≡ get_or encoded_halt j 0
unfolding byte_at get_or get_elem?
holds_halt zero h = refl
holds_halt (suc zero) h = refl
holds_halt (suc (suc zero)) h = refl
holds_halt (suc (suc (suc zero))) h = refl
holds_halt (suc (suc (suc (suc zero)))) h = refl
holds_halt (suc (suc (suc (suc (suc zero))))) h = refl
holds_halt (suc (suc (suc (suc (suc (suc zero)))))) h = refl
holds_halt (suc (suc (suc (suc (suc (suc (suc zero))))))) h = refl
holds_halt (suc (suc (suc (suc (suc (suc (suc (suc j)))))))) h = absurd (omega arith)

vm_fetch_instruction-encode_example :
    vm_fetch_instruction machine ≡ (halt, set_register machine r_pc (0 + 8))
vm_fetch_instruction-encode_example =
    vm_fetch_instruction-encode machine 0 halt (replicate {A = ℕ} 8 0) encoded_halt 8
      machine-IsValid machine_pc (omega arith) (omega arith)
      (record {
        opcode = omega arith;
        condition = omega arith;
        register1 = omega arith;
        register2 = omega arith;
        immediate = omega arith;
      })
      (omega arith) (omega (arith, length-replicate {A = ℕ} 8 0))
      (λ j. ground (arith, get_or-replicate {A = ℕ} 8 j 0 0)) encodes_halt holds_halt

-- The machine after its first instruction.
abbrev halted_machine : VirtualMachine
halted_machine = cycle (start machine)

fetched_halt : vm_fetch_instruction (start machine) ≡ (halt, set_register (start machine) r_pc 8)
unfolding vm_fetch_instruction start vm_validate_range set_register register get_or set
    instruction_decode fetch_bytes get_bytes vm_fetch_byte vm_read_byte
fetched_halt = refl

running_at_start : is_running (start machine) ≡ true
unfolding is_running start set_register vm_has_no_error is_error state_code vm_has_state
running_at_start = refl

halt_state : (vm_run_instruction (set_register (start machine) r_pc 8) halt).cpsr.st ≡ halted
unfolding start set_register register get_or set vm_run_instruction vm_check_condition condition_of
    test_condition dispatch opcode_of get_elem? execute arithmetic transfer vm_interrupt
    vm_set_state vm_has_no_error is_error state_code write_back finish operation_code
halt_state = refl

stopped_state : halted_machine.cpsr.st ≡ halted
unfolding cycle vm_has_no_error is_error state_code start set_register
stopped_state = rw (fetched_halt, cycle) halt_state

stopped_running : is_running halted_machine ≡ false
unfolding is_running vm_has_no_error is_error state_code vm_has_state
stopped_running = rw stopped_state refl

vm_run_halts : vm_run 1 machine ≡ some (halted, halted_machine)
unfolding vm_run vm_get_state
vm_run_halts =
    rw (run_loop_step 0 (start machine) running_at_start, vm_run)
      (rw (run_loop_stopped 0 halted_machine stopped_running, stopped_state) refl)

vm_run_outcome_example :
    (halted ≡ halted_machine.cpsr.st)
    × ((halted ≡ halted) ⊎ (is_error halted ≡ true))
    × IsValid halted_machine
    × ((more : ℕ) → vm_run (1 + more) machine ≡ some (halted, halted_machine))
vm_run_outcome_example = vm_run_outcome 1 machine halted halted_machine machine-IsValid vm_run_halts
