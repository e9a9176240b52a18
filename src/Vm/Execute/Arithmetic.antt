-- ===== src/Vm/Execute/Arithmetic.antt =====
-- emulator/src/VirtualMachineInternal.c: the instructions that compute, from fetch to write-back.
use zlvm.Prelude.{
  ℕ, ◌<◌, ◌≡◌, ◌∙◌, refl, ap, arith, Bool, true, false, some, ◌==◌, ◌&&◌, if◌then◌else◌, to_word,
  length, List, get_or, set, get_or-set, length-set,
}
use zlvm.Instruction.{Instruction}
use zlvm.Alu.{Operation, Alu, alu_compute, is_division}
use zlvm.Opcode.{Opcode, opcode_of}
use zlvm.Vm.{
  VirtualMachine, Cpsr, err_division_by_zero, register, set_register, vm_has_no_error, r_zero,
  register_count, is_error, state_code,
}
use zlvm.Vm.Valid.{IsValid}
use zlvm.Vm.Condition.{vm_check_condition, vm_do_operation}
use zlvm.Vm.Switch.{Operand, operand, arithmetic, execute}
use zlvm.Vm.Execute.Frame.{released, stopped, vm_set_state-stopped, finish_lem, finish-stopped}
use zlvm.Vm.Execute.{dispatch, write_back, finish, vm_run_instruction}

-- An instruction of the computing group, whose condition holds and whose registers exist, on a
-- valid machine without an error. The operands are read after register `zero` is cleared.
module _ (vm : VirtualMachine) (i : Instruction) (opcode : Opcode) (op : Operation)
    (right : Operand) (write : Bool) (v : IsValid vm) (ok : vm_has_no_error vm ≡ true)
    (passes : vm_check_condition (set_register vm r_zero 0) i.condition
      ≡ (true, set_register vm r_zero 0))
    (named : opcode_of i.opcode ≡ some opcode) (in1 : i.register1 < register_count)
    (in2 : i.register2 < register_count) (group : arithmetic opcode ≡ some (op, right, write)) where
  abbrev cleared : VirtualMachine
  cleared = set_register vm r_zero 0

  abbrev operand1 : ℕ
  operand1 = register cleared i.register1

  abbrev operand2 : ℕ
  operand2 = operand right i cleared

  abbrev operated : VirtualMachine
  operated = vm_do_operation cleared op operand1 operand2

  run-eq-finish : vm_run_instruction vm i ≡ finish (write_back i write operated)
  unfolding vm_run_instruction dispatch execute
  run-eq-finish =
      rw (passes, vm_run_instruction) (rw (named, dispatch) (rw (group, execute) (ground arith)))

  abbrev computed : Alu
  computed = alu_compute (record (vm.alu) { left = operand1; right = operand2; op = op })

  length-cleared : length cleared.registers ≡ register_count
  unfolding set_register
  length-cleared = length-set vm.registers r_zero 0 ∙ v.register_length

  register-cleared :
      (s : ℕ) → s < register_count → register cleared s ≡ (if s == r_zero then 0 else register vm s)
  unfolding register set_register
  register-cleared s h = ground (arith, get_or-set vm.registers r_zero s 0 0, v.register_length)

  -- The status register with the unit's flags.
  abbrev flagged : Cpsr
  flagged = record (vm.cpsr) {
    n = computed.flags.n;
    z = computed.flags.z;
    v = computed.flags.v;
    c = computed.flags.c;
    s = computed.flags.s;
  }

  -- A division by zero, before the end of the function.
  faulted :
      is_division op && operand2 == 0 ≡ true
      → write_back i write operated ≡ stopped vm err_division_by_zero
  unfolding write_back vm_do_operation vm_has_no_error is_error state_code
  faulted zero =
      rw (zero, vm_do_operation, vm_set_state-stopped vm err_division_by_zero ok) (ground arith)

  operated_lem :
      is_division op && operand2 == 0 ≡ false
      → operated ≡ record cleared { alu = computed; cpsr = flagged }
  unfolding vm_do_operation set_register
  operated_lem fine = rw (fine, vm_do_operation) refl

  -- The registers before register `zero` is cleared again.
  abbrev results : List ℕ
  results =
      if write
      then set cleared.registers i.register1 (to_word computed.result)
      else cleared.registers

  written :
      is_division op && operand2 == 0 ≡ false
      → write_back i write operated
        ≡ record vm { cpsr = flagged; registers = results; alu = computed }
  unfolding write_back vm_has_no_error set_register
  written fine = rw (operated_lem fine, write_back, ok) (ground arith)

  length-results : length results ≡ register_count
  length-results =
      ground
        (arith, length-set cleared.registers i.register1 (to_word computed.result), length-cleared)

  get_or-results :
      (s : ℕ)
      → s < register_count
      → get_or results s 0
        ≡ (if write && s == i.register1 then to_word computed.result else register cleared s)
  unfolding register
  get_or-results s h = ground (
    arith,
    get_or-set cleared.registers i.register1 s (to_word computed.result) 0,
    length-cleared,
  )

  -- On a valid machine without an error, a computing instruction whose condition holds, whose
  -- registers exist, whose operation divides and whose right operand is 0 stops the machine with a
  -- division by zero: register `zero` is 0, the unit is reset, unless its operation was `op_noop`,
  -- and the flags, every other register and everything else of the machine stay as they were.
  pub division_by_zero :
      is_division op && operand2 == 0 ≡ true
      → let vm' = vm_run_instruction vm i in
        (vm' ≡ record (stopped vm err_division_by_zero) { alu = released vm.alu })
        × ((s : ℕ)
            → s < register_count
            → register vm' s ≡ (if s == r_zero then 0 else register vm s))
  unfolding set_register register
  division_by_zero zero =
      let ended : vm_run_instruction vm i
          ≡ record (stopped vm err_division_by_zero) { alu = released vm.alu } =
        run-eq-finish ∙ ap finish (faulted zero) ∙ finish-stopped vm err_division_by_zero in
      (ended, λ s h. ap (λ (m : VirtualMachine). register m s) ended ∙ register-cleared s h)

  -- On a valid machine without an error, after a computing instruction whose condition holds, whose
  -- registers exist and which does not divide by 0: the unit's flags are the status flags, the first
  -- register has the unit's result if the instruction is no comparison, register `zero` is 0, and
  -- every other register is as it was. The unit is reset, unless its operation is `op_noop`. There
  -- are as many registers as before, and everything else of the machine, its state included, has
  -- not changed.
  pub arithmetic_instruction :
      is_division op && operand2 == 0 ≡ false
      → let vm' = vm_run_instruction vm i in
        (vm' ≡ record vm { cpsr = flagged; registers = vm'.registers; alu = released computed })
        × (length vm'.registers ≡ register_count)
        × ((s : ℕ)
            → s < register_count
            → register vm' s ≡ (
                if s == r_zero
                then 0
                else if write && s == i.register1
                then to_word computed.result
                else register vm s))
  unfolding set_register register
  arithmetic_instruction fine =
      let m : VirtualMachine = record vm { cpsr = flagged; registers = results; alu = computed } in
      rw (run-eq-finish, written fine, finish_lem m)
        (
          refl,
          length-set results r_zero 0 ∙ length-results,
          λ s h. ground (
            arith,
            get_or-set results r_zero s 0 0,
            length-results,
            get_or-results s h,
            register-cleared s h,
          ),
        )
