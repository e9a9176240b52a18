-- ===== src/Vm/Execute/Illegal.antt =====
-- emulator/src/VirtualMachineInternal.c: instructions that vm_run_instruction refuses.
use zlvm.Prelude.{
  ℕ, zero, suc, ◌≤◌, ◌≡◌, ◌⊎◌, refl, if◌then◌else◌, arith, true, inl, inr, none, List, [], ◌∷◌, leb,
  ◌||◌, length, get_elem?, Bool-cases,
}
use zlvm.Instruction.{Instruction}
use zlvm.Condition.{condition_total, condition_of, conditions}
use zlvm.Opcode.{opcodes, opcode_total, opcode_of}
use zlvm.Vm.{
  VirtualMachine, err_invalid_opcode, err_invalid_condition, r_zero, register_count, set_register,
  vm_has_no_error,
}
use zlvm.Vm.Condition.{vm_check_condition}
use zlvm.Vm.Execute.Frame.{released, stopped, stopped_alu, vm_set_state-stopped, finish-stopped}
use zlvm.Vm.Execute.{dispatch, write_back, vm_run_instruction}

get_elem?-none : {A : Type 0} → (xs : List A) (i : ℕ) → length xs ≤ i → get_elem? xs i ≡ none
unfolding get_elem?
get_elem?-none [] i h = refl
get_elem?-none (x ∷ xs) zero h = absurd (omega arith)
get_elem?-none (x ∷ xs) (suc i) h = get_elem?-none xs i (omega arith)

opcode_of-none : (n : ℕ) → opcode_total ≤ n → opcode_of n ≡ none
unfolding opcode_of
opcode_of-none n h = get_elem?-none opcodes n h

condition_of-none : (n : ℕ) → condition_total ≤ n → condition_of n ≡ none
unfolding condition_of
condition_of-none n h = get_elem?-none conditions n h

-- On a machine without an error, a condition that does not exist sets the error of an invalid
-- condition and clears register `zero`; nothing else of the machine changes.
pub invalid_condition :
    (vm : VirtualMachine) (i : Instruction)
    → vm_has_no_error vm ≡ true
    → condition_total ≤ i.condition
    → vm_run_instruction vm i ≡ stopped vm err_invalid_condition
unfolding vm_run_instruction vm_check_condition
invalid_condition vm i ok h =
    rw (condition_of-none i.condition h, vm_run_instruction, vm_check_condition)
      (vm_set_state-stopped vm err_invalid_condition ok)

-- On a machine without an error, an instruction whose condition holds but whose opcode or one of
-- whose registers does not exist sets the error of an invalid opcode and clears register `zero`.
-- Where both registers exist, the unit is reset, unless its operation is `op_noop`. Nothing else
-- of the machine changes.
pub invalid_instruction :
    (vm : VirtualMachine) (i : Instruction)
    → vm_has_no_error vm ≡ true
    → vm_check_condition (set_register vm r_zero 0) i.condition ≡ (true, set_register vm r_zero 0)
    → (opcode_total ≤ i.opcode) ⊎ ((register_count ≤ i.register1) ⊎ (register_count ≤ i.register2))
    → let outside = leb register_count i.register1 || leb register_count i.register2 in
      vm_run_instruction vm i
      ≡ record (stopped vm err_invalid_opcode) { alu = if outside then vm.alu else released vm.alu }
unfolding vm_run_instruction dispatch write_back
invalid_instruction vm i ok passes bad =
    let set = vm_set_state-stopped vm err_invalid_opcode ok in
    elim (Bool-cases (leb register_count i.register1 || leb register_count i.register2)) [
      | inl outside ↦
          rw (passes, outside, vm_run_instruction, set) (stopped_alu vm err_invalid_opcode)
      | inr inside ↦
          rw
            (
              passes,
              inside,
              vm_run_instruction,
              opcode_of-none i.opcode (ground arith),
              dispatch,
              passes,
              set,
            )
            (finish-stopped vm err_invalid_opcode)
    ]
