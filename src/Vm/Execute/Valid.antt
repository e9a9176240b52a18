-- ===== src/Vm/Execute/Valid.antt =====
-- emulator/src/VirtualMachineInternal.c: what every instruction keeps.
use zlvm.Prelude.{
  ℕ, ◌≡◌, arith, Bool, inl, inr, leb, ◌==◌, ◌||◌, ◌&&◌, not, if◌then◌else◌, if_either, IsWord,
  to_word, Option-cases, get_or-set,
}
use zlvm.Instruction.{Instruction}
use zlvm.Condition.{condition_of}
use zlvm.Alu.{op_noop, operation_code, alu_reset}
use zlvm.Opcode.{opcode_of}
use zlvm.Vm.{
  VirtualMachine, State, err_invalid_opcode, err_invalid_condition, register, set_register,
  vm_set_state, vm_has_no_error, r_zero, register_count,
}
use zlvm.Vm.Valid.{
  IsValid, set_register-IsValid, other_fields-IsValid, vm_set_state-IsValid, vm_set_state_frame,
}
use zlvm.Vm.Condition.{vm_check_condition}
use zlvm.Vm.Switch.Effects.{execute-IsValid}
use zlvm.Vm.Execute.{dispatch, write_back, finish, vm_run_instruction}

-- A valid machine whose zero register holds 0.
abbrev IsSettled : VirtualMachine → Type 0
IsSettled vm = IsValid vm × (register vm r_zero ≡ 0)

zeroed-IsSettled : (vm : VirtualMachine) → IsValid vm → IsSettled (set_register vm r_zero 0)
unfolding set_register register
zeroed-IsSettled vm v = (
  set_register-IsValid vm r_zero 0 v (omega arith),
  ground (arith, get_or-set vm.registers 0 0 0 0),
)

set_state-IsSettled :
    (vm : VirtualMachine) (s : State) → IsSettled vm → IsSettled (vm_set_state vm s)
unfolding register
set_state-IsSettled vm s (v, z) = (vm_set_state-IsValid vm s v, rw (vm_set_state_frame vm s) z)

pub check_condition-IsSettled :
    (vm : VirtualMachine) (c : ℕ) → IsSettled vm → IsSettled (vm_check_condition vm c).1
unfolding vm_check_condition
check_condition-IsSettled vm c s = elim (Option-cases (condition_of c)) [
  | inl e ↦ rw (e, vm_check_condition) (set_state-IsSettled vm err_invalid_condition s)
  | inr (x, e) ↦ rw (e, vm_check_condition) s
]

dispatch-IsValid :
    (i : Instruction) (vm : VirtualMachine)
    → IsValid vm
    → IsWord i.immediate
    → IsValid (dispatch i vm).1
unfolding dispatch
dispatch-IsValid i vm v p = elim (Option-cases (opcode_of i.opcode)) [
  | inl e ↦ rw (e, dispatch) (vm_set_state-IsValid vm err_invalid_opcode v)
  | inr (x, e) ↦ rw (e, dispatch) (execute-IsValid x i vm v p)
]

write_back-IsValid :
    (i : Instruction) (write : Bool) (vm : VirtualMachine)
    → IsValid vm
    → IsValid (write_back i write vm)
unfolding write_back
write_back-IsValid i write vm v =
    if_either IsValid (write && vm_has_no_error vm)
      (set_register-IsValid vm i.register1 (to_word vm.alu.result) v (omega arith)) v

finish-IsSettled : (vm : VirtualMachine) → IsValid vm → IsSettled (finish vm)
unfolding finish register
finish-IsSettled vm v =
    let m = set_register vm r_zero 0 in
    let (v', z) = zeroed-IsSettled vm v in
    if_either IsSettled (not (operation_code m.alu.op == operation_code op_noop))
      {x = record m { alu = alu_reset m.alu }} {y = m}
      (other_fields-IsValid m m.cpsr (alu_reset m.alu) m.input m.output v', z) (v', z)

-- Every instruction with a word for its immediate, whatever its opcode, condition and registers,
-- takes a valid machine to a valid one, in which register `zero` holds 0.
pub vm_run_instruction-IsValid :
    (vm : VirtualMachine) (i : Instruction)
    → IsValid vm
    → IsWord i.immediate
    → IsValid (vm_run_instruction vm i) × (register (vm_run_instruction vm i) r_zero ≡ 0)
unfolding vm_run_instruction
vm_run_instruction-IsValid vm i v p =
    let checked = vm_check_condition (set_register vm r_zero 0) i.condition in
    let m = checked.1 in
    let s = check_condition-IsSettled _ i.condition (zeroed-IsSettled vm v) in
    let d = dispatch i m in
    let done = finish-IsSettled _ (write_back-IsValid i d.0 d.1 (dispatch-IsValid i m s.0 p)) in
    if_either IsSettled (not checked.0)
      {y = if leb register_count i.register1 || leb register_count i.register2
        then vm_set_state m err_invalid_opcode
        else finish (write_back i d.0 d.1)}
      s
      (if_either IsSettled (leb register_count i.register1 || leb register_count i.register2)
        (set_state-IsSettled m err_invalid_opcode s) done)
