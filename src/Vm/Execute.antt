-- ===== src/Vm/Execute.antt =====
-- vm_run_instruction of emulator/src/VirtualMachineInternal.c around its switch.
pub mod Frame
pub mod Valid
pub mod Arithmetic
pub mod Illegal
use zlvm.Prelude.{Bool, false, ◌&&◌, ◌||◌, not, none, some, leb, ◌==◌, if◌then◌else◌, to_word}
use zlvm.Instruction.{Instruction}
use zlvm.Alu.{operation_code, op_noop, alu_reset}
use zlvm.Opcode.{opcode_of}
use zlvm.Vm.{
  VirtualMachine, err_invalid_opcode, r_zero, register_count, set_register, vm_set_state,
  vm_has_no_error,
}
use zlvm.Vm.Condition.{vm_check_condition}
use zlvm.Vm.Switch.{execute}

-- The switch, with its default case.
unfoldable pub dispatch : Instruction → VirtualMachine → Bool × VirtualMachine
dispatch i vm = elim (opcode_of i.opcode) [
  | none ↦ (false, vm_set_state vm err_invalid_opcode)
  | some opcode ↦ execute opcode i vm
]

-- What stands behind the switch.
unfoldable pub write_back : Instruction → Bool → VirtualMachine → VirtualMachine
write_back i write vm =
    if write && vm_has_no_error vm then set_register vm i.register1 (to_word vm.alu.result) else vm

unfoldable pub finish : VirtualMachine → VirtualMachine
finish vm =
    let vm' = set_register vm r_zero 0 in
    if not (operation_code vm'.alu.op == operation_code op_noop)
    then record vm' { alu = alu_reset vm'.alu }
    else vm'

unfoldable pub vm_run_instruction : VirtualMachine → Instruction → VirtualMachine
vm_run_instruction vm i =
    let (passes, vm') = vm_check_condition (set_register vm r_zero 0) i.condition in
    if not passes
    then vm'
    else if leb register_count i.register1 || leb register_count i.register2
    then vm_set_state vm' err_invalid_opcode
    else let (write, vm'') = dispatch i vm' in finish (write_back i write vm'')
