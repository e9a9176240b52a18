-- ===== src/Vm/Condition.antt =====
-- vm_check_condition and vm_do_operation of emulator/src/VirtualMachineInternal.c: the status
-- flags, set by an operation and read by a condition.
pub mod Compare
use zlvm.Prelude.{ℕ, Bool, true, false, ◌&&◌, ◌||◌, not, xor, none, some, ◌==◌, if◌then◌else◌}
use zlvm.Condition.{
  Condition, unconditional, zero_set, zero_clear, negative_set, negative_clear, overflow_set,
  overflow_clear, carry_set, carry_clear, signed_set, signed_clear, unsigned_higher,
  unsigned_lower_or_same, less, less_or_equals, greater, greater_or_equals, condition_of,
}
use zlvm.Alu.{Operation, alu_compute, is_division}
use zlvm.Vm.{VirtualMachine, Cpsr, err_invalid_condition, err_division_by_zero, vm_set_state}

-- The cases of the switch but the default.
unfoldable pub test_condition : Condition → Cpsr → Bool
test_condition unconditional f = true
test_condition zero_set f = f.z
test_condition zero_clear f = not f.z
test_condition negative_set f = f.n
test_condition negative_clear f = not f.n
test_condition overflow_set f = f.v
test_condition overflow_clear f = not f.v
test_condition carry_set f = f.c
test_condition carry_clear f = not f.c
test_condition signed_set f = f.s
test_condition signed_clear f = not f.s
test_condition unsigned_higher f = f.c && not f.z
test_condition unsigned_lower_or_same f = not f.c || f.z
test_condition less f = xor f.n f.v
test_condition less_or_equals f = f.z || xor f.n f.v
test_condition greater f = not (f.z || xor f.n f.v)
test_condition greater_or_equals f = not (xor f.n f.v)

unfoldable pub vm_check_condition : VirtualMachine → ℕ → Bool × VirtualMachine
vm_check_condition vm condition = elim (condition_of condition) [
  | none ↦ (false, vm_set_state vm err_invalid_condition)
  | some c ↦ (test_condition c vm.cpsr, vm)
]

unfoldable pub vm_do_operation : VirtualMachine → Operation → ℕ → ℕ → VirtualMachine
vm_do_operation vm op left right =
    if is_division op && right == 0
    then vm_set_state vm err_division_by_zero
    else let alu = alu_compute (record (vm.alu) { left = left; right = right; op = op }) in
      record vm {
        alu = alu;
        cpsr = record (vm.cpsr) {
          n = alu.flags.n;
          z = alu.flags.z;
          v = alu.flags.v;
          c = alu.flags.c;
          s = alu.flags.s;
        };
      }
