-- ===== src/Tests/Illegal.antt =====
-- The theorems on opcode names and refused instructions, at concrete instructions.
use Prim.Native.String.{String}
use zlvm.Prelude.{◌≡◌, arith, inl, some, ◌||◌, leb, if◌then◌else◌}
use zlvm.Opcode.{opcode_to_string, string_to_opcode}
use zlvm.Opcode.Names.{string_to_opcode-opcode_to_string}
use zlvm.Instruction.{Instruction}
use zlvm.Vm.{err_invalid_opcode, err_invalid_condition}
use zlvm.Vm.Execute.{vm_run_instruction}
use zlvm.Vm.Execute.Frame.{released, stopped}
use zlvm.Vm.Execute.Illegal.{invalid_condition, invalid_instruction}
use zlvm.Tests.Data.{machine, machine_without_error}
use zlvm.Tests.Programs.{passes_zero}

abbrev unknown_opcode : Instruction
unknown_opcode = record { opcode = 56; condition = 0; register1 = 10; register2 = 0; immediate = 0 }

abbrev unknown_condition : Instruction
unknown_condition = record {
  opcode = 13;
  condition = 17;
  register1 = 10;
  register2 = 0;
  immediate = 0;
}

string_to_opcode-opcode_to_string_example :
    (name : String) × (opcode_to_string 19 ≡ some name) × (string_to_opcode name ≡ 19)
string_to_opcode-opcode_to_string_example = string_to_opcode-opcode_to_string 19 (omega arith)

invalid_condition_example :
    vm_run_instruction machine unknown_condition ≡ stopped machine err_invalid_condition
invalid_condition_example =
    invalid_condition machine unknown_condition machine_without_error (omega arith)

invalid_instruction_example :
    vm_run_instruction machine unknown_opcode ≡ record (stopped machine err_invalid_opcode) {
      alu = if leb 32 10 || leb 32 0 then machine.alu else released machine.alu;
    }
invalid_instruction_example =
    invalid_instruction machine unknown_opcode machine_without_error passes_zero (inl (omega arith))
