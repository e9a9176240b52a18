-- ===== src/Vm/Execute/Frame.antt =====
-- vm_run_instruction of emulator/src/VirtualMachineInternal.c: the whole machine behind its switch.
use zlvm.Prelude.{ℕ, ◌≡◌, ◌∙◌, refl, ap, arith, true, ◌==◌, if◌then◌else◌, set-set, List}
use zlvm.Alu.{Alu, operation_code, op_noop, alu_reset}
use zlvm.Vm.{VirtualMachine, State, r_zero, set_register, vm_set_state, vm_has_no_error}
use zlvm.Vm.Execute.{finish}

-- The unit after an instruction: reset, unless it holds no operation.
abbrev pub released : Alu → Alu
released a = if operation_code a.op == operation_code op_noop then a else alu_reset a

-- The machine with register `zero` cleared and the error set, and nothing else changed.
abbrev pub stopped : VirtualMachine → State → VirtualMachine
stopped vm error = record (set_register vm r_zero 0) { cpsr = record (vm.cpsr) { st = error } }

pub stopped_alu :
    (vm : VirtualMachine) (error : State)
    → stopped vm error ≡ record (stopped vm error) { alu = vm.alu }
unfolding set_register
stopped_alu vm error = refl

pub finish_lem :
    (m : VirtualMachine) → finish m ≡ record (set_register m r_zero 0) { alu = released m.alu }
unfolding finish set_register
finish_lem m = ground arith

pub vm_set_state-stopped :
    (vm : VirtualMachine) (error : State)
    → vm_has_no_error vm ≡ true
    → vm_set_state (set_register vm r_zero 0) error ≡ stopped vm error
unfolding vm_set_state vm_has_no_error set_register
vm_set_state-stopped vm error ok = rw ok refl

pub finish-stopped :
    (vm : VirtualMachine) (error : State)
    → finish (stopped vm error) ≡ record (stopped vm error) { alu = released vm.alu }
unfolding set_register
finish-stopped vm error =
    finish_lem (stopped vm error)
    ∙ ap
        (λ (registers : List ℕ). record (stopped vm error) {
          registers = registers;
          alu = released vm.alu;
        })
        (set-set vm.registers r_zero 0 0)
