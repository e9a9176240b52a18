-- ===== src/Vm/Switch/Effects.antt =====
-- emulator/src/VirtualMachineInternal.c: no case of the switch breaks the machine's invariant.
use zlvm.Prelude.{
  ℕ, ◌+◌, arith, inl, inr, ◌==◌, ◌&&◌, IsWord, to_byte, if_either, Option-cases, List, [], ◌∷◌,
}
use zlvm.Instruction.{Instruction}
use zlvm.Opcode.{
  Opcode, nop, pop, popr, pushr, pushi, dup, movr, movi, int, syscall, jmp, loadb, storeb, loadh,
  storeh, loadw, storew, jmpal, ret,
}
use zlvm.Alu.{Operation, is_division, alu_compute}
use zlvm.Vm.{
  VirtualMachine, Cpsr, r_a0, halted, err_division_by_zero, register, set_register, r_v0, r_lp,
  r_pc,
}
use zlvm.Vm.Valid.{
  IsValid, register-IsWord, set_register-IsValid, other_fields-IsValid, vm_set_state-IsValid,
}
use zlvm.Vm.Condition.{vm_do_operation}
use zlvm.Vm.Switch.{
  put_char, get_char, vm_interrupt, vm_syscall, exec_call, exec_return, arithmetic, transfer,
  execute,
}
use zlvm.Vm.Switch.Accesses.{
  load_byte-IsValid, load_hword-IsValid, load_word-IsValid, store_byte-IsValid, store_hword-IsValid,
  store_word-IsValid,
}
use zlvm.Vm.Switch.Stacking.{push-IsValid, pop-IsPopped, popr-IsValid, dup-IsValid}

get_char-IsWord : (input : List ℕ) → IsWord (get_char input).0
unfolding get_char
get_char-IsWord [] = omega arith
get_char-IsWord (c ∷ rest) = omega arith

put_char-IsValid : (vm : VirtualMachine) (c : ℕ) → IsValid vm → IsValid (put_char vm c)
put_char-IsValid vm c v = other_fields-IsValid vm vm.cpsr vm.alu vm.input (to_byte c ∷ vm.output) v

get_char-IsValid :
    (vm : VirtualMachine)
    → IsValid vm
    → IsValid
        (set_register (record vm { input = (get_char vm.input).1 }) r_v0 (get_char vm.input).0)
get_char-IsValid vm v =
    set_register-IsValid (record vm { input = (get_char vm.input).1 }) r_v0 _
      (other_fields-IsValid vm vm.cpsr vm.alu (get_char vm.input).1 vm.output v)
      (get_char-IsWord vm.input)

interrupt-IsValid : (vm : VirtualMachine) (code : ℕ) → IsValid vm → IsValid (vm_interrupt vm code)
unfolding vm_interrupt
interrupt-IsValid vm code v =
    if_either IsValid (code == 0x01) (put_char-IsValid vm (to_byte (register vm r_a0) + 0x60) v) (
      if_either IsValid (code == 0x02) (put_char-IsValid vm (to_byte (register vm r_a0)) v) (
        if_either IsValid (code == 0x10) (get_char-IsValid vm v)
          (if_either IsValid (code == 0xff) (vm_set_state-IsValid vm halted v) v)))

call-IsValid :
    (vm : VirtualMachine) (target : ℕ) → IsValid vm → IsWord target → IsValid (exec_call vm target)
unfolding exec_call
call-IsValid vm target v p =
    set_register-IsValid _ r_pc target
      (set_register-IsValid vm r_lp _ v (register-IsWord vm r_pc v)) p

-- Every opcode keeps the machine valid.
transfer-IsValid :
    (opcode : Opcode) (i : Instruction) (vm : VirtualMachine)
    → IsValid vm
    → IsWord i.immediate
    → IsValid (transfer opcode i vm)
unfolding transfer vm_syscall exec_return
transfer-IsValid nop i vm v p = v
transfer-IsValid popr i vm v p = popr-IsValid vm i.register1 v
transfer-IsValid pop i vm v p = (pop-IsPopped vm v).0
transfer-IsValid pushr i vm v p = push-IsValid vm _ v
transfer-IsValid pushi i vm v p = push-IsValid vm _ v
transfer-IsValid dup i vm v p = dup-IsValid vm v
transfer-IsValid movr i vm v p = set_register-IsValid vm _ _ v (register-IsWord vm i.register2 v)
transfer-IsValid movi i vm v p = set_register-IsValid vm _ _ v p
transfer-IsValid loadb i vm v p = load_byte-IsValid vm _ _ _ v (register-IsWord vm i.register2 v) p
transfer-IsValid loadh i vm v p = load_hword-IsValid vm _ _ _ v (register-IsWord vm i.register2 v) p
transfer-IsValid loadw i vm v p = load_word-IsValid vm _ _ _ v (register-IsWord vm i.register2 v) p
transfer-IsValid storeb i vm v p =
    store_byte-IsValid vm _ _ _ v (register-IsWord vm i.register2 v) p
transfer-IsValid storeh i vm v p =
    store_hword-IsValid vm _ _ _ v (register-IsWord vm i.register2 v) p
transfer-IsValid storew i vm v p =
    store_word-IsValid vm _ _ _ v (register-IsWord vm i.register2 v) p
transfer-IsValid int i vm v p = interrupt-IsValid vm i.immediate v
transfer-IsValid syscall i vm v p = v
transfer-IsValid jmpal i vm v p = call-IsValid vm i.immediate v p
transfer-IsValid jmp i vm v p = set_register-IsValid vm r_pc _ v p
transfer-IsValid ret i vm v p = set_register-IsValid vm r_pc _ v (register-IsWord vm r_lp v)
transfer-IsValid _ i vm v p = v

pub do_operation-IsValid :
    (vm : VirtualMachine) (op : Operation) (l r : ℕ)
    → IsValid vm
    → IsValid (vm_do_operation vm op l r)
unfolding vm_do_operation
do_operation-IsValid vm op l r v =
    let alu = alu_compute (record (vm.alu) { left = l; right = r; op = op }) in
    let cpsr : Cpsr = record (vm.cpsr) {
      n = alu.flags.n;
      z = alu.flags.z;
      v = alu.flags.v;
      c = alu.flags.c;
      s = alu.flags.s;
    } in
    if_either IsValid (is_division op && r == 0) (vm_set_state-IsValid vm err_division_by_zero v)
      (other_fields-IsValid vm cpsr alu vm.input vm.output v)

pub execute-IsValid :
    (opcode : Opcode) (i : Instruction) (vm : VirtualMachine)
    → IsValid vm
    → IsWord i.immediate
    → IsValid (execute opcode i vm).1
unfolding execute
execute-IsValid opcode i vm v p = elim (Option-cases (arithmetic opcode)) [
  | inl e ↦ rw (e, execute) (transfer-IsValid opcode i vm v p)
  | inr ((op, right, write), e) ↦ rw (e, execute) (do_operation-IsValid vm op _ _ v)
]
