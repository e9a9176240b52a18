-- ===== src/Vm/Switch.antt =====
-- The switch over the opcode in vm_run_instruction of emulator/src/VirtualMachineInternal.c, with
-- the interrupts and the system call that it dispatches to.
pub mod Accesses
pub mod Stacking
pub mod Effects
use zlvm.Prelude.{
  ℕ, ◌+◌, ◌-◌, bit_and, bit_or, Bool, true, false, List, [], ◌∷◌, Option, none, some, ◌==◌,
  if◌then◌else◌, to_byte, to_hword, byte_max, hword_max, word_max,
}
use zlvm.Instruction.{Instruction}
use zlvm.Opcode.{
  Opcode, pop, popr, pushr, pushi, dup, movr, movi, addr, subr, mulr, divr, modr, addi, subi, muli,
  divi, modi, int, syscall, jmp, andr, orr, xorr, nandr, norr, andi, ori, xori, nandi, nori, inc,
  dec, loadb, storeb, loadh, storeh, loadw, storew, jmpal, ret, cmpr, cmpi, cmpsr, cmpsi, addsr,
  subsr, mulsr, divsr, modsr, addsi, subsi, mulsi, divsi, modsi,
}
use zlvm.Alu.{
  Operation, op_add, op_sub, op_mul, op_div, op_mod, op_not, op_and, op_or, op_xor, op_nand, op_nor,
  op_inc, op_dec, op_sadd, op_ssub, op_smul, op_sdiv, op_smod,
}
use zlvm.Vm.{VirtualMachine, halted, r_v0, r_a0, r_lp, r_pc, register, set_register, vm_set_state}
use zlvm.Vm.Memory.{
  vm_effective_address, vm_read_byte, vm_write_byte, vm_read_hword, vm_write_hword, vm_read_word,
  vm_write_word,
}
use zlvm.Vm.Stack.{vm_pop_word, vm_push_word}
use zlvm.Vm.Condition.{vm_do_operation}

-- `fputc` writes its argument as an `unsigned char`.
abbrev put_char : VirtualMachine → ℕ → VirtualMachine
put_char vm c = record vm { output = to_byte c ∷ vm.output }

-- `(word)fgetc(stdin)`; at the end of the input the result is EOF, that is -1.
get_char : List ℕ → ℕ × List ℕ
get_char [] = (word_max, [])
get_char (c ∷ rest) = (to_byte c, rest)

unfoldable pub vm_interrupt : VirtualMachine → ℕ → VirtualMachine
unfolding get_char
vm_interrupt vm code =
    let (c, rest) = get_char vm.input in
    if code == 0x01
    then put_char vm (to_byte (register vm r_a0) + 0x60)
    else if code == 0x02
    then put_char vm (to_byte (register vm r_a0))
    else if code == 0x10
    then set_register (record vm { input = rest }) r_v0 c
    else if code == 0xff
    then vm_set_state vm halted
    else vm

-- The switch has only a default case.
unfoldable pub vm_syscall : VirtualMachine → VirtualMachine
vm_syscall vm = vm

-- `if (f(vm, …, &out)) { … }`: the rest runs where `f` gives a result.
abbrev pub on_success :
    Option ℕ × VirtualMachine → (ℕ → VirtualMachine → VirtualMachine) → VirtualMachine
on_success (none, vm) body = vm
on_success (some out, vm) body = body out vm

-- POPR and DUP.
unfoldable pub exec_popr : VirtualMachine → ℕ → VirtualMachine
exec_popr vm r1 = on_success (vm_pop_word vm) λ value vm'. set_register vm' r1 value

unfoldable pub exec_dup : VirtualMachine → VirtualMachine
exec_dup vm =
    on_success (vm_pop_word vm) λ value vm'. (vm_push_word (vm_push_word vm' value).1 value).1

-- LOADB, LOADH and LOADW: the first two keep the upper bits of the register.
unfoldable pub exec_load_byte : VirtualMachine → ℕ → ℕ → ℕ → VirtualMachine
exec_load_byte vm r1 base offset = on_success (vm_effective_address vm base offset 1) λ a vm'.
    let (b, vm'') = vm_read_byte vm' a in
    set_register vm'' r1 (bit_or (bit_and (register vm' r1) (word_max - byte_max)) b)

unfoldable pub exec_load_hword : VirtualMachine → ℕ → ℕ → ℕ → VirtualMachine
exec_load_hword vm r1 base offset = on_success (vm_effective_address vm base offset 2) λ a vm'.
    let (h, vm'') = vm_read_hword vm' a in
    set_register vm'' r1 (bit_or (bit_and (register vm' r1) (word_max - hword_max)) h)

unfoldable pub exec_load_word : VirtualMachine → ℕ → ℕ → ℕ → VirtualMachine
exec_load_word vm r1 base offset =
    on_success (vm_effective_address vm base offset 4)
      λ a vm'. let (w, vm'') = vm_read_word vm' a in set_register vm'' r1 w

-- STOREB, STOREH and STOREW.
unfoldable pub exec_store_byte : VirtualMachine → ℕ → ℕ → ℕ → VirtualMachine
exec_store_byte vm r1 base offset =
    on_success (vm_effective_address vm base offset 1)
      λ a vm'. vm_write_byte vm' a (to_byte (register vm' r1))

unfoldable pub exec_store_hword : VirtualMachine → ℕ → ℕ → ℕ → VirtualMachine
exec_store_hword vm r1 base offset =
    on_success (vm_effective_address vm base offset 2)
      λ a vm'. vm_write_hword vm' a (to_hword (register vm' r1))

unfoldable pub exec_store_word : VirtualMachine → ℕ → ℕ → ℕ → VirtualMachine
exec_store_word vm r1 base offset =
    on_success (vm_effective_address vm base offset 4)
      λ a vm'. vm_write_word vm' a (register vm' r1)

-- JMPAL and RET.
unfoldable pub exec_call : VirtualMachine → ℕ → VirtualMachine
exec_call vm target = set_register (set_register vm r_lp (register vm r_pc)) r_pc target

unfoldable pub exec_return : VirtualMachine → VirtualMachine
exec_return vm = set_register vm r_pc (register vm r_lp)

-- The cases that compute: the operation, and whether its right operand is the second register
-- (`by_register`), the immediate (`by_immediate`) or 0 (`by_zero`).
pub data Operand : Type 0 where
  by_register by_immediate by_zero : Operand

-- The flag is `write_alu_result`, which the comparisons leave `false`.
unfoldable pub arithmetic : Opcode → Option (Operation × Operand × Bool)
arithmetic addr = some (op_add, by_register, true)
arithmetic subr = some (op_sub, by_register, true)
arithmetic mulr = some (op_mul, by_register, true)
arithmetic divr = some (op_div, by_register, true)
arithmetic modr = some (op_mod, by_register, true)
arithmetic addi = some (op_add, by_immediate, true)
arithmetic subi = some (op_sub, by_immediate, true)
arithmetic muli = some (op_mul, by_immediate, true)
arithmetic divi = some (op_div, by_immediate, true)
arithmetic modi = some (op_mod, by_immediate, true)
arithmetic addsr = some (op_sadd, by_register, true)
arithmetic subsr = some (op_ssub, by_register, true)
arithmetic mulsr = some (op_smul, by_register, true)
arithmetic divsr = some (op_sdiv, by_register, true)
arithmetic modsr = some (op_smod, by_register, true)
arithmetic addsi = some (op_sadd, by_immediate, true)
arithmetic subsi = some (op_ssub, by_immediate, true)
arithmetic mulsi = some (op_smul, by_immediate, true)
arithmetic divsi = some (op_sdiv, by_immediate, true)
arithmetic modsi = some (op_smod, by_immediate, true)
arithmetic Opcode.not = some (op_not, by_zero, true)
arithmetic andr = some (op_and, by_register, true)
arithmetic orr = some (op_or, by_register, true)
arithmetic xorr = some (op_xor, by_register, true)
arithmetic nandr = some (op_nand, by_register, true)
arithmetic norr = some (op_nor, by_register, true)
arithmetic andi = some (op_and, by_immediate, true)
arithmetic ori = some (op_or, by_immediate, true)
arithmetic xori = some (op_xor, by_immediate, true)
arithmetic nandi = some (op_nand, by_immediate, true)
arithmetic nori = some (op_nor, by_immediate, true)
arithmetic inc = some (op_inc, by_zero, true)
arithmetic dec = some (op_dec, by_zero, true)
arithmetic cmpi = some (op_sub, by_immediate, false)
arithmetic cmpr = some (op_sub, by_register, false)
arithmetic cmpsi = some (op_ssub, by_immediate, false)
arithmetic cmpsr = some (op_ssub, by_register, false)
arithmetic _ = none

-- The other cases.
unfoldable pub transfer : Opcode → Instruction → VirtualMachine → VirtualMachine
transfer popr i vm = exec_popr vm i.register1
transfer pop i vm = (vm_pop_word vm).1
transfer pushr i vm = (vm_push_word vm (register vm i.register1)).1
transfer pushi i vm = (vm_push_word vm i.immediate).1
transfer dup i vm = exec_dup vm
transfer movr i vm = set_register vm i.register1 (register vm i.register2)
transfer movi i vm = set_register vm i.register1 i.immediate
transfer loadb i vm = exec_load_byte vm i.register1 (register vm i.register2) i.immediate
transfer loadh i vm = exec_load_hword vm i.register1 (register vm i.register2) i.immediate
transfer loadw i vm = exec_load_word vm i.register1 (register vm i.register2) i.immediate
transfer storeb i vm = exec_store_byte vm i.register1 (register vm i.register2) i.immediate
transfer storeh i vm = exec_store_hword vm i.register1 (register vm i.register2) i.immediate
transfer storew i vm = exec_store_word vm i.register1 (register vm i.register2) i.immediate
transfer int i vm = vm_interrupt vm i.immediate
transfer syscall i vm = vm_syscall vm
transfer jmpal i vm = exec_call vm i.immediate
transfer jmp i vm = set_register vm r_pc i.immediate
transfer ret i vm = exec_return vm
transfer _ i vm = vm

unfoldable pub operand : Operand → Instruction → VirtualMachine → ℕ
operand by_register i vm = register vm i.register2
operand by_immediate i vm = i.immediate
operand by_zero i vm = 0

-- The whole switch, with `write_alu_result`.
unfoldable pub execute : Opcode → Instruction → VirtualMachine → Bool × VirtualMachine
execute opcode i vm = elim (arithmetic opcode) [
  | none ↦ (false, transfer opcode i vm)
  | some (op, right, write) ↦
      (write, vm_do_operation vm op (register vm i.register1) (operand right i vm))
]
