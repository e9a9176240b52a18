-- ===== src/Tests/Machine.antt =====
-- The theorems on the machine's memory, stack and instruction encoding, at a concrete machine.
use zlvm.Prelude.{
  refl, set, get_elem?, inl, sym, ◌∙◌, ℕ, ◌+◌, ◌*◌, ◌%◌, ◌^◌, ◌≤◌, ◌≡◌, ◌⊎◌, arith, true, false,
  some, none, List, [], if◌then◌else◌, leb, length, length-replicate, get_or, get_or-replicate,
  replicate,
}
use zlvm.Instruction.{instruction_encode, instruction_decode}
use zlvm.Instruction.RoundTrip.{instruction_decode-encode}
use zlvm.Vm.{
  register, r_sp, r_bp, vm_set_state, err_out_of_memory, err_stack_overflow, err_stack_underflow,
  vm_initialize,
}
use zlvm.Vm.{VirtualMachine, set_register}
use zlvm.Vm.Valid.{set_register-IsValid, IsValid, memory_end, vm_initialize-IsValid}
use zlvm.Vm.Memory.{vm_read_scalar, vm_write_scalar, vm_effective_address, vm_write_word}
use zlvm.Vm.Memory.Access.{vm_effective_address_lem}
use zlvm.Vm.Memory.Scalar.{scalar_at, vm_read_scalar_lem}
use zlvm.Vm.Memory.RoundTrip.{vm_read_scalar-vm_write_scalar}
use zlvm.Vm.Stack.{vm_push_word, vm_pop_word}
use zlvm.Vm.Stack.Laws.{vm_pop_word-vm_push_word, vm_push_word_overflow, vm_pop_word_underflow}
use zlvm.Tests.Data.{
  machine, machine-IsValid, add_five, machine-IsStack, machine_without_error, machine_sp,
  machine_bp,
}

instruction_decode-encode_example :
    let out = replicate {A = ℕ} 12 0xaa in
    (bytes : List ℕ) × (instruction_encode (some out) 12 (some add_five) ≡ some bytes)
    × (instruction_decode (some bytes) 12 ≡ some add_five)
    × (length bytes ≡ length out)
    × ((j : ℕ) → 8 ≤ j → get_or bytes j 0 ≡ get_or out j 0)
instruction_decode-encode_example =
    instruction_decode-encode (replicate 12 0xaa) 12 add_five
      (record {
        opcode = omega arith;
        condition = omega arith;
        register1 = omega arith;
        register2 = omega arith;
        immediate = omega arith;
      })
      (omega arith) (omega (arith, length-replicate {A = ℕ} 12 0xaa))
      (λ j. ground (arith, get_or-replicate {A = ℕ} 12 j 0xaa 0))

vm_initialize-IsValid_example : IsValid (vm_initialize 64 [] machine)
vm_initialize-IsValid_example = vm_initialize-IsValid 64 [] machine (omega arith)

-- A word on the border of ROM and RAM.
vm_read_scalar-vm_write_scalar_example :
    let vm' = vm_write_scalar machine 4094 0x12345678 4 in
    (vm_read_scalar vm' 4094 4 ≡ (0x12345678 % 2 ^ (4 * 8), vm'))
    × ((b width : ℕ)
        → b + width ≤ memory_end machine
        → (b + width ≤ 4094) ⊎ (4094 + 4 ≤ b)
        → (vm_read_scalar vm' b width).0 ≡ (vm_read_scalar machine b width).0)
    × IsValid vm'
    × (vm' ≡ record machine { rom = vm'.rom; memory = vm'.memory })
vm_read_scalar-vm_write_scalar_example =
    vm_read_scalar-vm_write_scalar machine 4094 0x12345678 4 machine-IsValid (omega arith)

vm_read_scalar_lem_example : vm_read_scalar machine 4 4 ≡ (
    if leb (4 + 4) (memory_end machine)
    then (scalar_at machine 4 4, machine)
    else (0, vm_set_state machine err_out_of_memory))
vm_read_scalar_lem_example = vm_read_scalar_lem machine 4 4 machine-IsValid

-- The sum of the operands leaves the range of a word.
vm_effective_address_lem_example : vm_effective_address machine 0xffffffff 5 4 ≡ (
    if leb (0xffffffff + 5 + 4) (memory_end machine)
    then (some (0xffffffff + 5), machine)
    else (none, vm_set_state machine err_out_of_memory))
vm_effective_address_lem_example =
    vm_effective_address_lem machine 0xffffffff 5 4 machine-IsValid (omega arith) (omega arith)

vm_pop_word-vm_push_word_example :
    let (done, vm') = vm_push_word machine 7 in
    let (popped, vm'') = vm_pop_word vm' in
    (done ≡ true) × (popped ≡ some 7) × (vm'' ≡ vm_write_word machine (register machine r_sp) 7)
vm_pop_word-vm_push_word_example =
    vm_pop_word-vm_push_word machine 7 machine-IsValid machine_without_error machine-IsStack
      (omega arith) (omega (arith, machine_sp)) (omega (arith, machine_sp))
      (omega (arith, machine_sp, machine_bp))

-- The stack holds ZLVM_STACK_SIZE bytes.
abbrev full : VirtualMachine
full = set_register machine r_sp 4352

full_sp : register full r_sp ≡ 4352
unfolding register set_register set get_or get_elem?
full_sp = refl

full_bp : register full r_bp ≡ 4096
unfolding register set_register set get_or get_elem?
full_bp = refl

vm_push_word_overflow_example : vm_push_word full 7 ≡ (false, vm_set_state full err_stack_overflow)
vm_push_word_overflow_example =
    vm_push_word_overflow full 7
      (set_register-IsValid machine r_sp 4352 machine-IsValid (omega arith))
      (inl (omega (arith, full_sp, full_bp)))

vm_pop_word_underflow_example :
    vm_pop_word machine ≡ (none, vm_set_state machine err_stack_underflow)
vm_pop_word_underflow_example =
    vm_pop_word_underflow machine machine-IsValid (inl (machine_sp ∙ sym machine_bp))
