-- ===== src/Vm/Switch/Accesses.antt =====
-- emulator/src/VirtualMachineInternal.c: the cases that read and write memory.
use zlvm.Prelude.{
  ℕ, ◌+◌, ◌≤◌, arith, Bool, inl, inr, leb, ltb, IsByte, IsWord, Bool-cases, leb→le, if_either,
}
use zlvm.Prelude.Bits.{bit_and-lt, bit_or-lt}
use zlvm.Vm.{VirtualMachine, err_out_of_memory}
use zlvm.Vm.Valid.{
  IsValid, memory_end, byte_at-IsByte, register-IsWord, set_register-IsValid, vm_set_state-IsValid,
}
use zlvm.Vm.Memory.{
  vm_validate_range, vm_effective_address, vm_read_byte, vm_read_scalar, vm_write_scalar,
  vm_read_hword, vm_write_hword, vm_read_word, vm_write_word,
}
use zlvm.Vm.Memory.Access.{
  vm_effective_address_lem, vm_validate_range_lem, vm_read_byte_lem, vm_write_byte-IsValid,
}
use zlvm.Vm.Memory.Scalar.{vm_read_scalar_lem}
use zlvm.Vm.Memory.RoundTrip.{vm_write_scalar-IsStored, vm_write_scalar_fault}
use zlvm.Vm.Switch.{
  exec_load_byte, exec_load_hword, exec_load_word, exec_store_byte, exec_store_hword,
  exec_store_word, on_success,
}

-- A read of any size: the machine stays valid, and the value fits its width.
pub read_scalar-IsValid :
    (vm : VirtualMachine) (a size : ℕ) → IsValid vm → IsValid (vm_read_scalar vm a size).1
read_scalar-IsValid vm a size v = elim (Bool-cases (leb (a + size) (memory_end vm))) [
  | inl e ↦ rw (vm_read_scalar_lem vm a size v, e) v
  | inr e ↦ rw (vm_read_scalar_lem vm a size v, e) (vm_set_state-IsValid vm err_out_of_memory v)
]

pub write_scalar-IsValid :
    (vm : VirtualMachine) (a value size : ℕ)
    → IsValid vm
    → IsValid (vm_write_scalar vm a value size)
write_scalar-IsValid vm a value size v = elim (Bool-cases (leb (a + size) (memory_end vm))) [
  | inl e ↦ let st = vm_write_scalar-IsStored vm a value size v (ground arith) in st.valid
  | inr e ↦
      rw (vm_write_scalar_fault vm a value size v (ground arith))
        (vm_set_state-IsValid vm err_out_of_memory v)
]

pub vm_read_byte-IsValid :
    (vm : VirtualMachine) (a : ℕ)
    → IsValid vm
    → IsByte (vm_read_byte vm a).0 × IsValid (vm_read_byte vm a).1
vm_read_byte-IsValid vm a v = elim (Bool-cases (ltb a (memory_end vm))) [
  | inl e ↦ rw (vm_read_byte_lem vm a v, e) (byte_at-IsByte vm v a, v)
  | inr e ↦
      rw (vm_read_byte_lem vm a v, e) (omega arith, vm_set_state-IsValid vm err_out_of_memory v)
]

-- The body of a memory instruction runs at an address in memory, on the same machine.
address-IsValid :
    (vm : VirtualMachine) (base offset size : ℕ) (body : ℕ → VirtualMachine → VirtualMachine)
    → IsValid vm
    → IsWord base
    → IsWord offset
    → ((a : ℕ) → a + size ≤ memory_end vm → IsValid (body a vm))
    → IsValid (on_success (vm_effective_address vm base offset size) body)
address-IsValid vm base offset size body v p q h =
    elim (Bool-cases (leb (base + offset + size) (memory_end vm))) [
      | inl e ↦
          rw (vm_effective_address_lem vm base offset size v p q, e)
            (h (base + offset) (leb→le _ _ e))
      | inr e ↦
          rw (vm_effective_address_lem vm base offset size v p q, e)
            (vm_set_state-IsValid vm err_out_of_memory v)
    ]

module _ (vm : VirtualMachine) (r1 base offset : ℕ) (v : IsValid vm) (p : IsWord base)
    (q : IsWord offset) where
  pub load_byte-IsValid : IsValid (exec_load_byte vm r1 base offset)
  unfolding exec_load_byte
  load_byte-IsValid = address-IsValid vm base offset 1 _ v p q λ a _.
      let (b, v') = vm_read_byte-IsValid vm a v in
      set_register-IsValid _ r1 _ v'
        (bit_or-lt 32 _ _ (bit_and-lt 32 _ _ (register-IsWord vm r1 v) (omega arith)) (omega arith))

  pub load_hword-IsValid : IsValid (exec_load_hword vm r1 base offset)
  unfolding exec_load_hword vm_read_hword
  load_hword-IsValid = address-IsValid vm base offset 2 _ v p q λ a _.
      set_register-IsValid _ r1 _ (read_scalar-IsValid vm a 2 v)
        (bit_or-lt 32 _ _ (bit_and-lt 32 _ _ (register-IsWord vm r1 v) (omega arith)) (omega arith))

  pub load_word-IsValid : IsValid (exec_load_word vm r1 base offset)
  unfolding exec_load_word vm_read_word
  load_word-IsValid =
      address-IsValid vm base offset 4 _ v p q
        λ a _. set_register-IsValid _ r1 _ (read_scalar-IsValid vm a 4 v) (omega arith)

  pub store_byte-IsValid : IsValid (exec_store_byte vm r1 base offset)
  unfolding exec_store_byte
  store_byte-IsValid =
      address-IsValid vm base offset 1 _ v p q
        λ a room. vm_write_byte-IsValid vm a _ v (omega arith) (omega arith)

  pub store_hword-IsValid : IsValid (exec_store_hword vm r1 base offset)
  unfolding exec_store_hword vm_write_hword
  store_hword-IsValid =
      address-IsValid vm base offset 2 _ v p q λ a _. write_scalar-IsValid vm a _ 2 v

  pub store_word-IsValid : IsValid (exec_store_word vm r1 base offset)
  unfolding exec_store_word vm_write_word
  store_word-IsValid =
      address-IsValid vm base offset 4 _ v p q λ a _. write_scalar-IsValid vm a _ 4 v

pub validate_range-IsValid :
    (vm : VirtualMachine) (a size : ℕ) → IsValid vm → IsValid (vm_validate_range vm a size).1
validate_range-IsValid vm a size v = rw (vm_validate_range_lem vm a size v) (
    if_either (λ (r : Bool × VirtualMachine). IsValid r.1) _ v
      (vm_set_state-IsValid vm err_out_of_memory v))
