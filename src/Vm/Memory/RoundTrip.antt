-- ===== src/Vm/Memory/RoundTrip.antt =====
-- emulator/src/VirtualMachineInternal.c: what is read after a write.
use zlvm.Prelude.{ℕ, ◌+◌, ◌*◌, ◌%◌, ◌^◌, ◌≤◌, ◌<◌, ◌≡◌, ap, arith, IsWord, ◌⊎◌}
use zlvm.Bytes.Laws.{le_value_digits, le_value_ext, le_value-lt}
use zlvm.Vm.{VirtualMachine, err_out_of_memory, vm_set_state}
use zlvm.Vm.Valid.{IsValid, memory_end, byte_at, byte_at-IsByte}
use zlvm.Vm.Memory.{vm_read_scalar, vm_write_scalar, vm_read_word, vm_write_word}
use zlvm.Vm.Memory.Access.{vm_validate_range_ok, vm_validate_range_lem}
use zlvm.Vm.Memory.Scalar.{
  IsStored, byte_of, scalar_at, vm_read_scalar_lem, write_scalar_loop-IsStored,
}

pub vm_write_scalar-IsStored :
    (vm : VirtualMachine) (a value size : ℕ)
    → IsValid vm
    → a + size ≤ memory_end vm
    → IsStored vm (vm_write_scalar vm a value size) a (a + size) (byte_of value a)
unfolding vm_write_scalar
vm_write_scalar-IsStored vm a value size v h =
    let start : a + 0 ≡ a = omega arith in
    rw (vm_validate_range_ok vm a size v h, vm_write_scalar)
      (rw start at (write_scalar_loop-IsStored size 0 a value vm v (omega arith)))

pub vm_write_scalar_fault :
    (vm : VirtualMachine) (a value size : ℕ)
    → IsValid vm
    → memory_end vm < a + size
    → vm_write_scalar vm a value size ≡ vm_set_state vm err_out_of_memory
unfolding vm_write_scalar
vm_write_scalar_fault vm a value size v h = ground (arith, vm_validate_range_lem vm a size v)

module _ (vm vm' : VirtualMachine) (a size value : ℕ) (room : a + size ≤ memory_end vm)
    (st : IsStored vm vm' a (a + size) (byte_of value a)) where
  stored_end : memory_end vm' ≡ memory_end vm
  stored_end = ap memory_end st.frame

  pub read_stored : vm_read_scalar vm' a size ≡ (value % 2 ^ (size * 8), vm')
  read_stored = ground (
    arith,
    vm_read_scalar_lem vm' a size st.valid,
    stored_end,
    le_value_digits size (byte_at vm') a value (λ i p. ground (arith, st.bytes (a + i))),
  )

  pub read_beside :
      (b width : ℕ)
      → b + width ≤ memory_end vm
      → (b + width ≤ a) ⊎ (a + size ≤ b)
      → vm_read_scalar vm' b width ≡ (scalar_at vm width b, vm')
  read_beside b width h apart = ground (
    arith,
    vm_read_scalar_lem vm' b width st.valid,
    stored_end,
    le_value_ext width (byte_at vm') (byte_at vm) b (λ i p q. ground (arith, st.bytes i)),
  )

-- In a valid machine, after a write of `size` bytes in memory: reading the same bytes gives the
-- value modulo 2 ^ (8 * size), reading any range beside them gives what it gave before, the
-- machine is valid, and nothing but the two arrays has changed.
pub vm_read_scalar-vm_write_scalar :
    (vm : VirtualMachine) (a value size : ℕ)
    → IsValid vm
    → a + size ≤ memory_end vm
    → let vm' = vm_write_scalar vm a value size in
      (vm_read_scalar vm' a size ≡ (value % 2 ^ (size * 8), vm'))
      × ((b width : ℕ)
          → b + width ≤ memory_end vm
          → (b + width ≤ a) ⊎ (a + size ≤ b)
          → (vm_read_scalar vm' b width).0 ≡ (vm_read_scalar vm b width).0)
      × IsValid vm'
      × (vm' ≡ record vm { rom = vm'.rom; memory = vm'.memory })
vm_read_scalar-vm_write_scalar vm a value size v h =
    let st = vm_write_scalar-IsStored vm a value size v h in
    (
      read_stored vm _ a size value h st,
      λ b width p apart. ground (
        arith,
        read_beside vm _ a size value h st b width p apart,
        vm_read_scalar_lem vm b width v,
      ),
      st.valid,
      st.frame,
    )

pub vm_read_word_ok :
    (vm : VirtualMachine) (a : ℕ)
    → IsValid vm
    → a + 4 ≤ memory_end vm
    → vm_read_word vm a ≡ (scalar_at vm 4 a, vm)
unfolding vm_read_word
vm_read_word_ok vm a v h =
    ground (arith, vm_read_scalar_lem vm a 4 v, le_value-lt 4 (byte_at vm) a (byte_at-IsByte vm v))

-- A word that is written is read back.
pub vm_read_word-vm_write_word :
    (vm : VirtualMachine) (a value : ℕ)
    → IsValid vm
    → IsWord value
    → a + 4 ≤ memory_end vm
    → vm_read_word (vm_write_word vm a value) a ≡ (value, vm_write_word vm a value)
unfolding vm_read_word vm_write_word
vm_read_word-vm_write_word vm a value v w h =
    ground (arith, read_stored vm _ a 4 value h (vm_write_scalar-IsStored vm a value 4 v h))
