-- ===== src/Vm/Memory/Access.antt =====
-- emulator/src/VirtualMachineInternal.c: a byte access against the machine as one flat array.
use zlvm.Prelude.{
  ℕ, ◌+◌, ◌-◌, ◌≤◌, ◌<◌, ◌≡◌, ◌∙◌, refl, arith, true, false, none, some, ltb, leb, ◌==◌,
  if◌then◌else◌, IsByte, IsWord, get_or-set, length-set, All-set, inl, inr, Bool-cases,
}
use zlvm.Vm.Valid.{IsValid, memory_end, byte_at}
use zlvm.Vm.{
  VirtualMachine, err_out_of_memory, rom_size, vm_set_state, vm_has_no_error, is_error, state_code,
}
use zlvm.Vm.Memory.{vm_validate_range, vm_effective_address, vm_read_byte, vm_write_byte}

pub vm_validate_range_ok :
    (vm : VirtualMachine) (address size : ℕ)
    → IsValid vm
    → address + size ≤ memory_end vm
    → vm_validate_range vm address size ≡ (true, vm)
unfolding vm_validate_range
vm_validate_range_ok vm address size v h = ground arith

-- The check passes exactly when the whole range lies in the address space; otherwise the state is
-- set, and nothing else.
pub vm_validate_range_lem :
    (vm : VirtualMachine) (address size : ℕ)
    → IsValid vm
    → vm_validate_range vm address size ≡ (
        if leb (address + size) (memory_end vm)
        then (true, vm)
        else (false, vm_set_state vm err_out_of_memory))
unfolding vm_validate_range
vm_validate_range_lem vm address size v = ground arith

pub vm_read_byte_lem :
    (vm : VirtualMachine) (a : ℕ)
    → IsValid vm
    → vm_read_byte vm a ≡ (
        if ltb a (memory_end vm)
        then (byte_at vm a, vm)
        else (0, vm_set_state vm err_out_of_memory))
unfolding vm_read_byte byte_at
vm_read_byte_lem vm a v = ground (arith, vm_validate_range_lem vm a 1 v)

-- In the address space a write sets one byte of the flat array.
pub byte_at-vm_write_byte :
    (vm : VirtualMachine) (a value b : ℕ)
    → IsValid vm
    → a < memory_end vm
    → byte_at (vm_write_byte vm a value) b ≡ (if a == b then value else byte_at vm b)
unfolding vm_write_byte byte_at
byte_at-vm_write_byte vm a value b v h = ground (
  arith,
  vm_validate_range_ok vm a 1 v (omega arith),
  get_or-set vm.memory (a - rom_size) (b - rom_size) value 0,
  get_or-set vm.rom a b value 0,
)

-- A write leaves everything but the two arrays.
pub vm_write_byte_frame :
    (vm : VirtualMachine) (a value : ℕ)
    → IsValid vm
    → a < memory_end vm
    → vm_write_byte vm a value ≡ record vm {
      rom = (vm_write_byte vm a value).rom;
      memory = (vm_write_byte vm a value).memory;
    }
unfolding vm_write_byte
vm_write_byte_frame vm a value v h = ground (arith, vm_validate_range_ok vm a 1 v)

pub vm_write_byte-IsValid :
    (vm : VirtualMachine) (a value : ℕ)
    → IsValid vm
    → a < memory_end vm
    → IsByte value
    → IsValid (vm_write_byte vm a value)
unfolding vm_write_byte
vm_write_byte-IsValid vm a value v h b =
    rw (vm_validate_range_ok vm a 1 v (omega arith), vm_write_byte)
      (elim (Bool-cases (leb rom_size a)) [
        | inl ram ↦ rw ram (record {
          rom_length = v.rom_length;
          memory_length = length-set vm.memory (a - rom_size) value ∙ v.memory_length;
          fits = v.fits;
          register_length = v.register_length;
          rom_bytes = v.rom_bytes;
          memory_bytes = All-set IsByte vm.memory (a - rom_size) value v.memory_bytes b;
          register_words = v.register_words;
          entry_word = v.entry_word;
        })
        | inr low ↦ rw low (record {
          rom_length = length-set vm.rom a value ∙ v.rom_length;
          memory_length = v.memory_length;
          fits = v.fits;
          register_length = v.register_length;
          rom_bytes = All-set IsByte vm.rom a value v.rom_bytes b;
          memory_bytes = v.memory_bytes;
          register_words = v.register_words;
          entry_word = v.entry_word;
        })
      ])

-- Setting an error twice is setting it once.
set_state_twice :
    (vm : VirtualMachine)
    → vm_set_state (vm_set_state vm err_out_of_memory) err_out_of_memory
      ≡ vm_set_state vm err_out_of_memory
unfolding vm_set_state vm_has_no_error
set_state_twice vm = elim (Bool-cases (is_error vm.cpsr.st)) [
  | inl e ↦ rw (e, e) refl
  | inr e ↦ rw e (unfold is_error state_code in refl)
]

-- For word operands the address is their sum, which no `dword` or `size_t` loses, where the whole
-- access lies in memory; otherwise there is none, and only the status is set.
pub vm_effective_address_lem :
    (vm : VirtualMachine) (base offset size : ℕ)
    → IsValid vm
    → IsWord base
    → IsWord offset
    → vm_effective_address vm base offset size ≡ (
        if leb (base + offset + size) (memory_end vm)
        then (some (base + offset), vm)
        else (none, vm_set_state vm err_out_of_memory))
unfolding vm_effective_address
vm_effective_address_lem vm base offset size v p q =
    ground (arith, vm_validate_range_lem vm (base + offset) size v, set_state_twice vm)
