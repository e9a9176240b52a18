-- ===== src/Vm/Memory.antt =====
-- Reads and writes over the two address ranges: emulator/src/VirtualMachineInternal.c. Addresses
-- below ZLVM_ROM_SIZE name the ROM and those above it the RAM.
pub mod Access
pub mod Scalar
pub mod RoundTrip
use zlvm.Prelude.{
  ℕ, zero, suc, ◌+◌, ◌-◌, ◌*◌, ◌%◌, ◌^◌, bit_or, Bool, true, false, ◌||◌, Option, none, some, ltb,
  leb, if◌then◌else◌, to_byte, to_hword, to_word, size_t_max, ◌<<<◌, ◌>>>◌, get_or, set,
}
use zlvm.Vm.{VirtualMachine, err_out_of_memory, rom_size, vm_set_state}

-- A function of the source that may set the state returns its result beside the machine.
unfoldable pub vm_validate_range : VirtualMachine → ℕ → ℕ → Bool × VirtualMachine
vm_validate_range vm address size =
    if ltb (size_t_max - rom_size) vm.memory_size
    then (false, vm_set_state vm err_out_of_memory)
    else let memory_end = rom_size + vm.memory_size in
      if ltb memory_end size || ltb (memory_end - size) address
      then (false, vm_set_state vm err_out_of_memory)
      else (true, vm)

unfoldable pub vm_effective_address : VirtualMachine → ℕ → ℕ → ℕ → Option ℕ × VirtualMachine
vm_effective_address vm base offset size =
    let result = base + offset in
    if ltb size_t_max result
    then (none, vm_set_state vm err_out_of_memory)
    else let (valid, vm') = vm_validate_range vm result size in
      if valid then (some result, vm') else (none, vm_set_state vm' err_out_of_memory)

unfoldable pub vm_read_byte : VirtualMachine → ℕ → ℕ × VirtualMachine
vm_read_byte vm address =
    let (valid, vm') = vm_validate_range vm address 1 in
    if valid
    then (
      if leb rom_size address
          then get_or vm'.memory (address - rom_size) 0
          else get_or vm'.rom address 0,
      vm',
    )
    else (0, vm')

unfoldable pub vm_write_byte : VirtualMachine → ℕ → ℕ → VirtualMachine
vm_write_byte vm address value =
    let (valid, vm') = vm_validate_range vm address 1 in
    if valid
    then if leb rom_size address
      then record vm' { memory = set vm'.memory (address - rom_size) value }
      else record vm' { rom = set vm'.rom address value }
    else vm'

-- `address + index` of type `size_t`.
abbrev pub add_size : ℕ → ℕ → ℕ
add_size a b = (a + b) % 2 ^ 64

-- The loop of `vm_read_scalar` with `left` rounds to go.
unfoldable pub read_scalar_loop : ℕ → ℕ → ℕ → ℕ → VirtualMachine → ℕ × VirtualMachine
read_scalar_loop zero index address result vm = (result, vm)
read_scalar_loop (suc left) index address result vm =
    let (b, vm') = vm_read_byte vm (add_size address index) in
    read_scalar_loop left (index + 1) address (bit_or result (b <<< (index * 8))) vm'

unfoldable pub vm_read_scalar : VirtualMachine → ℕ → ℕ → ℕ × VirtualMachine
vm_read_scalar vm address size =
    let (valid, vm') = vm_validate_range vm address size in
    if valid then read_scalar_loop size 0 address 0 vm' else (0, vm')

-- The loop of `vm_write_scalar`.
unfoldable pub write_scalar_loop : ℕ → ℕ → ℕ → ℕ → VirtualMachine → VirtualMachine
write_scalar_loop zero index address value vm = vm
write_scalar_loop (suc left) index address value vm =
    write_scalar_loop left (index + 1) address value
      (vm_write_byte vm (add_size address index) (to_byte (value >>> (index * 8))))

unfoldable pub vm_write_scalar : VirtualMachine → ℕ → ℕ → ℕ → VirtualMachine
vm_write_scalar vm address value size =
    let (valid, vm') = vm_validate_range vm address size in
    if valid then write_scalar_loop size 0 address value vm' else vm'

unfoldable pub vm_read_hword : VirtualMachine → ℕ → ℕ × VirtualMachine
vm_read_hword vm address = let (value, vm') = vm_read_scalar vm address 2 in (to_hword value, vm')

unfoldable pub vm_write_hword : VirtualMachine → ℕ → ℕ → VirtualMachine
vm_write_hword vm address value = vm_write_scalar vm address value 2

unfoldable pub vm_read_word : VirtualMachine → ℕ → ℕ × VirtualMachine
vm_read_word vm address = let (value, vm') = vm_read_scalar vm address 4 in (to_word value, vm')

unfoldable pub vm_write_word : VirtualMachine → ℕ → ℕ → VirtualMachine
vm_write_word vm address value = vm_write_scalar vm address value 4

unfoldable pub vm_read_dword : VirtualMachine → ℕ → ℕ × VirtualMachine
vm_read_dword vm address = vm_read_scalar vm address 8

unfoldable pub vm_write_dword : VirtualMachine → ℕ → ℕ → VirtualMachine
vm_write_dword vm address value = vm_write_scalar vm address value 8
