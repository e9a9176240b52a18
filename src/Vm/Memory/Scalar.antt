-- ===== src/Vm/Memory/Scalar.antt =====
-- emulator/src/VirtualMachineInternal.c: multi-byte accesses as little-endian numbers in memory.
use zlvm.Prelude.{
  ℕ, zero, suc, ◌+◌, ◌-◌, ◌*◌, ◌^◌, ◌≤◌, ◌<◌, ◌≡◌, ◌∙◌, refl, ap, arith, ◌&&◌, ltb, leb,
  if◌then◌else◌, to_byte, ◌>>>◌,
}
use zlvm.Bytes.{le_value}
use zlvm.Bytes.Laws.{or_byte, pow_next_byte}
use zlvm.Vm.{VirtualMachine, err_out_of_memory, vm_set_state}
use zlvm.Vm.Valid.{IsValid, memory_end, byte_at, byte_at-IsByte}
use zlvm.Vm.Memory.{
  add_size, vm_read_byte, vm_write_byte, read_scalar_loop, vm_read_scalar, write_scalar_loop,
}
use zlvm.Vm.Memory.Access.{
  vm_validate_range_lem, vm_read_byte_lem, byte_at-vm_write_byte, vm_write_byte_frame,
  vm_write_byte-IsValid,
}

-- The `size` bytes from an address on, as a number.
abbrev pub scalar_at : VirtualMachine → ℕ → ℕ → ℕ
scalar_at vm size a = le_value size (byte_at vm) a

vm_read_byte_ok :
    (vm : VirtualMachine) (a : ℕ)
    → IsValid vm
    → a < memory_end vm
    → vm_read_byte vm a ≡ (byte_at vm a, vm)
vm_read_byte_ok vm a v h = ground (arith, vm_read_byte_lem vm a v)

read_scalar_loop_lem :
    (left index a result : ℕ) (vm : VirtualMachine)
    → IsValid vm
    → a + index + left ≤ memory_end vm
    → result < 2 ^ (index * 8)
    → read_scalar_loop left index a result vm
      ≡ (result + 2 ^ (index * 8) * scalar_at vm left (a + index), vm)
unfolding read_scalar_loop le_value
read_scalar_loop_lem zero index a result vm v h p = ground arith
read_scalar_loop_lem (suc left) index a result vm v h p =
    let fits = v.fits in
    let here : add_size a index ≡ a + index = omega arith in
    let (e, lt) =
      or_byte index result (byte_at vm (a + index)) p (byte_at-IsByte vm v (a + index)) in
    let assoc : a + (index + 1) ≡ a + index + 1 = omega arith in
    rw
      (
        here,
        vm_read_byte_ok vm (a + index) v (omega arith),
        e,
        read_scalar_loop_lem left (index + 1) a _ vm v (omega arith) lt,
        assoc,
        pow_next_byte,
      )
      (ap (λ (t : ℕ). (t, vm)) (omega arith))

-- A read of a range that lies in memory gives the number that its bytes stand for; any other read
-- gives 0 and sets the state.
pub vm_read_scalar_lem :
    (vm : VirtualMachine) (a size : ℕ)
    → IsValid vm
    → vm_read_scalar vm a size ≡ (
        if leb (a + size) (memory_end vm)
        then (scalar_at vm size a, vm)
        else (0, vm_set_state vm err_out_of_memory))
unfolding vm_read_scalar
vm_read_scalar_lem vm a size v =
    ground (arith, vm_validate_range_lem vm a size v, read_scalar_loop_lem size 0 a 0 vm v)

-- `vm'` is `vm` but for the bytes from `lo` up to `hi`, which `f` gives.
pub record IsStored (vm vm' : VirtualMachine) (lo hi : ℕ) (f : ℕ → ℕ) : Type 0 where
  pub valid : IsValid vm'
  pub frame : vm' ≡ record vm { rom = vm'.rom; memory = vm'.memory }
  pub bytes : (b : ℕ) → byte_at vm' b ≡ (if leb lo b && ltb b hi then f b else byte_at vm b)

-- The byte that a scalar at `a` has at the address `b`.
abbrev pub byte_of : ℕ → ℕ → ℕ → ℕ
byte_of value a b = to_byte (value >>> ((b - a) * 8))

-- One round of the loop before the rest of it.
module _ (vm : VirtualMachine) (a index value : ℕ) (v : IsValid vm)
    (here : a + index < memory_end vm) where
  abbrev one : ℕ
  one = to_byte (value >>> (index * 8))

  abbrev written : VirtualMachine
  written = vm_write_byte vm (a + index) one

  written_frame : written ≡ record vm { rom = written.rom; memory = written.memory }
  written_frame = vm_write_byte_frame vm (a + index) one v here

  written_size : written.memory_size ≡ vm.memory_size
  written_size = ap (λ (m : VirtualMachine). m.memory_size) written_frame

  written-IsValid : IsValid written
  written-IsValid = vm_write_byte-IsValid vm (a + index) _ v here (omega arith)

  IsStored-written :
      (vm' : VirtualMachine) (hi : ℕ)
      → a + index < hi
      → IsStored written vm' (a + (index + 1)) hi (byte_of value a)
      → IsStored vm vm' (a + index) hi (byte_of value a)
  IsStored-written vm' hi below rest = record {
    valid = rest.valid;
    frame = rest.frame ∙ rw written_frame refl;
    bytes = λ b. ground (arith, rest.bytes b, byte_at-vm_write_byte vm (a + index) one b v here);
  }

-- The writing loop stores the bytes of the value.
pub write_scalar_loop-IsStored :
    (left index a value : ℕ) (vm : VirtualMachine)
    → IsValid vm
    → a + index + left ≤ memory_end vm
    → IsStored vm
        (write_scalar_loop left index a value vm)
        (a + index)
        (a + index + left)
        (byte_of value a)
unfolding write_scalar_loop
write_scalar_loop-IsStored zero index a value vm v h = record {
  valid = v;
  frame = refl;
  bytes = λ b. ground arith;
}
write_scalar_loop-IsStored (suc left) index a value vm v h =
    let fits = v.fits in
    let here : add_size a index ≡ a + index = omega arith in
    let room : a + index < memory_end vm = omega arith in
    let end : a + (index + 1) + left ≡ a + index + suc left = omega arith in
    let rest =
      write_scalar_loop-IsStored left (index + 1) a value (written vm a index value v room)
        (written-IsValid vm a index value v room)
        (rw (written_size vm a index value v room) (omega arith)) in
    rw here (
      IsStored-written vm a index value v room _ (a + index + suc left) (omega arith)
        (rw end at rest))
