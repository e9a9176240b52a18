-- ===== src/Vm/Stack/Laws.antt =====
-- emulator/src/VirtualMachineInternal.c: pushing and popping words, on every branch.
use zlvm.Prelude.{
  ℕ, ◌+◌, ◌-◌, ◌%◌, ◌^◌, ◌≤◌, ◌<◌, ◌≡◌, ◌≢◌, ◌∙◌, refl, sym, ap, arith, true, false, none, some,
  ◌==◌, if◌then◌else◌, to_word, IsWord, get_or, get_or-set, ◌⊎◌, set_restore,
}
use zlvm.Vm.{
  VirtualMachine, err_stack_underflow, err_stack_overflow, r_sp, r_bp, stack_size, word_size,
  register, set_register, vm_set_state, vm_has_no_error, register_count,
}
use zlvm.Vm.Valid.{IsValid, memory_end, byte_at, register-IsWord, set_register-IsValid}
use zlvm.Vm.Memory.{vm_write_word}
use zlvm.Vm.Memory.Access.{vm_validate_range_ok}
use zlvm.Vm.Memory.Scalar.{scalar_at, byte_of, IsStored}
use zlvm.Vm.Memory.RoundTrip.{vm_write_scalar-IsStored, vm_read_word-vm_write_word, vm_read_word_ok}
use zlvm.Vm.Stack.{vm_pop_word, vm_push_word}

-- A stack that starts at the base pointer: whole words, at most ZLVM_STACK_SIZE bytes, in memory.
pub record IsStack (vm : VirtualMachine) : Type 0 where
  pub ordered : register vm r_bp ≤ register vm r_sp
  pub depth : register vm r_sp ≤ register vm r_bp + stack_size
  pub aligned : (register vm r_sp - register vm r_bp) % word_size ≡ 0
  pub inside : register vm r_sp ≤ memory_end vm

pub register-set_register :
    (vm : VirtualMachine) (r s value : ℕ)
    → IsValid vm
    → s < register_count
    → register (set_register vm r value) s ≡ (if r == s then value else register vm s)
unfolding register set_register
register-set_register vm r s value v h =
    ground (arith, get_or-set vm.registers r s value 0, v.register_length)

-- The machine after a push that succeeds.
abbrev pushed : VirtualMachine → ℕ → VirtualMachine
pushed vm value =
    set_register (vm_write_word vm (register vm r_sp) value) r_sp (register vm r_sp + word_size)

module _ (vm : VirtualMachine) (v : IsValid vm) (ok : vm_has_no_error vm ≡ true) where
  -- No error is set by an access that is in range.
  write_keeps_state :
      (a value : ℕ)
      → a + word_size ≤ memory_end vm
      → vm_has_no_error (vm_write_word vm a value) ≡ true
  unfolding vm_write_word vm_has_no_error
  write_keeps_state a value h =
      let st = vm_write_scalar-IsStored vm a value word_size v h in rw st.frame ok

  push_ok :
      (value : ℕ)
      → IsStack vm
      → register vm r_sp + word_size ≤ memory_end vm
      → IsWord (register vm r_sp + word_size)
      → register vm r_sp < register vm r_bp + stack_size
      → vm_push_word vm value ≡ (true, pushed vm value)
  unfolding vm_push_word
  push_ok value s room fits below = ground (
    arith,
    register-IsWord vm r_bp v,
    vm_validate_range_ok vm (register vm r_sp) word_size v room,
    write_keeps_state (register vm r_sp) value room,
  )

  pop_ok :
      IsStack vm
      → register vm r_bp < register vm r_sp
      → vm_pop_word vm ≡ (
        some (scalar_at vm word_size (register vm r_sp - word_size)),
        set_register vm r_sp (register vm r_sp - word_size),
      )
  unfolding vm_pop_word
  pop_ok s above =
      let sp = register vm r_sp in
      let bp = register vm r_bp in
      let word : IsWord sp = register-IsWord vm r_sp v in
      let far : 4 ≤ sp - bp = omega arith in
      let address : to_word (sp + 2 ^ 32 - word_size) ≡ sp - word_size = omega arith in
      rw address (
        ground
          (arith, register-IsWord vm r_bp v, vm_read_word_ok vm (sp - word_size) v (omega arith)))

-- The machine after a successful push, from which the next pop starts.
module _ (vm : VirtualMachine) (value : ℕ) (v : IsValid vm) (w : IsWord value)
    (room : register vm r_sp + word_size ≤ memory_end vm)
    (fits : IsWord (register vm r_sp + word_size)) where
  abbrev stored : VirtualMachine
  stored = vm_write_word vm (register vm r_sp) value

  stored-IsStored :
      IsStored vm stored
        (register vm r_sp)
        (register vm r_sp + word_size)
        (byte_of value (register vm r_sp))
  unfolding vm_write_word
  stored-IsStored = vm_write_scalar-IsStored vm (register vm r_sp) value word_size v room

  register-stored : (r : ℕ) → register stored r ≡ register vm r
  unfolding register
  register-stored r = ap (λ (m : VirtualMachine). get_or m.registers r 0) stored-IsStored.frame

  pushed-IsValid : IsValid (pushed vm value)
  pushed-IsValid = set_register-IsValid stored r_sp _ stored-IsStored.valid fits

  pushed_sp : register (pushed vm value) r_sp ≡ register vm r_sp + word_size
  pushed_sp = ground (
    arith,
    register-set_register stored r_sp r_sp (register vm r_sp + word_size) stored-IsStored.valid,
  )

  pushed_bp : register (pushed vm value) r_bp ≡ register vm r_bp
  pushed_bp = ground (
    arith,
    register-set_register stored r_sp r_bp (register vm r_sp + word_size) stored-IsStored.valid,
    register-stored r_bp,
  )

  pushed_end : memory_end (pushed vm value) ≡ memory_end vm
  unfolding set_register
  pushed_end = ap memory_end stored-IsStored.frame

  pushed-IsStack :
      IsStack vm → register vm r_sp < register vm r_bp + stack_size → IsStack (pushed vm value)
  pushed-IsStack s below = record {
    ordered = rw (pushed_sp, pushed_bp) (omega arith);
    depth = rw (pushed_sp, pushed_bp) (omega arith);
    aligned = rw (pushed_sp, pushed_bp) (omega arith);
    inside = rw (pushed_sp, pushed_end) room;
  }

  pushed_word : scalar_at (pushed vm value) word_size (register vm r_sp) ≡ value
  unfolding set_register byte_at
  pushed_word =
      let sp = register vm r_sp in
      ap (λ (r : ℕ × VirtualMachine). r.0)
        (sym (
            vm_read_word_ok stored sp stored-IsStored.valid
              (rw (ap memory_end stored-IsStored.frame) room))
          ∙ vm_read_word-vm_write_word vm sp value v w room)

  popped_state : set_register (pushed vm value) r_sp (register vm r_sp) ≡ stored
  unfolding set_register register
  popped_state =
      let value_at : ℕ → VirtualMachine = λ x. set_register (pushed vm value) r_sp x in
      ap value_at (sym (register-stored r_sp))
      ∙ ap (λ rs. record stored { registers = rs })
          (set_restore stored.registers r_sp (register vm r_sp + word_size) 0)

-- In a valid machine without an error whose stack has room for one more word, in memory and below
-- the stack's limit, a push succeeds; the pop after it gives the word back, and leaves every
-- register, the status and the stack as they were, and of the memory only the pushed word changed.
pub vm_pop_word-vm_push_word :
    (vm : VirtualMachine) (value : ℕ)
    → IsValid vm
    → vm_has_no_error vm ≡ true
    → IsStack vm
    → IsWord value
    → register vm r_sp + word_size ≤ memory_end vm
    → IsWord (register vm r_sp + word_size)
    → register vm r_sp < register vm r_bp + stack_size
    → let (done, vm') = vm_push_word vm value in
      let (popped, vm'') = vm_pop_word vm' in
      (done ≡ true) × (popped ≡ some value) × (vm'' ≡ vm_write_word vm (register vm r_sp) value)
vm_pop_word-vm_push_word vm value v ok s w room fits below =
    let push = push_ok vm v ok value s room fits below in
    let stack = pushed-IsStack vm value v w room fits s below in
    let sp = pushed_sp vm value v w room fits in
    let pop =
      pop_ok (pushed vm value) (pushed-IsValid vm value v w room fits)
        (unfold set_register vm_has_no_error in
          write_keeps_state vm v ok (register vm r_sp) value room)
        stack (rw (sp, pushed_bp vm value v w room fits) (omega arith)) in
    let address : register vm r_sp + word_size - word_size ≡ register vm r_sp = omega arith in
    rw
      (
        push,
        pop,
        sp,
        address,
        pushed_word vm value v w room fits,
        popped_state vm value v w room fits,
      )
      (refl, refl, refl)

-- On a valid machine, a push onto ZLVM_STACK_SIZE used bytes, or where the stack pointer is below
-- the base pointer or not a whole number of words above it, fails with a stack overflow, and
-- nothing but the status changes.
pub vm_push_word_overflow :
    (vm : VirtualMachine) (value : ℕ)
    → IsValid vm
    → (register vm r_bp + stack_size ≤ register vm r_sp)
      ⊎ ((register vm r_sp < register vm r_bp)
          ⊎ ((register vm r_sp - register vm r_bp) % word_size ≢ 0))
    → vm_push_word vm value ≡ (false, vm_set_state vm err_stack_overflow)
unfolding vm_push_word
vm_push_word_overflow vm value v h =
    ground (arith, register-IsWord vm r_sp v, register-IsWord vm r_bp v)

-- On a valid machine, a pop from an empty stack, or where the stack pointer is below the base
-- pointer or not a whole number of words above it, fails with a stack underflow, and nothing but
-- the status changes.
pub vm_pop_word_underflow :
    (vm : VirtualMachine)
    → IsValid vm
    → (register vm r_sp ≡ register vm r_bp)
      ⊎ ((register vm r_sp < register vm r_bp)
          ⊎ ((register vm r_sp - register vm r_bp) % word_size ≢ 0))
    → vm_pop_word vm ≡ (none, vm_set_state vm err_stack_underflow)
unfolding vm_pop_word
vm_pop_word_underflow vm v h = ground (arith, register-IsWord vm r_sp v, register-IsWord vm r_bp v)
