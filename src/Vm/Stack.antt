-- ===== src/Vm/Stack.antt =====
-- The machine's stack: vm_pop_word and vm_push_word of emulator/src/VirtualMachineInternal.c. It
-- grows upwards from the base pointer, by words, up to ZLVM_STACK_SIZE bytes.
pub mod Laws
use zlvm.Prelude.{
  ℕ, ◌+◌, ◌-◌, ◌%◌, ◌^◌, Bool, true, false, ◌||◌, not, Option, none, some, ltb, ◌==◌, if◌then◌else◌,
  to_word,
}
use zlvm.Vm.{
  VirtualMachine, err_stack_underflow, err_stack_overflow, r_sp, r_bp, stack_size, word_size,
  register, set_register, vm_set_state, vm_has_no_error,
}
use zlvm.Vm.Memory.{vm_validate_range, vm_read_word, vm_write_word}

-- `stack_pointer - base_pointer` of type `word`.
abbrev pub used_stack : ℕ → ℕ → ℕ
used_stack sp bp = to_word (sp + 2 ^ 32 - bp)

-- The two conditions under which a pop and a push are refused.
abbrev pub pop_refused : ℕ → ℕ → Bool
pop_refused sp bp =
    let used = used_stack sp bp in
    ltb sp bp || ltb used word_size || ltb stack_size used || not (used % word_size == 0)

abbrev pub push_refused : ℕ → ℕ → Bool
push_refused sp bp =
    let used = used_stack sp bp in
    ltb sp bp || ltb (stack_size - word_size) used || not (used % word_size == 0)

-- `none` is `false`, which leaves `*value` alone.
unfoldable pub vm_pop_word : VirtualMachine → Option ℕ × VirtualMachine
vm_pop_word vm =
    let sp = register vm r_sp in
    let bp = register vm r_bp in
    if pop_refused sp bp
    then (none, vm_set_state vm err_stack_underflow)
    else let address = to_word (sp + 2 ^ 32 - word_size) in
      let (result, vm') = vm_read_word vm address in
      if not (vm_has_no_error vm')
      then (none, vm')
      else (some result, set_register vm' r_sp (to_word address))

unfoldable pub vm_push_word : VirtualMachine → ℕ → Bool × VirtualMachine
vm_push_word vm value =
    let sp = register vm r_sp in
    let bp = register vm r_bp in
    if push_refused sp bp
    then (false, vm_set_state vm err_stack_overflow)
    else let address = sp in
      let (valid, vm') = vm_validate_range vm address word_size in
      if not valid
      then (false, vm')
      else let vm'' = vm_write_word vm' address value in
        if not (vm_has_no_error vm'')
        then (false, vm'')
        else (true, set_register vm'' r_sp (to_word (to_word address + word_size)))
