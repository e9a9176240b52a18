-- ===== src/Vm/Switch/Stacking.antt =====
-- emulator/src/VirtualMachineInternal.c: the cases that push and pop.
use zlvm.Prelude.{
  ℕ, ◌+◌, ◌-◌, ◌^◌, ◌≡◌, refl, arith, Bool, true, false, inl, inr, none, some, Option, not, IsWord,
  to_word, Bool-cases, if_either,
}
use zlvm.Vm.{
  VirtualMachine, err_stack_underflow, err_stack_overflow, register, set_register, vm_has_no_error,
  r_sp, r_bp,
}
use zlvm.Vm.Valid.{IsValid, set_register-IsValid, vm_set_state-IsValid}
use zlvm.Vm.Memory.{vm_validate_range, vm_read_scalar, vm_write_scalar, vm_read_word, vm_write_word}
use zlvm.Vm.Stack.{vm_pop_word, vm_push_word, pop_refused, push_refused}
use zlvm.Vm.Switch.{exec_popr, exec_dup, on_success}
use zlvm.Vm.Switch.Accesses.{read_scalar-IsValid, write_scalar-IsValid, validate_range-IsValid}

pub push-IsValid :
    (vm : VirtualMachine) (value : ℕ) → IsValid vm → IsValid (vm_push_word vm value).1
unfolding vm_push_word vm_write_word
push-IsValid vm value v =
    let sp = register vm r_sp in
    let ranged = validate_range-IsValid vm sp 4 v in
    let written = write_scalar-IsValid (vm_validate_range vm sp 4).1 sp value 4 ranged in
    elim (Bool-cases (push_refused sp (register vm r_bp))) [
      | inl e ↦ rw (e, vm_push_word) (vm_set_state-IsValid vm err_stack_overflow v)
      | inr e ↦
          rw (e, vm_push_word)
            (elim (Bool-cases (vm_validate_range vm sp 4).0) [
              | inl f ↦ rw f (
                  if_either (λ (r : Bool × VirtualMachine). IsValid r.1)
                    (not
                      (vm_has_no_error (vm_write_scalar (vm_validate_range vm sp 4).1 sp value 4)))
                    {x = (false, vm_write_scalar (vm_validate_range vm sp 4).1 sp value 4)}
                    {y = (
                      true,
                      set_register (vm_write_scalar (vm_validate_range vm sp 4).1 sp value 4) r_sp
                          (to_word (to_word sp + 4)),
                    )}
                    written
                    (set_register-IsValid _ r_sp (to_word (to_word sp + 4)) written (omega arith)))
              | inr f ↦ rw f ranged
            ])
    ]

-- A word that is popped is a word.
abbrev pub IsPopped : Option ℕ × VirtualMachine → Type 0
IsPopped r = IsValid r.1 × ((w : ℕ) → r.0 ≡ some w → IsWord w)

pub pop-IsPopped : (vm : VirtualMachine) → IsValid vm → IsPopped (vm_pop_word vm)
unfolding vm_pop_word vm_read_word
pop-IsPopped vm v =
    let sp = register vm r_sp in
    let a = to_word (sp + 2 ^ 32 - 4) in
    let m = (vm_read_scalar vm a 4).1 in
    let read = read_scalar-IsValid vm a 4 v in
    elim (Bool-cases (pop_refused sp (register vm r_bp))) [
      | inl e ↦
          rw (e, vm_pop_word)
            (vm_set_state-IsValid vm err_stack_underflow v, λ w f. absurd (ground arith))
      | inr e ↦
          rw (e, vm_pop_word)
            (elim (Bool-cases (vm_has_no_error m)) [
              | inl f ↦
                  rw f (
                    set_register-IsValid m r_sp (to_word a) read (omega arith),
                    λ w g. ground arith,
                  )
              | inr f ↦ rw f (read, λ w g. absurd (ground arith))
            ])
    ]

-- The body after a pop.
popped-IsValid :
    (r : Option ℕ × VirtualMachine) (body : ℕ → VirtualMachine → VirtualMachine)
    → IsPopped r
    → ((w : ℕ) (vm : VirtualMachine) → IsValid vm → IsWord w → IsValid (body w vm))
    → IsValid (on_success r body)
popped-IsValid (none, vm) body p h = p.0
popped-IsValid (some w, vm) body p h = h w vm p.0 (p.1 w refl)

pub popr-IsValid : (vm : VirtualMachine) (r1 : ℕ) → IsValid vm → IsValid (exec_popr vm r1)
unfolding exec_popr
popr-IsValid vm r1 v =
    popped-IsValid (vm_pop_word vm) _ (pop-IsPopped vm v)
      λ w vm' v' p. set_register-IsValid vm' r1 w v' p

pub dup-IsValid : (vm : VirtualMachine) → IsValid vm → IsValid (exec_dup vm)
unfolding exec_dup
dup-IsValid vm v =
    popped-IsValid (vm_pop_word vm) _ (pop-IsPopped vm v)
      λ w vm' v' p. push-IsValid _ w (push-IsValid vm' w v')
