-- ===== src/Vm/Run/Outcome.antt =====
-- emulator/src/VirtualMachineInternal.c: what holds when the main loop ends.
use zlvm.Prelude.{
  ℕ, zero, suc, ◌+◌, ◌≡◌, ◌∙◌, refl, sym, arith, true, false, none, some, inl, inr, ◌⊎◌, List,
  if_either, IsByte, IsWord, to_word, get_or, All, All-get_or, Bool-cases, Option-cases,
}
use zlvm.Bytes.Laws.{get_bytes-le_value, le_value-lt}
use zlvm.Instruction.{Instruction, instruction_size, instruction_decode}
use zlvm.Vm.{
  VirtualMachine, State, halted, r_pc, r_bp, r_sp, rom_size, err_invalid_opcode, register, is_error,
  state_code, vm_has_no_error, vm_has_state, vm_get_state,
}
use zlvm.Vm.Valid.{IsValid, set_register-IsValid, register-IsWord, vm_set_state-IsValid}
use zlvm.Vm.Memory.{vm_validate_range}
use zlvm.Vm.Switch.Accesses.{validate_range-IsValid, vm_read_byte-IsValid}
use zlvm.Vm.Execute.Valid.{vm_run_instruction-IsValid}
use zlvm.Vm.Run.{
  vm_fetch_byte, fetch_bytes, vm_fetch_instruction, cycle, is_running, run_loop, start, vm_run,
}

fetch_bytes-IsValid :
    (n : ℕ) (vm : VirtualMachine)
    → IsValid vm
    → All IsByte (fetch_bytes n vm).0 × IsValid (fetch_bytes n vm).1
unfolding fetch_bytes vm_fetch_byte
fetch_bytes-IsValid zero vm v = (tt, v)
fetch_bytes-IsValid (suc n) vm v =
    let moved = set_register-IsValid vm r_pc (to_word (register vm r_pc + 1)) v (omega arith) in
    let (b, v') = vm_read_byte-IsValid _ (register vm r_pc) moved in
    let (bs, v'') = fetch_bytes-IsValid n _ v' in ((b, bs), v'')

-- An instruction that is decoded from bytes has a word for its immediate.
immediate-IsWord :
    (bytes : List ℕ) {i : Instruction}
    → All IsByte bytes
    → instruction_decode (some bytes) instruction_size ≡ some i
    → IsWord i.immediate
unfolding instruction_decode
immediate-IsWord bytes all e =
    let byte = λ (j : ℕ). All-get_or IsByte bytes j 0 all (omega arith) in
    ground (
      arith,
      get_bytes-le_value 4 0 bytes 4 0 byte (omega arith),
      le_value-lt 4 (λ j. get_or bytes j 0) 4 byte,
    )

abbrev IsFetched : Instruction × VirtualMachine → Type 0
IsFetched r = IsWord r.0.immediate × IsValid r.1

pub vm_fetch_instruction-IsValid :
    (vm : VirtualMachine) → IsValid vm → IsFetched (vm_fetch_instruction vm)
unfolding vm_fetch_instruction
vm_fetch_instruction-IsValid vm v =
    let range = vm_validate_range vm (register vm r_pc) instruction_size in
    let ranged = validate_range-IsValid vm (register vm r_pc) instruction_size v in
    let (all, v') = fetch_bytes-IsValid instruction_size range.1 ranged in
    elim (Bool-cases range.0) [
      | inr e ↦ rw (e, vm_fetch_instruction) (omega arith, ranged)
      | inl e ↦
          rw (e, vm_fetch_instruction)
            (elim (Option-cases (
              instruction_decode (some (fetch_bytes instruction_size range.1).0)
                instruction_size)) [
                  | inl f ↦ rw f (omega arith, vm_set_state-IsValid _ err_invalid_opcode v')
                  | inr (i, f) ↦ rw f (immediate-IsWord _ all f, v')
                ])
    ]

pub cycle-IsValid : (vm : VirtualMachine) → IsValid vm → IsValid (cycle vm)
unfolding cycle
cycle-IsValid vm v =
    let (w, v') = vm_fetch_instruction-IsValid vm v in
    let fetched = vm_fetch_instruction vm in
    if_either IsValid (vm_has_no_error fetched.1)
      (vm_run_instruction-IsValid fetched.1 fetched.0 v' w).0 v'

start-IsValid : (vm : VirtualMachine) → IsValid vm → IsValid (start vm)
unfolding start
start-IsValid vm v =
    let first =
      set_register-IsValid _ r_bp rom_size
        (set_register-IsValid vm r_pc vm.entry_point v v.entry_word) (omega arith) in
    set_register-IsValid _ r_sp _ first (register-IsWord _ r_bp first)

pub run_loop_stopped :
    (fuel : ℕ) (vm : VirtualMachine) → is_running vm ≡ false → run_loop fuel vm ≡ some vm
unfolding run_loop
run_loop_stopped zero vm off = rw off refl
run_loop_stopped (suc fuel) vm off = rw (off, run_loop) refl

pub run_loop_step :
    (fuel : ℕ) (vm : VirtualMachine)
    → is_running vm ≡ true
    → run_loop (suc fuel) vm ≡ run_loop fuel (cycle vm)
unfolding run_loop
run_loop_step fuel vm on = rw (on, run_loop) refl

run_loop_empty : (vm : VirtualMachine) → is_running vm ≡ true → run_loop 0 vm ≡ none
unfolding run_loop
run_loop_empty vm on = rw on refl

-- The loop ends by its test only, in a valid machine, and more fuel does not change the result.
abbrev Ends : ℕ → VirtualMachine → VirtualMachine → Type 0
Ends fuel vm r =
    (is_running r ≡ false) × IsValid r × ((more : ℕ) → run_loop (fuel + more) vm ≡ some r)

stopped-Ends :
    (fuel : ℕ) (vm r : VirtualMachine)
    → IsValid vm
    → is_running vm ≡ false
    → run_loop fuel vm ≡ some r
    → Ends fuel vm r
stopped-Ends fuel vm r v off e =
    let same : r ≡ vm = cc (run_loop_stopped fuel vm off) in
    rw same (off, v, λ more. run_loop_stopped (fuel + more) vm off)

run_loop-Ends :
    (fuel : ℕ) (vm r : VirtualMachine) → IsValid vm → run_loop fuel vm ≡ some r → Ends fuel vm r
run_loop-Ends zero vm r v e = elim (Bool-cases (is_running vm)) [
  | inl on ↦ absurd (ground (arith, run_loop_empty vm on))
  | inr off ↦ stopped-Ends 0 vm r v off e
]
run_loop-Ends (suc fuel) vm r v e = elim (Bool-cases (is_running vm)) [
  | inr off ↦ stopped-Ends (suc fuel) vm r v off e
  | inl on ↦
      let (off, v', more) =
        run_loop-Ends fuel (cycle vm) r (cycle-IsValid vm v) (sym (run_loop_step fuel vm on) ∙ e) in
      (
        off,
        v',
        λ k.
            let next : suc fuel + k ≡ suc (fuel + k) = omega arith in
            rw next (run_loop_step (fuel + k) vm on ∙ more k),
      )
]

halted_or_error :
    (vm : VirtualMachine)
    → is_running vm ≡ false
    → (vm.cpsr.st ≡ halted) ⊎ (is_error vm.cpsr.st ≡ true)
unfolding is_running vm_has_no_error vm_has_state state_code
halted_or_error vm off = ground arith

-- Where a run of a valid machine ends, it returns the machine's state, which is halted or an
-- error; the machine is valid, and every larger amount of fuel gives the same result.
pub vm_run_outcome :
    (fuel : ℕ) (vm : VirtualMachine) (st : State) (r : VirtualMachine)
    → IsValid vm
    → vm_run fuel vm ≡ some (st, r)
    → (st ≡ r.cpsr.st)
      × ((st ≡ halted) ⊎ (is_error st ≡ true))
      × IsValid r
      × ((more : ℕ) → vm_run (fuel + more) vm ≡ some (st, r))
unfolding vm_run vm_get_state
vm_run_outcome fuel vm st r v e = elim (Option-cases (run_loop fuel (start vm))) [
  | inl none_left ↦ absurd (ground arith)
  | inr (r', f) ↦
      let (off, v', more) = run_loop-Ends fuel (start vm) r' (start-IsValid vm v) f in
      let same : r ≡ r' = ground arith in
      let state : st ≡ r'.cpsr.st = ground arith in
      rw (same, state) (refl, halted_or_error r' off, v', λ k. rw (more k, vm_run) refl)
]
