-- ===== src/Vm/Run/Fetch.antt =====
-- emulator/src/VirtualMachineInternal.c: what an instruction fetch reads.
use zlvm.Prelude.{
  ℕ, zero, suc, ◌+◌, ◌≤◌, ◌<◌, ◌≡◌, refl, ap, arith, some, List, [], ◌∷◌, IsWord, to_word, set-set,
  set_self,
}
use zlvm.Instruction.{Instruction, instruction_size, instruction_decode}
use zlvm.Vm.{VirtualMachine, r_pc, register, set_register}
use zlvm.Vm.Valid.{IsValid, memory_end, byte_at, set_register-IsValid}
use zlvm.Vm.Memory.Access.{vm_validate_range_ok, vm_read_byte_lem}
use zlvm.Vm.Stack.Laws.{register-set_register}
use zlvm.Vm.Run.{vm_fetch_byte, fetch_bytes, vm_fetch_instruction}

-- The machine with the program counter moved.
abbrev at_pc : VirtualMachine → ℕ → VirtualMachine
at_pc vm pc = set_register vm r_pc pc

-- The `n` bytes of memory from an address on.
abbrev pub bytes_at : VirtualMachine → ℕ → ℕ → List ℕ
bytes_at vm zero a = []
bytes_at vm (suc n) a = byte_at vm a ∷ bytes_at vm n (a + 1)

byte_at-at_pc : (vm : VirtualMachine) (pc a : ℕ) → byte_at (at_pc vm pc) a ≡ byte_at vm a
unfolding byte_at set_register
byte_at-at_pc vm pc a = refl

bytes_at-at_pc : (vm : VirtualMachine) (pc n a : ℕ) → bytes_at (at_pc vm pc) n a ≡ bytes_at vm n a
bytes_at-at_pc vm pc zero a = refl
bytes_at-at_pc vm pc (suc n) a = rw (byte_at-at_pc vm pc a, bytes_at-at_pc vm pc n (a + 1)) refl

at_pc_twice : (vm : VirtualMachine) (a b : ℕ) → at_pc (at_pc vm a) b ≡ at_pc vm b
unfolding set_register
at_pc_twice vm a b = ap (λ rs. record vm { registers = rs }) (set-set vm.registers r_pc a b)

at_pc_self : (vm : VirtualMachine) → at_pc vm (register vm r_pc) ≡ vm
unfolding set_register register
at_pc_self vm = ap (λ rs. record vm { registers = rs }) (set_self vm.registers r_pc 0)

end_at_pc : (vm : VirtualMachine) (pc : ℕ) → memory_end (at_pc vm pc) ≡ memory_end vm
unfolding set_register
end_at_pc vm pc = refl

-- One byte.
fetch_byte_ok :
    (vm : VirtualMachine) (pc : ℕ)
    → IsValid vm
    → register vm r_pc ≡ pc
    → pc < memory_end vm
    → IsWord (pc + 1)
    → vm_fetch_byte vm ≡ (byte_at vm pc, at_pc vm (pc + 1))
unfolding vm_fetch_byte
fetch_byte_ok vm pc v e h w =
    let next : to_word (pc + 1) ≡ pc + 1 = omega arith in
    let v' = set_register-IsValid vm r_pc (pc + 1) v w in
    rw (e, next)
      (ground (
        arith,
        vm_read_byte_lem (at_pc vm (pc + 1)) pc v',
        byte_at-at_pc vm (pc + 1) pc,
        end_at_pc vm (pc + 1),
      ))

fetch_bytes_ok :
    (n : ℕ) (vm : VirtualMachine) (pc : ℕ)
    → IsValid vm
    → register vm r_pc ≡ pc
    → pc + n ≤ memory_end vm
    → IsWord (pc + n)
    → fetch_bytes n vm ≡ (bytes_at vm n pc, at_pc vm (pc + n))
unfolding fetch_bytes
fetch_bytes_ok zero vm pc v e h w =
    let same : pc + 0 ≡ register vm r_pc = omega arith in rw (same, at_pc_self vm) refl
fetch_bytes_ok (suc n) vm pc v e h w =
    let vm' = at_pc vm (pc + 1) in
    let v' = set_register-IsValid vm r_pc (pc + 1) v (omega arith) in
    let moved : register vm' r_pc ≡ pc + 1 =
      ground (arith, register-set_register vm r_pc r_pc (pc + 1) v) in
    let rest =
      fetch_bytes_ok n vm' (pc + 1) v' moved (rw (end_at_pc vm (pc + 1)) (omega arith))
        (omega arith) in
    let assoc : pc + 1 + n ≡ pc + suc n = omega arith in
    rw
      (
        fetch_byte_ok vm pc v e (omega arith) (omega arith),
        rest,
        bytes_at-at_pc vm (pc + 1) n (pc + 1),
        at_pc_twice vm (pc + 1) (pc + 1 + n),
        assoc,
      )
      refl

-- In a valid machine with eight bytes of memory left at the program counter, a fetch decodes
-- exactly these bytes, and moves the counter by eight; nothing else changes.
pub vm_fetch_instruction_ok :
    (vm : VirtualMachine) (pc : ℕ)
    → IsValid vm
    → register vm r_pc ≡ pc
    → pc + instruction_size ≤ memory_end vm
    → IsWord (pc + instruction_size)
    → (i : Instruction) × (instruction_decode
          (some (bytes_at vm instruction_size pc))
          instruction_size
        ≡ some i)
      × (vm_fetch_instruction vm ≡ (i, at_pc vm (pc + instruction_size)))
unfolding vm_fetch_instruction instruction_decode
vm_fetch_instruction_ok vm pc v e h w =
    let bytes = fetch_bytes_ok 8 vm pc v e h w in
    (_, refl, rw (e, vm_validate_range_ok vm pc 8 v h, bytes) refl)
