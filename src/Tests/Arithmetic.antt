-- ===== src/Tests/Arithmetic.antt =====
-- The theorems on the arithmetic unit and the comparisons, at concrete operands.
use zlvm.Prelude.{
  ℕ, ◌+◌, ◌*◌, ◌%◌, ◌^◌, ◌≤◌, ◌≡◌, ◌↔◌, refl, arith, true, false, if◌then◌else◌, IsWord, Bool, ◌==◌,
  leb, ltb, not,
}
use zlvm.Prelude.Int.{pos, signed, wrap, ltb_ℤ, ◌+ℤ◌}
use zlvm.Alu.{op_add, op_sub, op_mul, op_inc, op_dec, op_ssub, op_sadd, alu_compute, loaded}
use zlvm.Alu.Range.{alu_compute-IsWord}
use zlvm.Alu.Unsigned.{unsigned_carry_lem}
use zlvm.Alu.Signed.{IsSword, signed-exact}
use zlvm.Vm.{VirtualMachine}
use zlvm.Vm.Condition.{vm_check_condition, vm_do_operation}
use zlvm.Vm.Condition.Compare.{unsigned_comparison, signed_comparison}
use zlvm.Tests.Data.{machine}

alu_compute-IsWord_example : IsWord (alu_compute (loaded op_sub 5 7)).result
alu_compute-IsWord_example =
    alu_compute-IsWord (loaded op_sub 5 7) (omega arith) (omega arith) (omega arith)

unsigned_carry_lem_example :
    (let a = alu_compute (loaded op_add 0xffffffff 2) in
      a.result + (if a.flags.c then 2 ^ 32 else 0) ≡ 0xffffffff + 2)
    × (let a = alu_compute (loaded op_inc 0xffffffff 2) in
        a.result + (if a.flags.c then 2 ^ 32 else 0) ≡ 0xffffffff + 1)
    × (let a = alu_compute (loaded op_sub 0xffffffff 2) in
        a.result + 2 ≡ 0xffffffff + (if a.flags.c then 0 else 2 ^ 32))
    × (let a = alu_compute (loaded op_dec 0xffffffff 2) in
        a.result + 1 ≡ 0xffffffff + (if a.flags.c then 0 else 2 ^ 32))
    × (let a = alu_compute (loaded op_mul 0xffffffff 2) in
        (a.result ≡ 0xffffffff * 2 % 2 ^ 32) × ((a.flags.c ≡ true) ↔ (2 ^ 32 ≤ 0xffffffff * 2)))
unsigned_carry_lem_example = unsigned_carry_lem 0xffffffff 2 (omega arith) (omega arith)

-- 2 ^ 31 - 1 plus 1 overflows.
signed-exact_example :
    let a = alu_compute (loaded op_sadd 0x7fffffff 1) in
    (a.result ≡ wrap (pos 0x80000000))
    × ((a.flags.v ≡ false) ↔ IsSword (pos 0x80000000))
    × (IsSword (pos 0x80000000) → signed a.result ≡ pos 0x80000000)
unfolding ◌+ℤ◌
signed-exact_example =
    signed-exact op_sadd 0x7fffffff 1 (pos 0x80000000) (omega arith) (omega arith) refl

abbrev holds : VirtualMachine → ℕ → Bool
holds vm condition = (vm_check_condition vm condition).0

unsigned_comparison_example :
    let vm' = vm_do_operation machine op_sub 3 0xffffffff in
    (holds vm' 1 ≡ 3 == 0xffffffff)
    × (holds vm' 2 ≡ not (3 == 0xffffffff))
    × (holds vm' 7 ≡ leb 0xffffffff 3)
    × (holds vm' 8 ≡ ltb 3 0xffffffff)
    × (holds vm' 11 ≡ ltb 0xffffffff 3)
    × (holds vm' 12 ≡ leb 3 0xffffffff)
unsigned_comparison_example = unsigned_comparison machine 3 0xffffffff (omega arith) (omega arith)

signed_comparison_example :
    let vm' = vm_do_operation machine op_ssub 3 0xffffffff in
    (holds vm' 1 ≡ 3 == 0xffffffff)
    × (holds vm' 13 ≡ ltb_ℤ (signed 3) (signed 0xffffffff))
    × (holds vm' 14 ≡ not (ltb_ℤ (signed 0xffffffff) (signed 3)))
    × (holds vm' 15 ≡ ltb_ℤ (signed 0xffffffff) (signed 3))
    × (holds vm' 16 ≡ not (ltb_ℤ (signed 3) (signed 0xffffffff)))
signed_comparison_example = signed_comparison machine 3 0xffffffff (omega arith) (omega arith)
