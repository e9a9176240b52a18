-- ===== src/Alu/Range.antt =====
-- emulator/src/ALU.c: the result of an operation is a word.
use zlvm.Prelude.{ℕ, ◌/◌, ◌≤◌, ◌≡◌, arith, some, inl, inr, IsWord, Option-cases}
use zlvm.Prelude.Bits.{bit_and-lt, bit_or-lt, bit_xor-lt}
use zlvm.Prelude.Int.{ℤ, pos, negsuc, signed, wrap, ◌+ℤ◌, ◌-ℤ◌, ◌*ℤ◌, ◌/ℤ◌, ◌%ℤ◌}
use zlvm.Alu.{
  Operation, op_noop, op_id, op_add, op_sub, op_mul, op_div, op_mod, op_not, op_and, op_or, op_xor,
  op_nand, op_nor, op_inc, op_dec, op_sadd, op_ssub, op_smul, op_sdiv, op_smod, op_total, Alu,
  operation_result, alu_set_flags, alu_compute,
}

wrap-lt : (i : ℤ) → IsWord (wrap i)
wrap-lt (pos n) = omega arith
wrap-lt (negsuc n) = omega arith

div-le : (l r : ℕ) → l / r ≤ l
div-le l r = omega arith

-- Each case of the switch stores a word.
operation_result-IsWord :
    (op : Operation) (l r : ℕ) {x : ℕ}
    → IsWord l
    → IsWord r
    → operation_result op l r ≡ some x
    → IsWord x
unfolding operation_result
operation_result-IsWord op_id l r p q e = ground arith
operation_result-IsWord op_add l r p q e = ground arith
operation_result-IsWord op_sub l r p q e = ground arith
operation_result-IsWord op_mul l r p q e = ground arith
operation_result-IsWord op_div l r p q e = ground (arith, div-le l r)
operation_result-IsWord op_mod l r p q e = ground arith
operation_result-IsWord op_not l r p q e = ground arith
operation_result-IsWord op_and l r p q e = ground (arith, bit_and-lt 32 l r)
operation_result-IsWord op_or l r p q e = ground (arith, bit_or-lt 32 l r)
operation_result-IsWord op_xor l r p q e = ground (arith, bit_xor-lt 32 l r)
operation_result-IsWord op_nand l r p q e = ground arith
operation_result-IsWord op_nor l r p q e = ground arith
operation_result-IsWord op_inc l r p q e = ground arith
operation_result-IsWord op_dec l r p q e = ground arith
operation_result-IsWord op_sadd l r p q e = ground (arith, wrap-lt (signed l +ℤ signed r))
operation_result-IsWord op_ssub l r p q e = ground (arith, wrap-lt (signed l -ℤ signed r))
operation_result-IsWord op_smul l r p q e = ground (arith, wrap-lt (signed l *ℤ signed r))
operation_result-IsWord op_sdiv l r p q e = ground (arith, wrap-lt (signed l /ℤ signed r))
operation_result-IsWord op_smod l r p q e = ground (arith, wrap-lt (signed l %ℤ signed r))
operation_result-IsWord op_noop l r p q e = ground arith
operation_result-IsWord op_total l r p q e = ground arith

-- From word operands and a word left in `result_`, every operation leaves a word in `result_`.
pub alu_compute-IsWord :
    (a : Alu) → IsWord a.left → IsWord a.right → IsWord a.result → IsWord (alu_compute a).result
unfolding alu_compute alu_set_flags
alu_compute-IsWord a p q h = elim (Option-cases (operation_result a.op a.left a.right)) [
  | inl e ↦ rw (e, alu_compute) (ground arith)
  | inr (x, e) ↦
      let b : IsWord x = operation_result-IsWord a.op a.left a.right p q e in
      rw (e, alu_compute) (ground arith)
]
