-- ===== src/Alu/Unsigned.antt =====
-- emulator/src/ALU.c: what the carry flag says of an unsigned operation.
use zlvm.Prelude.{ℕ, ◌+◌, ◌*◌, ◌%◌, ◌^◌, ◌≤◌, ◌≡◌, ◌↔◌, arith, true, if◌then◌else◌, IsWord}
use zlvm.Alu.{
  op_add, op_sub, op_mul, op_inc, op_dec, alu_compute, alu_set_flags, is_division, operation_result,
  operation_code, is_signed, unsigned_carry, loaded,
}

-- For words `l` and `r`: the carry of an addition or increment is the bit that the result loses;
-- that of a subtraction or decrement is clear exactly when the result has borrowed 2 ^ 32; that of
-- a multiplication is set exactly when the product does not fit, and the result is its remainder.
pub unsigned_carry_lem :
    (l r : ℕ)
    → IsWord l
    → IsWord r
    → (let a = alu_compute (loaded op_add l r) in
        a.result + (if a.flags.c then 2 ^ 32 else 0) ≡ l + r)
      × (let a = alu_compute (loaded op_inc l r) in
          a.result + (if a.flags.c then 2 ^ 32 else 0) ≡ l + 1)
      × (let a = alu_compute (loaded op_sub l r) in
          a.result + r ≡ l + (if a.flags.c then 0 else 2 ^ 32))
      × (let a = alu_compute (loaded op_dec l r) in
          a.result + 1 ≡ l + (if a.flags.c then 0 else 2 ^ 32))
      × (let a = alu_compute (loaded op_mul l r) in
          (a.result ≡ l * r % 2 ^ 32) × ((a.flags.c ≡ true) ↔ (2 ^ 32 ≤ l * r)))
unfolding alu_compute alu_set_flags is_division operation_result is_signed operation_code
    unsigned_carry
unsigned_carry_lem l r p q = (ground arith, ground arith, ground arith, ground arith, ground arith)
