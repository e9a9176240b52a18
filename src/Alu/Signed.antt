-- ===== src/Alu/Signed.antt =====
-- emulator/src/ALU.c: a signed operation against the exact one on integers.
use zlvm.Prelude.{
  ℕ, suc, zero, ◌/◌, ◌%◌, ◌^◌, ◌≤◌, ◌<◌, ◌≡◌, ◌↔◌, refl, ◌==◌, arith, ◌&&◌, true, false, Option,
  none, some, IsWord, if◌then◌else◌,
}
use zlvm.Prelude.Int.{
  ℤ, pos, negsuc, signed, wrap, ◌+ℤ◌, ◌-ℤ◌, ◌*ℤ◌, ◌/ℤ◌, ◌%ℤ◌, ◌≤ℤ◌, sword_min, sword_max, eqb_ℤ,
}
use zlvm.Alu.{
  Operation, op_noop, op_sadd, op_ssub, op_smul, op_sdiv, op_smod, alu_compute, alu_set_flags,
  is_division, operation_result, operation_code, is_signed, signed_overflow, out_of_sword, loaded,
}

abbrev pub IsSword : ℤ → Type 0
IsSword i = (sword_min ≤ℤ i) × (i ≤ℤ sword_max)

-- The exact value of a signed operation on integers, if it has one.
abbrev pub exact : Operation → ℤ → ℤ → Option ℤ
exact op_sadd l r = some (l +ℤ r)
exact op_ssub l r = some (l -ℤ r)
exact op_smul l r = some (l *ℤ r)
exact op_sdiv l r = if eqb_ℤ r (pos 0) then none else some (l /ℤ r)
exact op_smod l r = if eqb_ℤ r (pos 0) then none else some (l %ℤ r)
exact _ l r = none

pub signed-IsSword : (w : ℕ) → IsWord w → IsSword (signed w)
signed-IsSword w h = ground arith

signed-wrap : (i : ℤ) → IsSword i → signed (wrap i) ≡ i
signed-wrap (pos n) h = ground arith
signed-wrap (negsuc n) h = ground arith

out_of_sword_iff : (i : ℤ) → (out_of_sword i ≡ false) ↔ IsSword i
out_of_sword_iff i = ground arith

div-le : (a b : ℕ) → a / b ≤ a
div-le a b = omega arith

div-lt : (a b k : ℕ) → a ≤ k → 0 < k → 1 < b → a / b < k
div-lt a b k h z p = grind arith

-- Only the least word divided by -1 leaves the range.
quotient_overflow :
    (l r : ℤ)
    → IsSword l
    → IsSword r
    → eqb_ℤ r (pos 0) ≡ false
    → (eqb_ℤ l sword_min && eqb_ℤ r (negsuc 0) ≡ false) ↔ IsSword (l /ℤ r)
unfolding ◌/ℤ◌
quotient_overflow (pos a) (pos b) p q z = ground (arith, div-le a b)
quotient_overflow (pos a) (negsuc b) p q z = ground (arith, div-le a (suc b))
quotient_overflow (negsuc a) (pos b) p q z = ground (arith, div-le (suc a) b)
quotient_overflow (negsuc a) (negsuc zero) p q z = ground arith
quotient_overflow (negsuc a) (negsuc (suc b)) p q z =
    ground (arith, div-lt (suc a) (suc (suc b)) (2 ^ 31))

mod-lt-sword : (a b : ℕ) → 0 < b → b ≤ 2 ^ 31 → a % b < 2 ^ 31
mod-lt-sword a b p q = omega arith

remainder-IsSword : (l r : ℤ) → IsSword r → eqb_ℤ r (pos 0) ≡ false → IsSword (l %ℤ r)
unfolding ◌%ℤ◌
remainder-IsSword (pos a) (pos b) q z = ground (arith, mod-lt-sword a b)
remainder-IsSword (pos a) (negsuc b) q z = ground (arith, mod-lt-sword a (suc b))
remainder-IsSword (negsuc a) (pos b) q z = ground (arith, mod-lt-sword (suc a) b)
remainder-IsSword (negsuc a) (negsuc b) q z = ground (arith, mod-lt-sword (suc a) (suc b))

-- The flag that the code computes is clear exactly when the exact value is a signed word.
overflow_iff :
    (op : Operation) (l r : ℤ) {i : ℤ}
    → IsSword l
    → IsSword r
    → exact op l r ≡ some i
    → (signed_overflow op l r ≡ false) ↔ IsSword i
unfolding signed_overflow
overflow_iff op_sadd l r p q e = ground (arith, out_of_sword_iff (l +ℤ r))
overflow_iff op_ssub l r p q e = ground (arith, out_of_sword_iff (l -ℤ r))
overflow_iff op_smul l r p q e = ground (arith, out_of_sword_iff (l *ℤ r))
overflow_iff op_sdiv l r p q e = ground (arith, quotient_overflow l r)
overflow_iff op_smod l r p q e = ground (arith, remainder-IsSword l r)
overflow_iff op_noop l r p q e = cc
overflow_iff _ l r p q e = cc

-- The switch of `alu_compute` stores the exact value wrapped to a word.
stored_value :
    (op : Operation) (l r : ℕ) {i : ℤ}
    → IsWord r
    → exact op (signed l) (signed r) ≡ some i
    → (is_division op && r == 0 ≡ false)
      × (operation_result op l r ≡ some (wrap i))
      × (is_signed op ≡ true)
unfolding is_division operation_result is_signed operation_code
stored_value op_sadd l r q e = ground arith
stored_value op_ssub l r q e = ground arith
stored_value op_smul l r q e = ground arith
stored_value op_sdiv l r q e = ground arith
stored_value op_smod l r q e = ground arith
stored_value op_noop l r q e = cc
stored_value _ l r q e = cc

-- For words `l` and `r` and a signed operation whose exact value on the signed readings is `i`
-- (a division by zero has none): the result is `i` modulo 2 ^ 32, the overflow flag is clear
-- exactly when `i` is a signed word, and then the result reads as `i`.
pub signed-exact :
    (op : Operation) (l r : ℕ) (i : ℤ)
    → IsWord l
    → IsWord r
    → exact op (signed l) (signed r) ≡ some i
    → let a = alu_compute (loaded op l r) in
      (a.result ≡ wrap i) × ((a.flags.v ≡ false) ↔ IsSword i) × (IsSword i → signed a.result ≡ i)
unfolding alu_compute alu_set_flags
signed-exact op l r i p q e =
    let (checked, stored, marked) = stored_value op l r q e in
    let over = overflow_iff op (signed l) (signed r) (signed-IsSword l p) (signed-IsSword r q) e in
    rw (checked, stored, alu_compute, alu_set_flags, marked) (refl, over, signed-wrap i)
